-- ===== src/Delivery/Repository/Snapshot.antt =====
-- `_snapshot` of a row that satisfies the table's constraints does not raise.
use line_message_playground.Prelude.{
  ◌<◌, ◌≤◌, ◌≡◌, ◌≢◌, refl, true, false, Bool, by_test, leb, is_some, if◌then◌else◌, Option, some,
  none, inl, inr, Option-cases, arith, ok, ◌∙◌,
}
use line_message_playground.Delivery.Types.{
  Time, ReceiptStatus, pending, confirmed, DeliverySnapshot, MessageSnapshot, TargetSnapshot,
  nonempty_if_some, delivery_snapshot_valid, validate_owner_identity,
}
use line_message_playground.Delivery.Formatter.{format_message}
use line_message_playground.Delivery.Store.{
  Attempt, check_constraints, valid_target, valid_state, valid_receipt,
}
use line_message_playground.Delivery.Repository.{Runtime, snapshot}
use line_message_playground.Delivery.Row.{
  snapshot_target, snapshot_fields, receipt_status_of, expired_by, present,
}

-- What the constraints leave open, and the code that writes a row sees to.
pub record IsPresentable (rt : Runtime) (a : Attempt) : Type 0 where
  pub owner : 0 < a.owner_principal_slot
  pub label : nonempty_if_some a.channel_label_snapshot ≡ true
  pub request_id : nonempty_if_some a.line_request_id ≡ true
  pub accepted_request_id : nonempty_if_some a.line_accepted_request_id ≡ true
  pub event_id : nonempty_if_some a.receipt_webhook_event_id ≡ true
  pub message :
      (m : MessageSnapshot) × (format_message rt.is_space rt.message_digest a.subject a.body ≡ ok m)

snapshot_target_there :
    (a : Attempt)
    → valid_target a ≡ true
    → nonempty_if_some a.channel_label_snapshot ≡ true
    → snapshot_target a ≢ none
unfolding valid_target snapshot_target
snapshot_target_there a v l = ground arith

snapshot_target_owner :
    (a : Attempt) (t : TargetSnapshot)
    → valid_target a ≡ true
    → snapshot_target a ≡ some t
    → validate_owner_identity t a.owner_identity_public_id ≡ true
unfolding valid_target snapshot_target validate_owner_identity
snapshot_target_owner a t v h = ground arith

snapshot_fields-valid :
    (rt : Runtime) (a : Attempt) (now : Time) (t : TargetSnapshot) (m : MessageSnapshot)
    → check_constraints a ≡ true
    → IsPresentable rt a
    → validate_owner_identity t a.owner_identity_public_id ≡ true
    → delivery_snapshot_valid (snapshot_fields a now t m) ≡ true
unfolding check_constraints valid_state valid_receipt delivery_snapshot_valid snapshot_fields
snapshot_fields-valid rt a now t m c p o = ground arith

-- What a receipt is at a time, by whether it was requested, when it was confirmed and when it expires:
-- not requested, confirmed, expired from its expiry on, and else pending.
pub data IsReceipt (now : Time) : Bool → Option Time → Option Time → ReceiptStatus → Type 0 where
  unasked : (at expiry : Option Time) → IsReceipt now false at expiry ReceiptStatus.not_requested
  is_confirmed : (at : Time) (expiry : Option Time) → IsReceipt now true (some at) expiry confirmed
  too_late :
      (expires_at : Time)
      → expires_at ≤ now
      → IsReceipt now true none (some expires_at) ReceiptStatus.expired
  in_time :
      (expires_at : Time) → now < expires_at → IsReceipt now true none (some expires_at) pending

IsReceipt-columns :
    (now : Time) (requested : Bool) (at expiry : Option Time)
    → (requested ≡ true → is_some expiry ≡ true)
    → IsReceipt now requested at expiry (
        if requested
        then (if is_some at
            then confirmed
            else if expired_by expiry now
            then ReceiptStatus.expired
            else pending)
        else ReceiptStatus.not_requested)
IsReceipt-columns now false at expiry h = unasked at expiry
IsReceipt-columns now true (some t) expiry h = is_confirmed t expiry
IsReceipt-columns now true none none h = let bad = h refl in cc
IsReceipt-columns now true none (some x) h =
    by_test (IsReceipt now true none (some x)) (leb x now) _ _ (λ l. too_late x (ground arith))
      (λ l. in_time x (ground arith))

receipt_status_of-IsReceipt :
    (a : Attempt) (now : Time)
    → valid_receipt a ≡ true
    → IsReceipt now a.receipt_requested a.receipt_confirmed_at a.receipt_expires_at
        (receipt_status_of a now)
unfolding valid_receipt receipt_status_of
receipt_status_of-IsReceipt a now v =
    IsReceipt-columns now a.receipt_requested a.receipt_confirmed_at a.receipt_expires_at
      (λ e. ground arith)

-- The snapshot of a row is what its columns say, and its receipt is as it is at the time.
abbrev pub Shows : Attempt → Time → DeliverySnapshot → Type 0
Shows a now s =
    (s.operation_id ≡ a.operation_id)
    × (s.status ≡ a.status)
    × (s.failure ≡ a.failure_type)
    × (s.completed_at ≡ a.completed_at)
    × (s.receipt_confirmed_at ≡ a.receipt_confirmed_at)
    × (s.receipt_webhook_event_id ≡ a.receipt_webhook_event_id)
    × IsReceipt now a.receipt_requested a.receipt_confirmed_at a.receipt_expires_at s.receipt_status

-- A row that satisfies the constraints, of a message that can be formatted again and with no empty
-- text in its columns, has a snapshot at any time, and the snapshot shows the row's operation, status,
-- failure and completion, and its receipt: not requested, confirmed with its time and event, expired
-- from its expiry on, and pending before that.
pub snapshot_total :
    (rt : Runtime) (a : Attempt) (now : Time)
    → check_constraints a ≡ true
    → IsPresentable rt a
    → (s : DeliverySnapshot) × (snapshot rt a now ≡ ok s) × Shows a now s
unfolding check_constraints snapshot
snapshot_total rt a now c p = elim (Option-cases (snapshot_target a)) [
  | inl e ↦ absurd (snapshot_target_there a (ground arith) p.label e)
  | inr (t, e) ↦
      let (m, q) = p.message in
      let v : delivery_snapshot_valid (snapshot_fields a now t m) ≡ true =
        snapshot_fields-valid rt a now t m c p (snapshot_target_owner a t (ground arith) e) in
      let there : snapshot rt a now ≡ present a now (some t) (ok m) =
        λ i. present a now (e i) (q i) in
      (
        snapshot_fields a now t m,
        there ∙ rw v,
        (refl, refl, refl, refl, refl, refl, receipt_status_of-IsReceipt a now (ground arith)),
      )
]
