-- ===== src/Delivery/Service/Pending.antt =====
-- The pushes of an operation that LINE was called with, and those that may come: what a request's
-- first steps leave of them.
use line_message_playground.Prelude.{
  ℕ, ◌+◌, ◌≤◌, ◌≡◌, refl, Bool, true, false, ◌==◌, Option, some, none, if◌then◌else◌, arith, Result,
  ok, err,
}
use line_message_playground.Prelude.Rows.{first, exists, count_where}
use line_message_playground.Delivery.Types.{
  Uuid, LiveDeliveryTarget, ReceiptCapabilityCandidate, TargetUnavailableReason, Raised,
  SubmitLinkedDelivery, PushLinkedRecipientCommand,
}
use line_message_playground.Delivery.Store.{Attempt, AttemptDb}
use line_message_playground.Delivery.Repository.{Runtime}
use line_message_playground.Delivery.Row.{of_operation}
use line_message_playground.Delivery.Service.{
  TargetResolution, live, target_unavailable, Outside, World, candidate_for,
  validate_confirmed_target, accepted_command,
}
use line_message_playground.Delivery.Service.Requests.{
  Stage, pushing, looked, look, look_validated, look_resolved,
}

abbrev pub bit : Bool → ℕ
bit b = if b then 1 else 0

-- The commands of one operation.
abbrev pub is_for : Uuid → PushLinkedRecipientCommand → Bool
is_for operation_id c = c.operation_id == operation_id

module _ (operation_id : Uuid) where
  abbrev pub taken : AttemptDb → Bool
  taken db = exists (λ (a : Attempt). a.operation_id == operation_id) db.rows

  -- The request has stored the operation's attempt and is about to push.
  abbrev pub may_push : Stage → Bool
  may_push (pushing a) = a.snapshot.operation_id == operation_id
  may_push _ = false

  -- The pushes of the operation, and the one that may come, less the row that it has.
  abbrev pub Falls : World → Stage → Stage × World → Type 0
  Falls w st (st', w') =
      count_where (is_for operation_id) w'.pushes + bit (may_push st') + bit (taken w.db)
      ≤ count_where (is_for operation_id) w.pushes + bit (may_push st) + bit (taken w'.db)

  bit-le : (a b : Bool) → (a ≡ true → b ≡ true) → bit a ≤ bit b
  bit-le false b h = ground arith
  bit-le true b h = rw (h refl) (omega arith)

  pub bit-one : (b : Bool) → bit b ≤ 1
  bit-one false = omega arith
  bit-one true = omega arith

  module _ (rt : Runtime) (out : Outside) where
    looked-quiet :
        (command : SubmitLinkedDelivery) (target : LiveDeliveryTarget)
        (c : Option ReceiptCapabilityCandidate) (o : Option Attempt)
        → may_push (looked rt out command target c o) ≡ false
    looked-quiet command target c none = refl
    looked-quiet command target c (some a) = refl

    look-quiet :
        (command : SubmitLinkedDelivery) (target : LiveDeliveryTarget)
        (c : Result Raised (Option ReceiptCapabilityCandidate)) (db : AttemptDb)
        → may_push (look rt out command target c db) ≡ false
    look-quiet command target (err e) db = refl
    look-quiet command target (ok c) db = ground (
      arith,
      looked-quiet command target c
          (first (of_operation (accepted_command rt out command target c)) db.rows),
    )

    look_validated-quiet :
        (command : SubmitLinkedDelivery) (target : LiveDeliveryTarget)
        (reason : Option TargetUnavailableReason) (db : AttemptDb)
        → may_push (look_validated rt out command target reason db) ≡ false
    look_validated-quiet command target (some reason) db = refl
    look_validated-quiet command target none db =
        look-quiet command target (candidate_for rt out command.confirmation) db

    pub look_resolved-quiet :
        (command : SubmitLinkedDelivery) (r : TargetResolution) (db : AttemptDb)
        → may_push (look_resolved rt out command r db) ≡ false
    look_resolved-quiet command (target_unavailable reason) db = refl
    look_resolved-quiet command (live target) db =
        look_validated-quiet command target (validate_confirmed_target target command.confirmation)
          db

    -- A step that neither pushes nor is about to, and loses no row.
    pub still-Falls :
        (w w' : World) (st st' : Stage)
        → w'.pushes ≡ w.pushes
        → may_push st' ≡ false
        → (taken w.db ≡ true → taken w'.db ≡ true)
        → Falls w st (st', w')
    still-Falls w w' st st' p m t = rw (p, m) (omega (arith, bit-le (taken w.db) (taken w'.db) t))
