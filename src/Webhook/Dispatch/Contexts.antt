-- ===== src/Webhook/Dispatch/Contexts.antt =====
-- The handlers' contexts.
use line_message_playground.Prelude.{
  ℕ, suc, ◌+◌, ◌≤◌, ◌<◌, ◌≡◌, refl, ◌∙◌, ap, Bool, true, false, List, [], ◌∷◌, length, Bool-cases,
  inl, inr, arith, ok,
}
use line_message_playground.Prelude.Rows.{count_where}
use line_message_playground.Webhook.Types.{
  VerifiedEventData, HandlerRegistration, local, deadline_managed_external, make_context,
  valid_cutoff, Resolved, registered, not_registered, other_object, ReceiptDecision, ReceiptStatus,
  processing, processed, failed, unsupported, HandlerExecutionProfile,
}
use line_message_playground.Webhook.Dispatch.{
  Environment, DispatchItem, DispatchState, Step, next, raised, dispatchable, required_reserve,
  external_cutoff, closes, call_handler, finalize_handled, close_receipt, dispatch_open,
  dispatch_item, and_then, dispatch,
}

count_where-length : (is : List DispatchItem) → count_where dispatchable is ≤ length is
count_where-length [] = omega arith
count_where-length (i ∷ is) = ground (arith, count_where-length is)

-- A step that goes on, with at most one more call.
abbrev Goes : ℕ → Step → Type 0
Goes n (next s) = s.dispatch_index ≤ n
Goes n (raised x s) = ⊥

cutoff-valid :
    (p : HandlerExecutionProfile) (now deadline pending : ℕ)
    → 0 < now
    → now + required_reserve pending ≤ deadline
    → valid_cutoff (external_cutoff p deadline pending) deadline ≡ true
cutoff-valid local now deadline pending h k = refl
cutoff-valid deadline_managed_external now deadline pending h k = ground arith

make_context-ok :
    (p : HandlerExecutionProfile) (now deadline index remaining : ℕ)
    → 0 < now
    → now + required_reserve (suc remaining) ≤ deadline
    → index ≤ 9
    → remaining ≤ 9
    → make_context deadline index remaining (external_cutoff p deadline (suc remaining))
      ≡ ok (record {
        response_deadline_monotonic = deadline;
        dispatch_index = index;
        remaining_dispatch_count = remaining;
        external_io_deadline_monotonic = external_cutoff p deadline (suc remaining);
      })
unfolding make_context
make_context-ok p now deadline index remaining h k i r =
    ground (arith, cutoff-valid p now deadline (suc remaining) h k)

module _ (env : Environment) (channel deadline position : ℕ) where
  call_handler-Goes :
      (e : VerifiedEventData) (r : HandlerRegistration) (d : ReceiptDecision) (remaining : ℕ)
      (s : DispatchState)
      → 0 < env.clock position
      → env.clock position + required_reserve (suc remaining) ≤ deadline
      → s.dispatch_index ≤ 9
      → remaining ≤ 9
      → Goes (suc s.dispatch_index) (call_handler env channel deadline position e r d remaining s)
  unfolding call_handler
  call_handler-Goes e r d remaining s c k i m =
      rw
        (make_context-ok r.execution_profile (env.clock position) deadline s.dispatch_index
          remaining c k i m)
        (omega arith)

  dispatch_open-Goes :
      (e : VerifiedEventData) (r : HandlerRegistration) (d : ReceiptDecision) (remaining : ℕ)
      (s : DispatchState)
      → 0 < env.clock position
      → s.dispatch_index ≤ 9
      → remaining ≤ 9
      → Goes (suc s.dispatch_index) (dispatch_open env channel deadline position e r d remaining s)
  unfolding close_receipt
  dispatch_open-Goes e r d remaining s c i m =
      elim (Bool-cases (closes env channel deadline position remaining s)) [
        | inl y ↦ rw y (omega arith)
        | inr n ↦ rw n (
            call_handler-Goes e r d remaining (record s { dispatch_closed = false }) c
              (ground arith) i m)
      ]

  dispatch_item-Goes :
      (i : DispatchItem) (remaining : ℕ) (s : DispatchState)
      → 0 < env.clock position
      → s.dispatch_index ≤ 9
      → remaining ≤ 9
      → Goes (suc s.dispatch_index) (dispatch_item env channel deadline position i remaining s)
  unfolding dispatch_item close_receipt call_handler finalize_handled
  dispatch_item-Goes i remaining s c h m =
      go i.decision.created i.registration i.decision.status refl refl refl
    where
      go :
          (b : Bool) (r : Resolved) (t : ReceiptStatus)
          → i.decision.created ≡ b
          → i.registration ≡ r
          → i.decision.status ≡ t
          → Goes (suc s.dispatch_index) (dispatch_item env channel deadline position i remaining s)
      go false r t e f g = rw e (omega arith)
      go true not_registered t e f g = rw (e, f) (omega arith)
      go true other_object processing e f g = rw (e, f, g) (omega arith)
      go true other_object processed e f g = rw (e, f, g) (omega arith)
      go true other_object failed e f g = rw (e, f, g) (omega arith)
      go true other_object unsupported e f g = rw (e, f, g) (omega arith)
      go true (registered r) processing e f g =
          rw (e, f, g) (dispatch_open-Goes i.event r i.decision remaining s c h m)
      go true (registered r) processed e f g = rw (e, f, g) (omega arith)
      go true (registered r) failed e f g = rw (e, f, g) (omega arith)
      go true (registered r) unsupported e f g = rw (e, f, g) (omega arith)

dispatch-goes :
    (env : Environment) (channel deadline position : ℕ) (is : List DispatchItem) (s : DispatchState)
    → ((k : ℕ) → 0 < env.clock k)
    → s.dispatch_index + length is ≤ 10
    → (s' : DispatchState) × (dispatch env channel deadline position is s ≡ next s')
unfolding dispatch
dispatch-goes env channel deadline position [] s c h = (s, refl)
dispatch-goes env channel deadline position (i ∷ is) s c h =
    go (dispatch_item env channel deadline position i (count_where dispatchable is) s) refl
      (dispatch_item-Goes env channel deadline position i (count_where dispatchable is) s
        (c position) (omega arith) (omega (arith, count_where-length is)))
      (λ u k. dispatch-goes env channel deadline (suc position) is u c k)
  where
    go :
        (t : Step)
        → dispatch_item env channel deadline position i (count_where dispatchable is) s ≡ t
        → Goes (suc s.dispatch_index) t
        → ((u : DispatchState)
            → u.dispatch_index + length is ≤ 10
            → (s' : DispatchState) × (dispatch env channel deadline (suc position) is u ≡ next s'))
        → (s' : DispatchState) × (dispatch env channel deadline position (i ∷ is) s ≡ next s')
    go (next u) e g rest =
        let r = rest u (omega arith) in
        (r.0, ap (λ t. and_then t (dispatch env channel deadline (suc position) is)) e ∙ r.1)
    go (raised x u) e g rest = absurd g

-- `_dispatch` never raises, if the payload has at most ten events and the clock is positive: every
-- context it builds for a handler passes the checks of `HandlerExecutionContext`.
pub dispatch_never_raises :
    (env : Environment) (channel deadline : ℕ) (is : List DispatchItem) (s : DispatchState)
    → ((k : ℕ) → 0 < env.clock k)
    → length is ≤ 10
    → s.dispatch_index ≡ 0
    → (s' : DispatchState) × (dispatch env channel deadline 0 is s ≡ next s')
dispatch_never_raises env channel deadline is s c h z =
    dispatch-goes env channel deadline 0 is s c (omega arith)
