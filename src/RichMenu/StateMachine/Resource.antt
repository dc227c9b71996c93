-- ===== src/RichMenu/StateMachine/Resource.antt =====
-- Runs of a menu resource: sequences of lifecycles that `transition_resource` accepts.
use line_message_playground.Prelude.{
  ℕ, ◌+◌, ◌≤◌, ◌≡◌, Result, ok, err, List, [], ◌∷◌, length, arith,
}
use line_message_playground.RichMenu.StateMachine.{
  ResourceLifecycle, candidate, applied, old, deleted, released, InvalidStateTransition,
  transition_resource,
}

unfoldable pub resource_run :
    ResourceLifecycle → List ResourceLifecycle → Result InvalidStateTransition ResourceLifecycle
resource_run c [] = ok c
resource_run c (d ∷ rest) = elim (transition_resource c d) [
  | ok c' ↦ resource_run c' rest
  | err e ↦ err e
]

abbrev pub lifecycle_rank : ResourceLifecycle → ℕ
lifecycle_rank candidate = 0
lifecycle_rank applied = 1
lifecycle_rank old = 2
lifecycle_rank ResourceLifecycle.cleanup_required = 3
lifecycle_rank deleted = 4
lifecycle_rank released = 4

-- Each accepted transition moves a resource strictly forward, so that a run of n transitions ends
-- at least n ranks further: no lifecycle is entered twice, none is left after `deleted` or
-- `released`, and no run is longer than four transitions.
pub resource_run-rank :
    (c : ResourceLifecycle) (reqs : List ResourceLifecycle) (d : ResourceLifecycle)
    → resource_run c reqs ≡ ok d
    → (lifecycle_rank c + length reqs ≤ lifecycle_rank d) × (length reqs ≤ 4)
unfolding resource_run transition_resource
resource_run-rank c [] d h = ground arith
resource_run-rank c (b ∷ rest) d h = ground (arith, resource_run-rank b rest d)
