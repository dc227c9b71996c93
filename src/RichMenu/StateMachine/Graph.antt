-- ===== src/RichMenu/StateMachine/Graph.antt =====
-- The moves of an operation that state_machine.py lets `transition_operation` make, as a relation with a
-- rule for each kind of move, and `transition_operation` against it. The repository moves an operation
-- in other ways too, without that function: `handoff_recovery` is not modelled.
use line_message_playground.Prelude.{◌≡◌, Option, none, some, ok, arith}
use line_message_playground.RichMenu.StateMachine.{
  OperationKind, apply, unlink, release, recheck, cleanup, OperationStatus, accepted, processing,
  failed, unknown, recovery_active, succeeded, OperationStage, creating, uploading, setting_default,
  verifying, clearing_default, cleaning, local_release, OperationState, transition_operation,
}

-- An external call can end without a known result, or leave something to clean up.
pub data Ends
    : OperationKind → Option OperationStage → OperationStatus → OperationStage → Type 0 where
  not_created : Ends apply (some creating) failed creating
  creation_unknown : Ends apply (some creating) unknown creating
  upload_unknown : Ends apply (some uploading) unknown uploading
  upload_cleanup : Ends apply (some uploading) OperationStatus.cleanup_required cleaning
  default_unknown : Ends apply (some setting_default) unknown setting_default
  default_cleanup : Ends apply (some setting_default) OperationStatus.cleanup_required cleaning
  applied : Ends apply (some verifying) succeeded verifying
  verify_unknown : Ends apply (some verifying) unknown verifying
  verify_cleanup : Ends apply (some verifying) OperationStatus.cleanup_required cleaning
  not_cleared : Ends unlink (some clearing_default) failed clearing_default
  clearing_unknown : Ends unlink (some clearing_default) unknown clearing_default
  unlinked : Ends unlink (some verifying) succeeded verifying
  not_unlinked : Ends unlink (some verifying) failed verifying
  unlink_unknown : Ends unlink (some verifying) unknown verifying
  released : Ends release (some local_release) succeeded local_release
  not_released : Ends release (some local_release) failed local_release

pub data Recovers : OperationKind → OperationStage → Type 0 where
  by_recheck : Recovers recheck verifying
  by_cleanup : Recovers cleanup cleaning

pub data IsResult : OperationStatus → Type 0 where
  result_succeeded : IsResult succeeded
  result_failed : IsResult failed
  result_unknown : IsResult unknown
  result_cleanup : IsResult OperationStatus.cleanup_required

pub data IsStopped : OperationStatus → Type 0 where
  stopped_unknown : IsStopped unknown
  stopped_cleanup : IsStopped OperationStatus.cleanup_required

pub data IsUnsuccessful : OperationStatus → Type 0 where
  again_unknown : IsUnsuccessful unknown
  finally_failed : IsUnsuccessful failed

-- The stage at which each kind of external work begins, and what follows it.
pub data Begins : OperationKind → OperationStage → Type 0 where
  begin_apply : Begins apply creating
  begin_unlink : Begins unlink clearing_default
  begin_release : Begins release local_release

pub data Follows : OperationKind → Option OperationStage → OperationStage → Type 0 where
  upload : Follows apply (some creating) uploading
  set_default : Follows apply (some uploading) setting_default
  verify_applied : Follows apply (some setting_default) verifying
  verify_unlinked : Follows unlink (some clearing_default) verifying

-- One move: kind, status and stage before, status and stage after.
pub data Edge (k : OperationKind) (s : OperationStatus) (a : Option OperationStage)
    (s' : OperationStatus) (t : OperationStage) : Type 0 where
  begin : s ≡ accepted → a ≡ none → s' ≡ processing → Begins k t → Edge k s a s' t
  recover : s ≡ accepted → a ≡ none → s' ≡ recovery_active → Recovers k t → Edge k s a s' t
  advance : s ≡ processing → s' ≡ processing → Follows k a t → Edge k s a s' t
  finish : s ≡ processing → Ends k a s' t → Edge k s a s' t
  recovered : s ≡ recovery_active → a ≡ some t → Recovers k t → IsResult s' → Edge k s a s' t
  give_up : IsStopped s → a ≡ some t → IsUnsuccessful s' → Edge k s a s' t

ruleset begin_rules = (begin_apply, begin_unlink, begin_release, by_recheck, by_cleanup)

ruleset follow_rules = (upload, set_default, verify_applied, verify_unlinked)

ruleset finish_rules = (
  not_created, creation_unknown, upload_unknown, upload_cleanup, default_unknown, default_cleanup,
  applied, verify_unknown, verify_cleanup, not_cleared, clearing_unknown, unlinked, not_unlinked,
  unlink_unknown, released, not_released,
)

ruleset stop_rules = (
  result_succeeded, result_failed, result_unknown, result_cleanup, stopped_unknown, stopped_cleanup,
  again_unknown, finally_failed,
)

ruleset edge_rules = (
  arith, begin_rules, follow_rules, finish_rules, stop_rules, begin, recover, advance, finish,
  recovered, give_up,
)

-- An accepted transition is an edge of the diagram.
pub Edge-of_ok :
    (k : OperationKind) (s : OperationStatus) (a : Option OperationStage) (s' : OperationStatus)
    (t : OperationStage) {r : OperationState}
    → transition_operation k s a s' t ≡ ok r
    → Edge k s a s' t
unfolding transition_operation
Edge-of_ok apply accepted a s' t h = grind edge_rules
Edge-of_ok unlink accepted a s' t h = grind edge_rules
Edge-of_ok release accepted a s' t h = grind edge_rules
Edge-of_ok recheck accepted a s' t h = grind edge_rules
Edge-of_ok cleanup accepted a s' t h = grind edge_rules
Edge-of_ok k failed a s' t h = cc
Edge-of_ok k succeeded a s' t h = cc
Edge-of_ok k unknown a s' t h = grind edge_rules
Edge-of_ok k OperationStatus.cleanup_required a s' t h = grind edge_rules
Edge-of_ok recheck recovery_active a s' t h = grind edge_rules
Edge-of_ok cleanup recovery_active a s' t h = grind edge_rules
Edge-of_ok _ recovery_active a s' t h = cc
Edge-of_ok apply processing (some creating) s' t h = grind edge_rules
Edge-of_ok apply processing (some uploading) s' t h = grind edge_rules
Edge-of_ok apply processing (some setting_default) s' t h = grind edge_rules
Edge-of_ok apply processing (some verifying) s' t h = grind edge_rules
Edge-of_ok unlink processing (some clearing_default) s' t h = grind edge_rules
Edge-of_ok unlink processing (some verifying) s' t h = grind edge_rules
Edge-of_ok release processing (some local_release) s' t h = grind edge_rules
Edge-of_ok _ processing a s' t h = ground arith

pub ok-of_Edge :
    (k : OperationKind) (s : OperationStatus) (a : Option OperationStage) (s' : OperationStatus)
    (t : OperationStage)
    → Edge k s a s' t
    → transition_operation k s a s' t ≡ ok (record { status = s'; stage = some t })
unfolding transition_operation
ok-of_Edge k s a s' t (begin p q r begin_apply) = ground arith
ok-of_Edge k s a s' t (begin p q r _) = ground arith
ok-of_Edge k s a s' t (recover p q r by_recheck) = ground arith
ok-of_Edge k s a s' t (recover p q r _) = ground arith
ok-of_Edge k s a s' t (advance p q upload) = ground arith
ok-of_Edge k s a s' t (advance p q _) = ground arith
ok-of_Edge k s a s' t (finish p not_created) = ground arith
ok-of_Edge k s a s' t (finish p _) = ground arith
ok-of_Edge k s a s' t (recovered p q by_recheck result_succeeded) = ground arith
ok-of_Edge k s a s' t (recovered p q by_cleanup result_succeeded) = ground arith
ok-of_Edge k s a s' t (recovered p q _ _) = ground arith
ok-of_Edge k s a s' t (give_up stopped_unknown q again_unknown) = ground arith
ok-of_Edge k s a s' t (give_up stopped_cleanup q again_unknown) = ground arith
ok-of_Edge k s a s' t (give_up _ q _) = ground arith

-- `transition_operation` returns the requested status and stage exactly when a rule of `Edge` has that
-- move: it accepts nothing else, and what it returns is what was asked for.
pub transition_operation-Edge :
    (k : OperationKind) (s : OperationStatus) (a : Option OperationStage) (s' : OperationStatus)
    (t : OperationStage)
    → ((r : OperationState) → transition_operation k s a s' t ≡ ok r → Edge k s a s' t)
      × (Edge k s a s' t
          → transition_operation k s a s' t ≡ ok (record { status = s'; stage = some t }))
transition_operation-Edge k s a s' t = (λ r. Edge-of_ok k s a s' t, ok-of_Edge k s a s' t)
