-- ===== src/RichMenu/StateMachine/Examples.antt =====
-- The theorems on transitions at concrete ones.
use line_message_playground.Prelude.{◌+◌, ◌≤◌, ◌≡◌, refl, none, some, ok, [], ◌∷◌}
use line_message_playground.RichMenu.StateMachine.{
  apply, accepted, processing, succeeded, unknown, creating, uploading, OperationState, candidate,
  applied, old, ResourceLifecycle, deleted, transition_operation, transition_resource,
}
use line_message_playground.RichMenu.StateMachine.Graph.{Edge, transition_operation-Edge}
use line_message_playground.RichMenu.StateMachine.Runs.{
  run, initial, final_stage, success_path, run_succeeds_exactly, progress, rank, progress-run,
}
use line_message_playground.RichMenu.StateMachine.Resource.{
  resource_run, lifecycle_rank, resource_run-rank,
}

transition_operation-Edge_example :
    ((r : OperationState)
      → transition_operation apply processing (some creating) processing uploading ≡ ok r
      → Edge apply processing (some creating) processing uploading)
    × (Edge apply processing (some creating) processing uploading
        → transition_operation apply processing (some creating) processing uploading
          ≡ ok (record { status = processing; stage = some uploading }))
transition_operation-Edge_example =
    transition_operation-Edge apply processing (some creating) processing uploading

run_succeeds_exactly_example :
    ((st : OperationState)
      → run apply initial (success_path apply accepted none) ≡ ok st
      → st.status ≡ succeeded
      → success_path apply accepted none ≡ success_path apply accepted none)
    × (run apply initial (success_path apply accepted none)
        ≡ ok (record { status = succeeded; stage = some (final_stage apply) }))
run_succeeds_exactly_example = run_succeeds_exactly apply (success_path apply accepted none)

polled :
    run apply
      (record { status = accepted; stage = none })
      ((processing, creating) ∷ (unknown, creating) ∷ (unknown, creating) ∷ [])
    ≡ ok (record { status = unknown; stage = some creating })
unfolding run transition_operation
polled = refl

progress-run_example :
    progress accepted ((processing, creating) ∷ (unknown, creating) ∷ (unknown, creating) ∷ [])
      + rank accepted none
    ≤ 7
progress-run_example =
    progress-run apply accepted none
      ((processing, creating) ∷ (unknown, creating) ∷ (unknown, creating) ∷ [])
      (record { status = unknown; stage = some creating }) polled

retired :
    resource_run candidate (applied ∷ old ∷ ResourceLifecycle.cleanup_required ∷ deleted ∷ [])
    ≡ ok deleted
unfolding resource_run transition_resource
retired = refl

resource_run-rank_example : (lifecycle_rank candidate + 4 ≤ lifecycle_rank deleted) × (4 ≤ 4)
resource_run-rank_example =
    resource_run-rank candidate (applied ∷ old ∷ ResourceLifecycle.cleanup_required ∷ deleted ∷ [])
      deleted retired
