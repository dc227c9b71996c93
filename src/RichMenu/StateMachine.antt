-- ===== src/RichMenu/StateMachine.antt =====
-- backend/linerichmenus/state_machine.py: the transitions of an operation and of a menu resource.
pub mod Graph
pub mod Runs
pub mod Resource
pub mod Examples
use line_message_playground.Prelude.{
  Bool, true, false, ◌||◌, not, Option, none, some, is_some, is_none, if◌then◌else◌, Result, ok,
  err,
}

pub data OperationKind : Type 0 where
  apply unlink release recheck cleanup : OperationKind

pub data OperationStatus : Type 0 where
  accepted processing failed unknown cleanup_required recovery_active succeeded : OperationStatus

pub data OperationStage : Type 0 where
  creating uploading setting_default verifying clearing_default cleaning local_release :
      OperationStage

pub data ResourceLifecycle : Type 0 where
  candidate applied old cleanup_required deleted released : ResourceLifecycle

pub record OperationState : Type 0 where
  pub status : OperationStatus
  pub stage : Option OperationStage

-- The message that `InvalidStateTransition` is raised with.
pub data InvalidStateTransition : Type 0 where
  terminal_operation invalid_initial_stage invalid_processing_kind : InvalidStateTransition
  invalid_stage_progression invalid_cleanup_transition : InvalidStateTransition
  invalid_status_transition invalid_recovery failure_must_preserve_stage : InvalidStateTransition
  invalid_lifecycle_transition : InvalidStateTransition

-- `is` on the members of an enumeration.
abbrev pub status_is : OperationStatus → OperationStatus → Bool
status_is OperationStatus.accepted OperationStatus.accepted = true
status_is OperationStatus.processing OperationStatus.processing = true
status_is OperationStatus.failed OperationStatus.failed = true
status_is OperationStatus.unknown OperationStatus.unknown = true
status_is OperationStatus.cleanup_required OperationStatus.cleanup_required = true
status_is OperationStatus.recovery_active OperationStatus.recovery_active = true
status_is OperationStatus.succeeded OperationStatus.succeeded = true
status_is _ _ = false

abbrev pub stage_is : OperationStage → OperationStage → Bool
stage_is creating creating = true
stage_is uploading uploading = true
stage_is setting_default setting_default = true
stage_is verifying verifying = true
stage_is clearing_default clearing_default = true
stage_is cleaning cleaning = true
stage_is local_release local_release = true
stage_is _ _ = false

-- `is` where either side may be `None`.
abbrev pub maybe_stage_is : Option OperationStage → Option OperationStage → Bool
maybe_stage_is none none = true
maybe_stage_is (some a) (some b) = stage_is a b
maybe_stage_is _ _ = false

terminal_operation_statuses : OperationStatus → Bool
terminal_operation_statuses OperationStatus.failed = true
terminal_operation_statuses OperationStatus.succeeded = true
terminal_operation_statuses _ = false

initial_stage_by_kind : OperationKind → Option OperationStage
initial_stage_by_kind apply = some creating
initial_stage_by_kind unlink = some clearing_default
initial_stage_by_kind release = some local_release
initial_stage_by_kind _ = none

recovery_stage_by_kind : OperationKind → Option OperationStage
recovery_stage_by_kind recheck = some verifying
recovery_stage_by_kind cleanup = some cleaning
recovery_stage_by_kind _ = none

-- `_PROCESSING_SUCCESSORS.get((kind, current_stage))`
processing_successors : OperationKind → Option OperationStage → Option OperationStage
processing_successors apply (some creating) = some uploading
processing_successors apply (some uploading) = some setting_default
processing_successors apply (some setting_default) = some verifying
processing_successors unlink (some clearing_default) = some verifying
processing_successors _ _ = none

-- `next_status in _PROCESSING_OUTCOMES.get((kind, current_stage), frozenset())`
processing_outcomes : OperationKind → Option OperationStage → OperationStatus → Bool
processing_outcomes apply (some creating) OperationStatus.failed = true
processing_outcomes apply (some creating) OperationStatus.unknown = true
processing_outcomes apply (some uploading) OperationStatus.unknown = true
processing_outcomes apply (some uploading) OperationStatus.cleanup_required = true
processing_outcomes apply (some setting_default) OperationStatus.unknown = true
processing_outcomes apply (some setting_default) OperationStatus.cleanup_required = true
processing_outcomes apply (some verifying) OperationStatus.succeeded = true
processing_outcomes apply (some verifying) OperationStatus.unknown = true
processing_outcomes apply (some verifying) OperationStatus.cleanup_required = true
processing_outcomes unlink (some clearing_default) OperationStatus.failed = true
processing_outcomes unlink (some clearing_default) OperationStatus.unknown = true
processing_outcomes unlink (some verifying) OperationStatus.succeeded = true
processing_outcomes unlink (some verifying) OperationStatus.failed = true
processing_outcomes unlink (some verifying) OperationStatus.unknown = true
processing_outcomes release (some local_release) OperationStatus.succeeded = true
processing_outcomes release (some local_release) OperationStatus.failed = true
processing_outcomes _ _ _ = false

-- Entering: the kind gives the stage and the status to begin with.
from_accepted :
    OperationKind
    → Option OperationStage
    → OperationStatus
    → OperationStage
    → Option InvalidStateTransition
unfolding initial_stage_by_kind recovery_stage_by_kind
from_accepted kind current_stage next_status next_stage =
    let recovering = is_some (recovery_stage_by_kind kind) in
    let expected_stage =
      if recovering then recovery_stage_by_kind kind else initial_stage_by_kind kind in
    let expected_status = if recovering then recovery_active else processing in
    if is_some current_stage
      || not (status_is next_status expected_status)
      || not (maybe_stage_is (some next_stage) expected_stage)
    then some invalid_initial_stage
    else none

from_processing :
    OperationKind
    → Option OperationStage
    → OperationStatus
    → OperationStage
    → Option InvalidStateTransition
unfolding initial_stage_by_kind processing_successors processing_outcomes
from_processing kind current_stage next_status next_stage =
    if is_none (initial_stage_by_kind kind)
    then some invalid_processing_kind
    else if status_is next_status processing
    then (if maybe_stage_is (processing_successors kind current_stage) (some next_stage)
        then none
        else some invalid_stage_progression)
    else if processing_outcomes kind current_stage next_status
    then (let expected_result_stage =
          if status_is next_status OperationStatus.cleanup_required
          then some cleaning
          else current_stage in
        if maybe_stage_is (some next_stage) expected_result_stage
        then none
        else some invalid_cleanup_transition)
    else some invalid_status_transition

abbrev recovery_results : OperationStatus → Bool
recovery_results OperationStatus.succeeded = true
recovery_results OperationStatus.failed = true
recovery_results OperationStatus.unknown = true
recovery_results OperationStatus.cleanup_required = true
recovery_results _ = false

from_recovery :
    OperationKind
    → Option OperationStage
    → OperationStatus
    → OperationStage
    → Option InvalidStateTransition
unfolding recovery_stage_by_kind
from_recovery kind current_stage next_status next_stage =
    let expected_stage = recovery_stage_by_kind kind in
    if is_none expected_stage
      || not (maybe_stage_is current_stage expected_stage)
      || not (maybe_stage_is (some next_stage) current_stage)
      || not (recovery_results next_status)
    then some invalid_recovery
    else none

-- What is left: the current status is `unknown` or `cleanup_required`.
from_stopped :
    Option OperationStage → OperationStatus → OperationStage → Option InvalidStateTransition
from_stopped current_stage next_status next_stage =
    if status_is next_status OperationStatus.unknown || status_is next_status OperationStatus.failed
    then (if maybe_stage_is (some next_stage) current_stage
        then none
        else some failure_must_preserve_stage)
    else some invalid_status_transition

-- The `if` and `elif` chain over the current status, with the error that it raises.
transition_error :
    OperationKind
    → OperationStatus
    → Option OperationStage
    → OperationStatus
    → OperationStage
    → Option InvalidStateTransition
unfolding terminal_operation_statuses from_accepted from_processing from_recovery from_stopped
transition_error kind current_status current_stage next_status next_stage =
    if terminal_operation_statuses current_status
    then some terminal_operation
    else if status_is current_status OperationStatus.accepted
    then from_accepted kind current_stage next_status next_stage
    else if status_is current_status OperationStatus.processing
    then from_processing kind current_stage next_status next_stage
    else if status_is current_status OperationStatus.recovery_active
    then from_recovery kind current_stage next_status next_stage
    else from_stopped current_stage next_status next_stage

unfoldable pub transition_operation :
    OperationKind
    → OperationStatus
    → Option OperationStage
    → OperationStatus
    → OperationStage
    → Result InvalidStateTransition OperationState
unfolding transition_error
transition_operation kind current_status current_stage next_status next_stage =
    elim (transition_error kind current_status current_stage next_status next_stage) [
      | none ↦ ok (record { status = next_status; stage = some next_stage })
      | some e ↦ err e
    ]

allowed_resource_edges : ResourceLifecycle → ResourceLifecycle → Bool
allowed_resource_edges candidate applied = true
allowed_resource_edges candidate ResourceLifecycle.cleanup_required = true
allowed_resource_edges applied old = true
allowed_resource_edges applied ResourceLifecycle.cleanup_required = true
allowed_resource_edges applied released = true
allowed_resource_edges old ResourceLifecycle.cleanup_required = true
allowed_resource_edges old deleted = true
allowed_resource_edges ResourceLifecycle.cleanup_required deleted = true
allowed_resource_edges _ _ = false

unfoldable pub transition_resource :
    ResourceLifecycle → ResourceLifecycle → Result InvalidStateTransition ResourceLifecycle
unfolding allowed_resource_edges
transition_resource current next_lifecycle =
    if allowed_resource_edges current next_lifecycle
    then ok next_lifecycle
    else err invalid_lifecycle_transition
