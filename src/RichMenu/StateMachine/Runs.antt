-- ===== src/RichMenu/StateMachine/Runs.antt =====
-- Runs of an operation: sequences of transitions that `transition_operation` accepts.
use line_message_playground.Prelude.{
  ℕ, ◌+◌, ◌≤◌, ◌<◌, ◌≡◌, refl, ◌⊎◌, inl, inr, Option, none, some, Result, ok, err, List, [], ◌∷◌,
  arith,
}
use line_message_playground.RichMenu.StateMachine.{
  OperationKind, apply, unlink, release, recheck, cleanup, OperationStatus, accepted, processing,
  failed, unknown, recovery_active, succeeded, OperationStage, creating, uploading, setting_default,
  verifying, clearing_default, cleaning, local_release, OperationState, InvalidStateTransition,
  transition_operation,
}
use line_message_playground.RichMenu.StateMachine.Graph.{
  Edge, begin, recover, advance, finish, recovered, give_up, Edge-of_ok, ok-of_Edge, begin_apply,
  upload, by_recheck, stopped_unknown, again_unknown, finally_failed, stopped_cleanup, not_created,
  applied, unlinked, released, result_succeeded,
}

-- Requests are applied in turn, each to the state that the one before left.
unfoldable pub run :
    OperationKind
    → OperationState
    → List (OperationStatus × OperationStage)
    → Result InvalidStateTransition OperationState
run k st [] = ok st
run k st ((s', t) ∷ rest) = elim (transition_operation k st.status st.stage s' t) [
  | ok st' ↦ run k st' rest
  | err e ↦ err e
]

abbrev pub initial : OperationState
initial = record { status = accepted; stage = none }

-- How far a status and stage are along; every status that external work ends in is past all stages.
abbrev pub stage_rank : Option OperationStage → ℕ
stage_rank none = 0
stage_rank (some creating) = 1
stage_rank (some uploading) = 2
stage_rank (some setting_default) = 3
stage_rank (some clearing_default) = 3
stage_rank (some verifying) = 4
stage_rank (some cleaning) = 4
stage_rank (some local_release) = 4

abbrev pub rank : OperationStatus → Option OperationStage → ℕ
rank accepted a = 0
rank processing a = stage_rank a
rank recovery_active a = 4
rank OperationStatus.cleanup_required a = 5
rank unknown a = 6
rank failed a = 7
rank succeeded a = 7

-- Progress is made by every transition but the one that confirms an unknown result.
pub rank-Edge :
    (k : OperationKind) (s : OperationStatus) (a : Option OperationStage) (s' : OperationStatus)
    (t : OperationStage)
    → Edge k s a s' t
    → (rank s a < rank s' (some t)) ⊎ ((s ≡ unknown) × (s' ≡ unknown) × (a ≡ some t))
rank-Edge k s a s' t (begin p q r begin_apply) = inl (ground arith)
rank-Edge k s a s' t (begin p q r _) = inl (ground arith)
rank-Edge k s a s' t (recover p q r b) = inl (ground arith)
rank-Edge k s a s' t (advance p q upload) = inl (ground arith)
rank-Edge k s a s' t (advance p q _) = inl (ground arith)
rank-Edge k s a s' t (finish p not_created) = inl (ground arith)
rank-Edge k s a s' t (finish p _) = inl (ground arith)
rank-Edge k s a s' t (recovered p q r result_succeeded) = inl (ground arith)
rank-Edge k s a s' t (recovered p q r _) = inl (ground arith)
rank-Edge k s a s' t (give_up stopped_unknown q again_unknown) = inr (refl, refl, q)
rank-Edge k s a s' t (give_up stopped_unknown q finally_failed) = inl (omega arith)
rank-Edge k s a s' t (give_up stopped_cleanup q again_unknown) = inl (omega arith)
rank-Edge k s a s' t (give_up stopped_cleanup q finally_failed) = inl (omega arith)

-- The state that an operation stops in: no run leads from here to success.
data IsLost : OperationStatus → Type 0 where
  lost_failed : IsLost failed
  lost_unknown : IsLost unknown
  lost_cleanup : IsLost OperationStatus.cleanup_required

-- The first transition of a run is an edge, and the rest is a run from where it leads.
run-cons :
    (k : OperationKind) (s : OperationStatus) (a : Option OperationStage) (s' : OperationStatus)
    (t : OperationStage) (rest : List (OperationStatus × OperationStage)) (st : OperationState)
    → run k (record { status = s; stage = a }) ((s', t) ∷ rest) ≡ ok st
    → Edge k s a s' t × (run k (record { status = s'; stage = some t }) rest ≡ ok st)
unfolding run
run-cons k s a s' t rest st h = go (transition_operation k s a s' t) refl
  where
    go :
        (r : Result InvalidStateTransition OperationState)
        → transition_operation k s a s' t ≡ r
        → Edge k s a s' t × (run k (record { status = s'; stage = some t }) rest ≡ ok st)
    go (err e) q = cc
    go (ok st') q =
        let e : Edge k s a s' t = Edge-of_ok k s a s' t q in
        (e, rw (ok-of_Edge k s a s' t e, run) at h)

IsLost-Edge :
    (k : OperationKind) (s : OperationStatus) (a : Option OperationStage) (s' : OperationStatus)
    (t : OperationStage)
    → Edge k s a s' t
    → IsLost s
    → IsLost s'
IsLost-Edge k s a s' t (begin p q r b) lost_failed = cc
IsLost-Edge k s a s' t (begin p q r b) _ = cc
IsLost-Edge k s a s' t (recover p q r b) lost_failed = cc
IsLost-Edge k s a s' t (recover p q r b) _ = cc
IsLost-Edge k s a s' t (advance p q b) lost_failed = cc
IsLost-Edge k s a s' t (advance p q b) _ = cc
IsLost-Edge k s a s' t (finish p b) lost_failed = cc
IsLost-Edge k s a s' t (finish p b) _ = cc
IsLost-Edge k s a s' t (recovered p q r b) lost_failed = cc
IsLost-Edge k s a s' t (recovered p q r b) _ = cc
IsLost-Edge k s a s' t (give_up _ q again_unknown) l = lost_unknown
IsLost-Edge k s a s' t (give_up _ q finally_failed) l = lost_failed

run-IsLost :
    (k : OperationKind) (s : OperationStatus) (a : Option OperationStage)
    (reqs : List (OperationStatus × OperationStage)) (st : OperationState)
    → IsLost s
    → run k (record { status = s; stage = a }) reqs ≡ ok st
    → IsLost st.status
unfolding run
run-IsLost k s a [] st l h = let e : s ≡ st.status = ground arith in rw (← e) l
run-IsLost k s a ((s', t) ∷ rest) st l h =
    let (e, h') = run-cons k s a s' t rest st h in
    run-IsLost k s' (some t) rest st (IsLost-Edge k s a s' t e l) h'

lost_not_succeeded : (s : OperationStatus) → IsLost s → s ≡ succeeded → ⊥
lost_not_succeeded s lost_failed h = cc
lost_not_succeeded s lost_unknown h = cc
lost_not_succeeded s lost_cleanup h = cc

abbrev pub success_path_processing :
    OperationKind → Option OperationStage → List (OperationStatus × OperationStage)
success_path_processing apply (some creating) =
    (processing, uploading)
    ∷ (processing, setting_default)
    ∷ (processing, verifying)
    ∷ (succeeded, verifying)
    ∷ []
success_path_processing apply (some uploading) =
    (processing, setting_default) ∷ (processing, verifying) ∷ (succeeded, verifying) ∷ []
success_path_processing apply (some setting_default) =
    (processing, verifying) ∷ (succeeded, verifying) ∷ []
success_path_processing unlink (some clearing_default) =
    (processing, verifying) ∷ (succeeded, verifying) ∷ []
success_path_processing k (some t) = (succeeded, t) ∷ []
success_path_processing k none = []

-- What is still to be done, in order, from a state of an operation of some kind.
abbrev pub success_path_accepted : OperationKind → List (OperationStatus × OperationStage)
success_path_accepted apply = (processing, creating) ∷ success_path_processing apply (some creating)
success_path_accepted unlink =
    (processing, clearing_default) ∷ success_path_processing unlink (some clearing_default)
success_path_accepted release =
    (processing, local_release) ∷ success_path_processing release (some local_release)
success_path_accepted recheck = (recovery_active, verifying) ∷ (succeeded, verifying) ∷ []
success_path_accepted cleanup = (recovery_active, cleaning) ∷ (succeeded, cleaning) ∷ []

abbrev pub success_path :
    OperationKind
    → OperationStatus
    → Option OperationStage
    → List (OperationStatus × OperationStage)
success_path k accepted a = success_path_accepted k
success_path k processing a = success_path_processing k a
success_path k recovery_active (some t) = (succeeded, t) ∷ []
success_path k _ a = []

-- An edge leads on along the path to success, or gives success up for good.
on_path :
    (k : OperationKind) (s : OperationStatus) (a : Option OperationStage) (s' : OperationStatus)
    (t : OperationStage)
    → Edge k s a s' t
    → IsLost s' ⊎ (success_path k s a ≡ (s', t) ∷ success_path k s' (some t))
on_path k s a s' t (begin p q r begin_apply) = inr (ground arith)
on_path k s a s' t (begin p q r _) = inr (ground arith)
on_path k s a s' t (recover p q r by_recheck) = inr (ground arith)
on_path k s a s' t (recover p q r _) = inr (ground arith)
on_path k s a s' t (advance p q upload) = inr (ground arith)
on_path k s a s' t (advance p q _) = inr (ground arith)
on_path k s a s' t (finish p applied) = inr (ground arith)
on_path k s a s' t (finish p unlinked) = inr (ground arith)
on_path k s a s' t (finish p released) = inr (ground arith)
on_path k s a s' t (finish p _) = inl (search (lost_failed, lost_unknown, lost_cleanup))
on_path k s a s' t (recovered p q r result_succeeded) = inr (ground arith)
on_path k s a s' t (recovered p q r _) = inl (search (lost_failed, lost_unknown, lost_cleanup))
on_path k s a s' t (give_up p q again_unknown) = inl lost_unknown
on_path k s a s' t (give_up p q finally_failed) = inl lost_failed

run-success_path :
    (k : OperationKind) (s : OperationStatus) (a : Option OperationStage)
    (reqs : List (OperationStatus × OperationStage)) (st : OperationState)
    → run k (record { status = s; stage = a }) reqs ≡ ok st
    → st.status ≡ succeeded
    → reqs ≡ success_path k s a
unfolding run
run-success_path k s a [] st h q = let e : s ≡ succeeded = ground arith in rw e refl
run-success_path k s a ((s', t) ∷ rest) st h q =
    let (e, h') = run-cons k s a s' t rest st h in
    elim (on_path k s a s' t e) [
      | inl l ↦ absurd (lost_not_succeeded st.status (run-IsLost k s' (some t) rest st l h') q)
      | inr p ↦ rw (p, ← run-success_path k s' (some t) rest st h' q)
    ]

-- The stage in which each kind of operation succeeds.
abbrev pub final_stage : OperationKind → OperationStage
final_stage apply = verifying
final_stage unlink = verifying
final_stage release = local_release
final_stage recheck = verifying
final_stage cleanup = cleaning

-- By calls of `transition_operation` alone, an operation gets from its acceptance to success by one
-- sequence of transitions only, the one that goes through every stage of its kind in order, and that
-- sequence does succeed, in the kind's last stage.
pub run_succeeds_exactly :
    (k : OperationKind) (reqs : List (OperationStatus × OperationStage))
    → ((st : OperationState)
        → run k initial reqs ≡ ok st
        → st.status ≡ succeeded
        → reqs ≡ success_path k accepted none)
      × (run k initial (success_path k accepted none)
          ≡ ok (record { status = succeeded; stage = some (final_stage k) }))
unfolding run transition_operation
run_succeeds_exactly apply reqs = (run-success_path apply accepted none reqs, refl)
run_succeeds_exactly unlink reqs = (run-success_path unlink accepted none reqs, refl)
run_succeeds_exactly release reqs = (run-success_path release accepted none reqs, refl)
run_succeeds_exactly recheck reqs = (run-success_path recheck accepted none reqs, refl)
run_succeeds_exactly cleanup reqs = (run-success_path cleanup accepted none reqs, refl)

-- How many transitions made progress.
abbrev is_repeat : OperationStatus → OperationStatus → ℕ
is_repeat unknown unknown = 0
is_repeat _ _ = 1

unfoldable pub progress : OperationStatus → List (OperationStatus × OperationStage) → ℕ
progress s [] = 0
progress s ((s', t) ∷ rest) = is_repeat s s' + progress s' rest

rank-le : (s : OperationStatus) (a : Option OperationStage) → rank s a ≤ 7
rank-le processing none = omega arith
rank-le processing (some creating) = omega arith
rank-le processing (some _) = omega arith
rank-le _ a = omega arith

is_repeat-le : (s s' : OperationStatus) → is_repeat s s' ≤ 1
is_repeat-le s s' = ground arith

progress-Edge :
    (k : OperationKind) (s : OperationStatus) (a : Option OperationStage) (s' : OperationStatus)
    (t : OperationStage)
    → Edge k s a s' t
    → is_repeat s s' + rank s a ≤ rank s' (some t)
progress-Edge k s a s' t e = elim (rank-Edge k s a s' t e) [
  | inl less ↦ omega (arith, is_repeat-le s s')
  | inr (p, q, r) ↦ rw (p, q) (omega arith)
]

-- A run from any state by calls of `transition_operation` alone makes at most seven transitions besides
-- those that confirm an unknown result, and fewer the further along it begins.
pub progress-run :
    (k : OperationKind) (s : OperationStatus) (a : Option OperationStage)
    (reqs : List (OperationStatus × OperationStage)) (st : OperationState)
    → run k (record { status = s; stage = a }) reqs ≡ ok st
    → progress s reqs + rank s a ≤ 7
unfolding progress
progress-run k s a [] st h = omega (arith, rank-le s a)
progress-run k s a ((s', t) ∷ rest) st h =
    let (e, h') = run-cons k s a s' t rest st h in
    omega (arith, progress-Edge k s a s' t e, progress-run k s' (some t) rest st h')
