-- ===== src/TextLab/Limits.antt =====
-- backend/textjudgmentlab/limits.py: how often an owner may start a judgement. Times of the monotonic
-- clock are in microseconds. The mutex makes `acquire`, but for its reading of the clock, and
-- `_release` one step each. A call of `release` on a permit is three steps, since only the middle one
-- holds the mutex: it looks at the permit's flag, frees the owner and sets the flag, and the steps of
-- several calls may come in any order.
pub mod Rate
pub mod Examples
use line_message_playground.Prelude.{
  ℕ, zero, suc, ◌+◌, Bool, true, false, ◌&&◌, not, Option, none, some, List, [], ◌∷◌, ◌++◌, ltb,
  leb, length, if◌then◌else◌,
}
use line_message_playground.Prelude.Text.{Text, text_eq}
use line_message_playground.Prelude.Rows.{nth}

abbrev pub window : ℕ
window = 60000000

abbrev pub max_starts : ℕ
max_starts = 10

pub record OwnerState : Type 0 where
  pub starts : List ℕ
  pub running : Bool

pub record Permit : Type 0 where
  pub owner : Text
  pub released : Bool

pub data LimitResult : Type 0 where
  permitted rejected_concurrent rejected_rate : LimitResult

-- What a call of a permit's `release` that found the flag down does next.
pub data ReleaseStage : Type 0 where
  freeing marking returned : ReleaseStage

-- The states of the owners (an owner that is not there yet has no starts and runs nothing); the calls
-- of `release` under way, each with its permit; and what was handed out: the permits in order, and the
-- clock's reading for each, the latest first.
pub record Lab : Type 0 where
  pub owners : Text → OwnerState
  pub releasing : List (ℕ × ReleaseStage)
  pub permits : List Permit
  pub log : List (Text × ℕ)

-- The loop that drops what started a window or more ago.
abbrev pub prune : ℕ → List ℕ → List ℕ
prune now [] = []
prune now (start ∷ rest) =
    let pruned = prune now rest in if leb (start + window) now then pruned else start ∷ rest

abbrev pub set_owner : Text → OwnerState → (Text → OwnerState) → Text → OwnerState
set_owner owner state owners other = if text_eq owner other then state else owners other

abbrev pub acquire_pruned : Text → ℕ → List ℕ → Lab → LimitResult × Lab
acquire_pruned owner now starts lab =
    if (lab.owners owner).running
    then (
      rejected_concurrent,
      record lab {
        owners = set_owner owner (record { starts = starts; running = true }) lab.owners;
      },
    )
    else if leb max_starts (length starts)
    then (
      rejected_rate,
      record lab {
        owners = set_owner owner (record { starts = starts; running = false }) lab.owners;
      },
    )
    else (
      permitted,
      record lab {
        owners =
            set_owner owner (record { starts = starts ++ (now ∷ []); running = true }) lab.owners;
        permits = lab.permits ++ (record { owner = owner; released = false } ∷ []);
        log = (owner, now) ∷ lab.log;
      },
    )

-- `LabLimits.acquire`. The clock is read before the mutex is held, so that the readings need not come
-- in order.
unfoldable pub acquire : Text → ℕ → Lab → LimitResult × Lab
acquire owner now lab = acquire_pruned owner now (prune now (lab.owners owner).starts) lab

-- `LabLimits._release`
abbrev pub release_owner : Text → (Text → OwnerState) → Text → OwnerState
release_owner owner owners =
    set_owner owner (record { starts = (owners owner).starts; running = false }) owners

abbrev pub mark_permit : ℕ → List Permit → List Permit
mark_permit k [] = []
mark_permit zero (p ∷ rest) = record { owner = p.owner; released = true } ∷ rest
mark_permit (suc k) (p ∷ rest) = p ∷ mark_permit k rest

abbrev pub set_stage : ℕ → ReleaseStage → List (ℕ × ReleaseStage) → List (ℕ × ReleaseStage)
set_stage j stage [] = []
set_stage zero stage ((k, old) ∷ rest) = (k, stage) ∷ rest
set_stage (suc j) stage (x ∷ rest) = x ∷ set_stage j stage rest

abbrev pub release_found : ℕ → Option Permit → Lab → Lab
release_found k none lab = lab
release_found k (some p) lab =
    if p.released then lab else record lab { releasing = lab.releasing ++ ((k, freeing) ∷ []) }

-- `LabLimitPermit.release` of the permit with this number, up to its look at the flag.
unfoldable pub release : ℕ → Lab → Lab
release k lab = release_found k (nth k lab.permits) lab

abbrev pub free_owner : Option Permit → Lab → Lab
free_owner none lab = lab
free_owner (some p) lab = record lab { owners = release_owner p.owner lab.owners }

abbrev pub advance_found : ℕ → Option (ℕ × ReleaseStage) → Lab → Lab
advance_found j none lab = lab
advance_found j (some (k, freeing)) lab =
    free_owner (nth k lab.permits) (record lab { releasing = set_stage j marking lab.releasing })
advance_found j (some (k, marking)) lab = record lab {
  permits = mark_permit k lab.permits;
  releasing = set_stage j returned lab.releasing;
}
advance_found j (some (k, returned)) lab = lab

-- The next step of a call of `release` that is under way: `_release`, and then the flag.
unfoldable pub advance : ℕ → Lab → Lab
advance j lab = advance_found j (nth j lab.releasing) lab

pub data Call : Type 0 where
  acquire_call : Text → ℕ → Call
  release_call : ℕ → Call
  advance_call : ℕ → Call

unfoldable pub run : List Call → Lab → Lab
unfolding acquire release advance
run [] lab = lab
run (acquire_call owner now ∷ calls) lab = run calls (acquire owner now lab).1
run (release_call k ∷ calls) lab = run calls (release k lab)
run (advance_call j ∷ calls) lab = run calls (advance j lab)

abbrev pub new_lab : Lab
new_lab = record {
  owners = λ owner. record { starts = []; running = false };
  releasing = [];
  permits = [];
  log = [];
}
