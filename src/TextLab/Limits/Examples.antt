-- ===== src/TextLab/Limits/Examples.antt =====
-- Runs of the limits at concrete inputs.
use line_message_playground.Prelude.{
  ℕ, suc, ◌*◌, ◌≤◌, ◌≡◌, refl, Bool, ◌&&◌, leb, List, [], ◌∷◌, ◌++◌, arith,
}
use line_message_playground.Prelude.Text.{Text, codes}
use line_message_playground.Prelude.Rows.{count_where}
use line_message_playground.TextLab.Limits.{
  permitted, rejected_concurrent, rejected_rate, acquire, release, advance, Call, acquire_call,
  release_call, advance_call, run, new_lab, max_starts,
}
use line_message_playground.TextLab.Limits.Rate.{is_recent, is_recent_of, run_rate}

abbrev anna : Text
anna = codes "anna"

-- A start and the whole of its release: the `n`-th permit, in the `n`-th call of `release`.
abbrev turn : ℕ → ℕ → List Call
turn n now = acquire_call anna now ∷ release_call n ∷ advance_call n ∷ advance_call n ∷ []

-- One after another, at these readings of the clock.
abbrev turns : ℕ → List ℕ → List Call
turns n [] = []
turns n (now ∷ rest) = turn n now ++ turns (suc n) rest

abbrev ten_turns : List Call
ten_turns = turns 0 (1 ∷ 2 ∷ 3 ∷ 4 ∷ 5 ∷ 6 ∷ 7 ∷ 8 ∷ 9 ∷ 10 ∷ [])

eleventh : (acquire anna 11 (run ten_turns new_lab)).0 ≡ rejected_rate
unfolding acquire run release advance
eleventh = refl

after_a_minute : (acquire anna 60000001 (run ten_turns new_lab)).0 ≡ permitted
unfolding acquire run release advance
after_a_minute = refl

at_once : (acquire anna 2 (acquire anna 1 new_lab).1).0 ≡ rejected_concurrent
unfolding acquire
at_once = refl

abbrev seconds : List ℕ → List ℕ
seconds [] = []
seconds (n ∷ rest) = n * 1000000 ∷ seconds rest

-- In the sixty seconds up to a time.
abbrev within : ℕ → Text × ℕ → Bool
within t (o, start) = leb start t && is_recent t start

-- Readings that enter late: ten starts, one that drops them all, and nine that had read the clock before
-- it. Eleven starts lie in the sixty seconds up to 68.
eleven_in_a_minute :
    count_where
      (within 68000000)
      (run
        (turns 0 (
          seconds (1 ∷ 2 ∷ 3 ∷ 4 ∷ 5 ∷ 6 ∷ 7 ∷ 8 ∷ 9 ∷ 10 ∷ [])
          ++ (70500000 ∷ seconds (60 ∷ 61 ∷ 62 ∷ 63 ∷ 64 ∷ 65 ∷ 66 ∷ 67 ∷ 68 ∷ []))))
        new_lab).log
    ≡ 11
unfolding acquire run release advance
eleven_in_a_minute = refl

-- Two calls of `release` on the first permit both see the flag down. The second frees the owner while
-- the second permit runs, so that a third one is handed out.
abbrev racing_releases : List Call
racing_releases =
    acquire_call anna 1
    ∷ release_call 0
    ∷ release_call 0
    ∷ advance_call 0
    ∷ acquire_call anna 2
    ∷ advance_call 1
    ∷ []

two_at_once : (acquire anna 3 (run racing_releases new_lab)).0 ≡ permitted
unfolding acquire run release advance
two_at_once = refl

run_rate_example :
    count_where (is_recent_of anna 20) (run (turns 0 (2 ∷ 1 ∷ [])) new_lab).log ≤ max_starts
run_rate_example = run_rate anna (turns 0 (2 ∷ 1 ∷ [])) 20 (omega arith)
