-- ===== src/TextLab/Limits/Rate.antt =====
-- What any calls of the limits leave.
use line_message_playground.Prelude.{
  ℕ, ◌+◌, ◌≤◌, Bool, true, false, ◌&&◌, Option, none, some, List, [], ◌∷◌, ◌++◌, ltb, leb, length,
  length-append, if◌then◌else◌, ◌≡◌, refl, sym, subst, Bool-cases, by_test, inl, inr, arith,
}
use line_message_playground.Prelude.Text.{Text, text_eq, text_eq_refl, text_eq_iff}
use line_message_playground.Prelude.Rows.{count_where, nth}
use line_message_playground.TextLab.Limits.{
  window, max_starts, OwnerState, Permit, Lab, LimitResult, ReleaseStage, freeing, marking,
  returned, set_stage, prune, acquire, release_found, release, free_owner, advance_found, advance,
  Call, acquire_call, release_call, advance_call, run, new_lab,
}

-- Less than a window before the time.
abbrev pub is_recent : ℕ → ℕ → Bool
is_recent t start = ltb t (start + window)

abbrev pub is_recent_of : Text → ℕ → Text × ℕ → Bool
is_recent_of owner t (o, start) = text_eq o owner && is_recent t start

abbrev bit : Bool → ℕ
bit b = if b then 1 else 0

prune-count :
    (now t : ℕ) (starts : List ℕ)
    → now ≤ t
    → count_where (is_recent t) (prune now starts) ≡ count_where (is_recent t) starts
prune-count now t [] h = refl
prune-count now t (s ∷ rest) h = ground (arith, prune-count now t rest h)

prune-length : (now : ℕ) (starts : List ℕ) → length (prune now starts) ≤ length starts
prune-length now [] = omega arith
prune-length now (s ∷ rest) = ground (arith, prune-length now rest)

count-append :
    (t now : ℕ) (starts : List ℕ)
    → count_where (is_recent t) (starts ++ (now ∷ []))
      ≡ count_where (is_recent t) starts + bit (is_recent t now)
count-append t now [] = ground arith
count-append t now (s ∷ rest) = ground (arith, count-append t now rest)

count-length : (t : ℕ) (starts : List ℕ) → count_where (is_recent t) starts ≤ length starts
count-length t [] = omega arith
count-length t (s ∷ rest) = ground (arith, count-length t rest)

module _ (owner : Text) where
  -- What holds of the owner at all times from now on.
  record IsLimited (now : ℕ) (log : List (Text × ℕ)) (state : OwnerState) : Type 0 where
    pub rate :
        (t : ℕ)
        → now ≤ t
        → count_where (is_recent_of owner t) log ≤ count_where (is_recent t) state.starts
    pub size : length state.starts ≤ max_starts

  abbrev OwnerLimited : ℕ → Lab → Type 0
  OwnerLimited now lab = IsLimited now lab.log (lab.owners owner)

  pruned-IsLimited :
      (now before after : ℕ) (b : Bool) (log : List (Text × ℕ)) (state : OwnerState)
      → before ≤ after
      → now ≤ after
      → IsLimited before log state
      → IsLimited after log (record { starts = prune now state.starts; running = b })
  pruned-IsLimited now before after b log state l m h = record {
    rate = λ t k. omega (
      arith,
      h.rate t (omega (arith, l, k)),
      prune-count now t state.starts (omega (arith, m, k)),
    );
    size = omega (arith, h.size, prune-length now state.starts);
  }

  started-IsLimited :
      (now after : ℕ) (log : List (Text × ℕ)) (starts : List ℕ)
      → leb max_starts (length starts) ≡ false
      → IsLimited after log (record { starts = starts; running = false })
      → IsLimited after
          ((owner, now) ∷ log)
          (record { starts = starts ++ (now ∷ []); running = true })
  started-IsLimited now after log starts f h = record {
    rate = λ t k. rw (text_eq_refl owner, count-append t now starts) (ground (arith, h.rate t k));
    size = rw (length-append starts (now ∷ [])) (ground arith);
  }

  abbrev AnswerLimited : ℕ → LimitResult × Lab → Type 0
  AnswerLimited now (r, lab) = OwnerLimited now lab

  acquire-own :
      (now before after : ℕ) (lab : Lab)
      → before ≤ after
      → now ≤ after
      → OwnerLimited before lab
      → OwnerLimited after (acquire owner now lab).1
  unfolding acquire
  acquire-own now before after lab l m h =
      let state = lab.owners owner in
      let starts = prune now state.starts in
      by_test (AnswerLimited after) state.running _ _
        (λ e. rw (text_eq_refl owner) (pruned-IsLimited now before after true lab.log state l m h))
        (λ e.
          by_test (AnswerLimited after) (leb max_starts (length starts)) _ _
            (λ f.
              rw (text_eq_refl owner) (pruned-IsLimited now before after false lab.log state l m h))
            (λ f. rw (text_eq_refl owner) (
              started-IsLimited now after lab.log starts f
                (pruned-IsLimited now before after false lab.log state l m h))))

  other-IsLimited :
      (before after : ℕ) (log : List (Text × ℕ)) (state : OwnerState)
      → before ≤ after
      → IsLimited before log state
      → IsLimited after log state
  other-IsLimited before after log state l h = record {
    rate = λ t k. h.rate t (omega (arith, l, k));
    size = h.size;
  }

  started-other :
      (other : Text) (now after : ℕ) (log : List (Text × ℕ)) (state : OwnerState)
      → text_eq other owner ≡ false
      → IsLimited after log state
      → IsLimited after ((other, now) ∷ log) state
  started-other other now after log state e h = record {
    rate = λ t k. rw e (h.rate t k);
    size = h.size;
  }

  acquire-other :
      (other : Text) (now before after : ℕ) (lab : Lab)
      → text_eq other owner ≡ false
      → before ≤ after
      → OwnerLimited before lab
      → OwnerLimited after (acquire other now lab).1
  unfolding acquire
  acquire-other other now before after lab n l h =
      let state = lab.owners owner in
      let same = other-IsLimited before after lab.log state l h in
      by_test (AnswerLimited after) (lab.owners other).running _ _ (λ e. rw n same)
        (λ e.
          by_test (AnswerLimited after)
            (leb max_starts (length (prune now (lab.owners other).starts))) _ _ (λ f. rw n same)
            (λ f. rw n (started-other other now after lab.log state n same)))

  acquire-limits :
      (other : Text) (now before after : ℕ) (lab : Lab)
      → before ≤ after
      → now ≤ after
      → OwnerLimited before lab
      → OwnerLimited after (acquire other now lab).1
  acquire-limits other now before after lab l m h = elim (Bool-cases (text_eq other owner)) [
    | inl e ↦
        subst (λ o. OwnerLimited after (acquire o now lab).1) (sym ((text_eq_iff other owner).0 e))
          (acquire-own now before after lab l m h)
    | inr e ↦ acquire-other other now before after lab e l h
  ]

  release_found-limits :
      (now k : ℕ) (o : Option Permit) (lab : Lab)
      → OwnerLimited now lab
      → OwnerLimited now (release_found k o lab)
  release_found-limits now k none lab h = h
  release_found-limits now k (some p) lab h =
      by_test (OwnerLimited now) p.released _ _ (λ e. h)
        (λ e. record { rate = h.rate; size = h.size })

  free_owner-limits :
      (now : ℕ) (o : Option Permit) (lab : Lab)
      → OwnerLimited now lab
      → OwnerLimited now (free_owner o lab)
  free_owner-limits now none lab h = h
  free_owner-limits now (some p) lab h = elim (Bool-cases (text_eq p.owner owner)) [
    | inl e ↦ rw (e, (text_eq_iff p.owner owner).0 e) (record { rate = h.rate; size = h.size })
    | inr e ↦ rw e h
  ]

  advance_found-limits :
      (now j : ℕ) (o : Option (ℕ × ReleaseStage)) (lab : Lab)
      → OwnerLimited now lab
      → OwnerLimited now (advance_found j o lab)
  advance_found-limits now j none lab h = h
  advance_found-limits now j (some (k, freeing)) lab h =
      free_owner-limits now (nth k lab.permits)
        (record lab { releasing = set_stage j marking lab.releasing }) h
  advance_found-limits now j (some (k, marking)) lab h = h
  advance_found-limits now j (some (k, returned)) lab h = h

-- The latest reading of the clock, from one on.
abbrev pub latest : ℕ → List Call → ℕ
latest before [] = before
latest before (acquire_call owner now ∷ calls) =
    latest (if leb before now then now else before) calls
latest before (release_call k ∷ calls) = latest before calls
latest before (advance_call j ∷ calls) = latest before calls

run-limits :
    (owner : Text) (before : ℕ) (calls : List Call) (lab : Lab)
    → OwnerLimited owner before lab
    → OwnerLimited owner (latest before calls) (run calls lab)
unfolding run release advance
run-limits owner before [] lab h = h
run-limits owner before (acquire_call o now ∷ calls) lab h =
    let after = if leb before now then now else before in
    run-limits owner after calls (acquire o now lab).1
      (acquire-limits owner o now before after lab (ground arith) (ground arith) h)
run-limits owner before (release_call k ∷ calls) lab h =
    run-limits owner before calls (release k lab)
      (release_found-limits owner before k (nth k lab.permits) lab h)
run-limits owner before (advance_call j ∷ calls) lab h =
    run-limits owner before calls (advance j lab)
      (advance_found-limits owner before j (nth j lab.releasing) lab h)

new_lab-limits : (owner : Text) → OwnerLimited owner 0 new_lab
new_lab-limits owner = record { rate = λ t k. omega arith; size = omega arith }

-- Over any calls of any owners from an empty state, entering the mutex in any order whatever the clock
-- had shown them, and with the steps of their releases in any order: of the starts that an owner was
-- permitted, at most ten have a reading within the sixty seconds before any time that is no earlier
-- than all readings so far.
pub run_rate :
    (owner : Text) (calls : List Call) (t : ℕ)
    → latest 0 calls ≤ t
    → count_where (is_recent_of owner t) (run calls new_lab).log ≤ max_starts
run_rate owner calls t l =
    let lab = run calls new_lab in
    let h = run-limits owner 0 calls new_lab (new_lab-limits owner) in
    omega (arith, h.rate t l, count-length t (lab.owners owner).starts, h.size)
