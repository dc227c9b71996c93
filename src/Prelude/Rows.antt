-- ===== src/Prelude/Rows.antt =====
-- Rows of a table: a query by a test, and an update of the rows that pass it.
use Prim.Native.Nat.{ℕ, zero, suc, ◌+◌}
use mathlib.Core.Path.{◌≡◌, refl, subst, ap}
use mathlib.Core.Bool.{Bool, true, false, ◌||◌, ◌&&◌}
use mathlib.Core.Option.{Option, none, some}
use mathlib.Core.List.{List, [], ◌∷◌, ◌++◌}
use native.Mathlib.Omega.{arith}
use line_message_playground.Prelude.Tests.{if◌then◌else◌}

module _ {ℓ} {A : Type ℓ} where
  -- `filter(...).first()`
  abbrev pub first : (A → Bool) → List A → Option A
  first test [] = none
  first test (r ∷ rs) = if test r then some r else first test rs

  abbrev pub exists : (A → Bool) → List A → Bool
  exists test [] = false
  exists test (r ∷ rs) = test r || exists test rs

  abbrev pub all : (A → Bool) → List A → Bool
  all test [] = true
  all test (r ∷ rs) = test r && all test rs

  -- How many rows an update matches.
  abbrev pub count_where : (A → Bool) → List A → ℕ
  count_where test [] = 0
  count_where test (r ∷ rs) = let n = count_where test rs in if test r then suc n else n

  -- `filter(...).update(...)`
  abbrev pub update_where : (A → Bool) → (A → A) → List A → List A
  update_where test f [] = []
  update_where test f (r ∷ rs) = (if test r then f r else r) ∷ update_where test f rs

module _ {ℓ} {A : Type ℓ} (test : A → Bool) (f : A → A) where
  -- What a query finds after an update, if the update leaves the queried columns alone.
  pub first-update_where :
      (p : A → Bool) (rs : List A)
      → ((r : A) → p (f r) ≡ p r)
      → first p (update_where test f rs)
        ≡ elim (first p rs) [ none ↦ none | some r ↦ some (if test r then f r else r) ]
  first-update_where p [] h = refl
  first-update_where p (r ∷ rs) h = ground (arith, h r, first-update_where p rs h)

  pub all-update_where :
      (p : A → Bool) (rs : List A)
      → ((r : A) → test r ≡ true → p r ≡ true → p (f r) ≡ true)
      → all p rs ≡ true
      → all p (update_where test f rs) ≡ true
  all-update_where p [] h q = refl
  all-update_where p (r ∷ rs) h q = ground (arith, h r, all-update_where p rs h)

  -- No row passes the test, so nothing changes.
  pub update_where-none : (rs : List A) → exists test rs ≡ false → update_where test f rs ≡ rs
  update_where-none [] h = refl
  update_where-none (r ∷ rs) h = ground (arith, update_where-none rs)

module _ {ℓ} {A : Type ℓ} (p : A → Bool) where
  pub first-all :
      (q : A → Bool) (rs : List A) (r : A) → first p rs ≡ some r → all q rs ≡ true → q r ≡ true
  first-all q [] r h a = cc
  first-all q (s ∷ rs) r h a = ground (arith, first-all q rs r)

  pub first-passes : (rs : List A) (r : A) → first p rs ≡ some r → p r ≡ true
  first-passes [] r h = cc
  first-passes (s ∷ rs) r h = ground (arith, first-passes rs r)

  pub first-append_none :
      (rs : List A) (r : A)
      → first p rs ≡ none
      → first p (rs ++ r ∷ []) ≡ (if p r then some r else none)
  first-append_none [] r h = refl
  first-append_none (s ∷ rs) r h = ground (arith, first-append_none rs r)

  pub first-append_some :
      (rs : List A) (r s : A) → first p rs ≡ some s → first p (rs ++ r ∷ []) ≡ some s
  first-append_some [] r s h = cc
  first-append_some (t ∷ rs) r s h = ground (arith, first-append_some rs r s)

  pub all-append :
      (rs : List A) (r : A) → all p rs ≡ true → p r ≡ true → all p (rs ++ r ∷ []) ≡ true
  all-append [] r h q = ground arith
  all-append (s ∷ rs) r h q = ground (arith, all-append rs r)

  pub exists-first : (rs : List A) → first p rs ≡ none → exists p rs ≡ false
  exists-first [] h = refl
  exists-first (r ∷ rs) h = ground (arith, exists-first rs)

abbrev pub nth {ℓ} : {A : Type ℓ} → ℕ → List A → Option A
nth k [] = none
nth zero (x ∷ rest) = some x
nth (suc k) (x ∷ rest) = nth k rest

abbrev pub set_nth {ℓ} : {A : Type ℓ} → ℕ → A → List A → List A
set_nth k y [] = []
set_nth zero y (x ∷ rest) = y ∷ rest
set_nth (suc k) y (x ∷ rest) = x ∷ set_nth k y rest

pub count-set_nth {ℓ} :
    {A : Type ℓ} (p : A → Bool) (k : ℕ) (x y : A) (xs : List A)
    → nth k xs ≡ some x
    → count_where p (set_nth k y xs) + (if p x then 1 else 0)
      ≡ count_where p xs + (if p y then 1 else 0)
count-set_nth p k x y [] h = cc
count-set_nth p zero x y (z ∷ rest) h =
    subst
      (λ v.
        (count_where p (y ∷ rest)) + (if p v then 1 else 0)
        ≡ count_where p (z ∷ rest) + (if p y then 1 else 0))
      (same h) (ground arith)
  where
    same : some z ≡ some x → z ≡ x
    same e = ap (λ o. elim o [ none ↦ z | some v ↦ v ]) e
count-set_nth p (suc k) x y (z ∷ rest) h = ground (arith, count-set_nth p k x y rest h)
