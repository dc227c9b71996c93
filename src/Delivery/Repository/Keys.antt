-- ===== src/Delivery/Repository/Keys.antt =====
-- Primary keys ascend in the order of the rows, so that a key names one row.
use line_message_playground.Prelude.{
  ℕ, suc, ◌+◌, ◌≤◌, ◌<◌, ◌≡◌, refl, Bool, false, ◌&&◌, some, List, [], ◌∷◌, ◌++◌, ◌==◌,
  if◌then◌else◌, inl, inr, Bool-cases, arith,
}
use line_message_playground.Prelude.Rows.{first, exists, count_where, update_where}
use line_message_playground.Delivery.Store.{Attempt, AttemptDb}
use line_message_playground.Delivery.Row.{has_pk}

-- The keys ascend from `n` on, and stay below `m`.
abbrev pub Ascending : ℕ → ℕ → List Attempt → Type 0
Ascending n m [] = n ≤ m
Ascending n m (a ∷ rows) = (n ≤ a.pk) × Ascending (suc a.pk) m rows

-- The first key is 1, and the next one is above all.
abbrev pub Keyed : AttemptDb → Type 0
Keyed db = Ascending 1 db.next_pk db.rows

first-pk_bound :
    (p : Attempt → Bool) (n m : ℕ) (rows : List Attempt) (a : Attempt)
    → Ascending n m rows
    → first p rows ≡ some a
    → n ≤ a.pk
first-pk_bound p n m [] a k h = cc
first-pk_bound p n m (r ∷ rows) a k h = ground (arith, first-pk_bound p (suc r.pk) m rows a)

-- The row that any query finds is the row of its key.
pub first-has_pk :
    (p : Attempt → Bool) (n m : ℕ) (rows : List Attempt) (a : Attempt)
    → Ascending n m rows
    → first p rows ≡ some a
    → first (has_pk a.pk) rows ≡ some a
first-has_pk p n m [] a k h = cc
first-has_pk p n m (r ∷ rows) a k h =
    ground (arith, first-pk_bound p (suc r.pk) m rows a, first-has_pk p (suc r.pk) m rows a)

count-below :
    (q : Attempt → Bool) (k n m : ℕ) (rows : List Attempt)
    → Ascending n m rows
    → k < n
    → count_where (λ b. b.pk == k && q b) rows ≡ 0
count-below q k n m [] h l = refl
count-below q k n m (r ∷ rows) h l = ground (arith, count-below q k (suc r.pk) m rows)

-- How many rows of one key pass a test.
pub count-has_pk :
    (q : Attempt → Bool) (k n m : ℕ) (rows : List Attempt) (a : Attempt)
    → Ascending n m rows
    → first (has_pk k) rows ≡ some a
    → count_where (λ b. b.pk == k && q b) rows ≡ (if q a then 1 else 0)
count-has_pk q k n m [] a h f = cc
count-has_pk q k n m (r ∷ rows) a h f =
    ground (arith, count-has_pk q k (suc r.pk) m rows a, count-below q k (suc r.pk) m rows)

exists-below :
    (q : Attempt → Bool) (k n m : ℕ) (rows : List Attempt)
    → Ascending n m rows
    → k < n
    → exists (λ b. b.pk == k && q b) rows ≡ false
exists-below q k n m [] h l = refl
exists-below q k n m (r ∷ rows) h l = ground (arith, exists-below q k (suc r.pk) m rows)

pub exists-has_pk :
    (q : Attempt → Bool) (k n m : ℕ) (rows : List Attempt) (a : Attempt)
    → Ascending n m rows
    → first (has_pk k) rows ≡ some a
    → exists (λ b. b.pk == k && q b) rows ≡ q a
exists-has_pk q k n m [] a h f = cc
exists-has_pk q k n m (r ∷ rows) a h f =
    ground (arith, exists-has_pk q k (suc r.pk) m rows a, exists-below q k (suc r.pk) m rows)

kept-pk :
    (test : Attempt → Bool) (f : Attempt → Attempt) (r : Attempt)
    → (f r).pk ≡ r.pk
    → (if test r then f r else r).pk ≡ r.pk
kept-pk test f r e = elim (Bool-cases (test r)) [ inl h ↦ rw h e | inr h ↦ rw h ]

-- An update that leaves the keys alone keeps them ascending.
pub Ascending-update_where :
    (test : Attempt → Bool) (f : Attempt → Attempt) (n m : ℕ) (rows : List Attempt)
    → ((a : Attempt) → (f a).pk ≡ a.pk)
    → Ascending n m rows
    → Ascending n m (update_where test f rows)
Ascending-update_where test f n m [] e h = h
Ascending-update_where test f n m (r ∷ rows) e h =
    rw (kept-pk test f r (e r)) (h.0, Ascending-update_where test f (suc r.pk) m rows e h.1)

pub Ascending-append :
    (n m : ℕ) (rows : List Attempt) (a : Attempt)
    → Ascending n m rows
    → a.pk ≡ m
    → Ascending n (m + 1) (rows ++ a ∷ [])
Ascending-append n m [] a h e = omega arith
Ascending-append n m (r ∷ rows) a h e = (h.0, Ascending-append (suc r.pk) m rows a h.1 e)
