-- ===== src/Delivery/Fingerprint/Hex.antt =====
-- The hexadecimal and decimal texts determine their numbers.
use line_message_playground.Prelude.{
  ℕ, zero, suc, ◌/◌, ◌%◌, ◌^◌, ◌<◌, List, ◌∷◌, ◌++◌, ◌≡◌, refl, sym, ap, ◌∙◌, arith,
}
use native.Mathlib.Nat.{div-div-eq-div-mul, pow-suc}
use line_message_playground.Prelude.Text.{Text}
use line_message_playground.Delivery.Types.{Uuid}
use line_message_playground.Delivery.Fingerprint.{hex_char, hex_text, uuid_text}

pub head_equal {ℓ} : {A : Type ℓ} (x y : A) (xs ys : List A) → (x ∷ xs) ≡ (y ∷ ys) → x ≡ y
head_equal x y xs ys h = cc

pub tail_equal {ℓ} : {A : Type ℓ} (x y : A) (xs ys : List A) → (x ∷ xs) ≡ (y ∷ ys) → xs ≡ ys
tail_equal x y xs ys h = cc

hex_char-injective : (d e : ℕ) → d < 16 → e < 16 → hex_char d ≡ hex_char e → d ≡ e
unfolding hex_char
hex_char-injective d e hd he h = ground arith

div-pow_suc : (n k : ℕ) → n / 16 ^ suc k ≡ n / 16 ^ k / 16
div-pow_suc n k = ap (λ d. n / d) (pow-suc 16 k) ∙ sym (div-div-eq-div-mul n (16 ^ k) 16)

-- Two numbers that agree above their last digits and in their last digits are equal.
pub hex_text-injective : (k n m : ℕ) → hex_text k n ≡ hex_text k m → n / 16 ^ k ≡ m / 16 ^ k → n ≡ m
unfolding hex_text
hex_text-injective zero n m h d = omega (arith, d)
hex_text-injective (suc k) n m h d =
    let x = n / 16 ^ k in
    let y = m / 16 ^ k in
    hex_text-injective k n m
      (tail_equal (hex_char (x % 16)) (hex_char (y % 16)) (hex_text k n) (hex_text k m) h)
      (digits_equal x y (sym (div-pow_suc n k) ∙ d ∙ div-pow_suc m k) (
        hex_char-injective (x % 16) (y % 16) (omega arith) (omega arith)
          (head_equal (hex_char (x % 16)) (hex_char (y % 16)) (hex_text k n) (hex_text k m) h)))
  where
    digits_equal : (x y : ℕ) → x / 16 ≡ y / 16 → x % 16 ≡ y % 16 → x ≡ y
    digits_equal x y p q = omega (arith, p, q)

-- Two texts of the same number of digits with what follows them.
hex_text-append :
    (k n m : ℕ) (s t : Text)
    → hex_text k n ++ s ≡ hex_text k m ++ t
    → (hex_text k n ≡ hex_text k m) × (s ≡ t)
unfolding hex_text
hex_text-append zero n m s t h = (refl, h)
hex_text-append (suc k) n m s t h =
    let a = hex_char (n / 16 ^ k % 16) in
    let b = hex_char (m / 16 ^ k % 16) in
    let (p, q) =
      hex_text-append k n m s t (tail_equal a b (hex_text k n ++ s) (hex_text k m ++ t) h) in
    (cc (p, head_equal a b (hex_text k n ++ s) (hex_text k m ++ t) h), q)

-- A group of a UUID's digits, with the dash and what follows.
group :
    (k n m : ℕ) (s t : Text)
    → hex_text k n ++ (45 ∷ s) ≡ hex_text k m ++ (45 ∷ t)
    → (hex_text k n ≡ hex_text k m) × (s ≡ t)
group k n m s t h =
    let (p, q) = hex_text-append k n m (45 ∷ s) (45 ∷ t) h in (p, tail_equal 45 45 s t q)

-- UUIDs, as numbers below 2 ^ 128.
pub uuid_text-injective :
    (n m : Uuid) → n < 16 ^ 32 → m < 16 ^ 32 → uuid_text n ≡ uuid_text m → n ≡ m
unfolding uuid_text
uuid_text-injective n m hn hm h =
    let (p, h1) = group 8 (n / 16 ^ 24) (m / 16 ^ 24) _ _ h in
    let (q, h2) = group 4 (n / 16 ^ 20) (m / 16 ^ 20) _ _ h1 in
    let (r, h3) = group 4 (n / 16 ^ 16) (m / 16 ^ 16) _ _ h2 in
    let (u, v) = group 4 (n / 16 ^ 12) (m / 16 ^ 12) _ _ h3 in
    let a = hex_text-injective 8 (n / 16 ^ 24) (m / 16 ^ 24) p (omega (arith, hn, hm)) in
    let b = hex_text-injective 4 (n / 16 ^ 20) (m / 16 ^ 20) q (omega (arith, a)) in
    let c = hex_text-injective 4 (n / 16 ^ 16) (m / 16 ^ 16) r (omega (arith, b)) in
    let d = hex_text-injective 4 (n / 16 ^ 12) (m / 16 ^ 12) u (omega (arith, c)) in
    hex_text-injective 12 n m v (omega (arith, d))

-- SHA-256 digests, as numbers below 2 ^ 256.
pub digest_text-injective :
    (n m : ℕ) → n < 16 ^ 64 → m < 16 ^ 64 → hex_text 64 n ≡ hex_text 64 m → n ≡ m
digest_text-injective n m hn hm h = hex_text-injective 64 n m h (omega (arith, hn, hm))
