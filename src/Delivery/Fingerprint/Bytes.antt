-- ===== src/Delivery/Fingerprint/Bytes.antt =====
-- Texts in ASCII: their bytes, their lengths, and the decimal text read back.
use line_message_playground.Prelude.{
  ℕ, zero, suc, ◌+◌, ◌-◌, ◌*◌, ◌/◌, ◌%◌, ◌^◌, ◌≤◌, ◌<◌, Bool, true, [], ◌∷◌, ◌++◌, length,
  length-append, ltb, ◌≡◌, refl, sym, ap, ◌∙◌, arith, inl, inr, Bool-cases,
}
use line_message_playground.Prelude.Text.{Text}
use line_message_playground.Prelude.Rows.{all}
use line_message_playground.Delivery.Types.{Uuid}
use line_message_playground.Delivery.Fingerprint.{
  hex_char, hex_text, uuid_text, decimal_from, decimal, utf8,
}

abbrev pub is_ascii : ℕ → Bool
is_ascii c = ltb c 128

pub utf8-ascii : (s : Text) → all is_ascii s ≡ true → utf8 s ≡ s
unfolding utf8
utf8-ascii [] h = refl
utf8-ascii (c ∷ s) h = rw (utf8-ascii s (ground arith)) (ground arith)

append-ascii :
    (s t : Text) → all is_ascii s ≡ true → all is_ascii t ≡ true → all is_ascii (s ++ t) ≡ true
append-ascii [] t h k = k
append-ascii (c ∷ s) t h k = ground (arith, append-ascii s t)

hex_char-ascii : (d : ℕ) → d < 16 → is_ascii (hex_char d) ≡ true
unfolding hex_char
hex_char-ascii d h = ground arith

pub hex_text-ascii : (k n : ℕ) → all is_ascii (hex_text k n) ≡ true
unfolding hex_text
hex_text-ascii zero n = refl
hex_text-ascii (suc k) n = rw (hex_char-ascii (n / 16 ^ k % 16) (omega arith)) (hex_text-ascii k n)

pub hex_text-length : (k n : ℕ) → length (hex_text k n) ≡ k
unfolding hex_text
hex_text-length zero n = refl
hex_text-length (suc k) n = ap suc (hex_text-length k n)

group-ascii :
    (k n : ℕ) (s : Text) → all is_ascii s ≡ true → all is_ascii (hex_text k n ++ (45 ∷ s)) ≡ true
group-ascii k n s h = append-ascii (hex_text k n) (45 ∷ s) (hex_text-ascii k n) h

pub uuid_text-ascii : (u : Uuid) → all is_ascii (uuid_text u) ≡ true
unfolding uuid_text
uuid_text-ascii u =
    let d = hex_text 12 u in
    let c = hex_text 4 (u / 16 ^ 12) ++ (45 ∷ d) in
    let b = hex_text 4 (u / 16 ^ 16) ++ (45 ∷ c) in
    let a = hex_text 4 (u / 16 ^ 20) ++ (45 ∷ b) in
    group-ascii 8 (u / 16 ^ 24) a (
      group-ascii 4 (u / 16 ^ 20) b
        (group-ascii 4 (u / 16 ^ 16) c (group-ascii 4 (u / 16 ^ 12) d (hex_text-ascii 12 u))))

group-length : (k n m : ℕ) (s : Text) → length s ≡ m → length (hex_text k n ++ (45 ∷ s)) ≡ k + suc m
group-length k n m s h = rw (length-append (hex_text k n) (45 ∷ s), hex_text-length k n, h) refl

pub uuid_text-length : (u : Uuid) → length (uuid_text u) ≡ 36
unfolding uuid_text
uuid_text-length u =
    let d = hex_text 12 u in
    let c = hex_text 4 (u / 16 ^ 12) ++ (45 ∷ d) in
    let b = hex_text 4 (u / 16 ^ 16) ++ (45 ∷ c) in
    let a = hex_text 4 (u / 16 ^ 20) ++ (45 ∷ b) in
    group-length 8 (u / 16 ^ 24) 27 a (
      group-length 4 (u / 16 ^ 20) 22 b (
        group-length 4 (u / 16 ^ 16) 17 c
          (group-length 4 (u / 16 ^ 12) 12 d (hex_text-length 12 u))))

decimal_from-ascii :
    (fuel n : ℕ) (acc : Text)
    → all is_ascii acc ≡ true
    → all is_ascii (decimal_from fuel n acc) ≡ true
unfolding decimal_from
decimal_from-ascii zero n acc h = h
decimal_from-ascii (suc fuel) n acc h =
    let h' = digit n acc h in
    elim (Bool-cases (ltb n 10)) [
      | inl e ↦ rw e h'
      | inr e ↦ rw e (decimal_from-ascii fuel (n / 10) ((48 + n % 10) ∷ acc) h')
    ]
  where
    digit :
        (n : ℕ) (acc : Text) → all is_ascii acc ≡ true → all is_ascii ((48 + n % 10) ∷ acc) ≡ true
    digit n acc h = ground arith

pub decimal-ascii : (n : ℕ) → all is_ascii (decimal n) ≡ true
unfolding decimal
decimal-ascii n = decimal_from-ascii (suc n) n [] refl

decimal_from-length :
    (fuel n : ℕ) (acc : Text) → length (decimal_from fuel n acc) ≤ fuel + length acc
unfolding decimal_from
decimal_from-length zero n acc = omega arith
decimal_from-length (suc fuel) n acc = elim (Bool-cases (ltb n 10)) [
  | inl e ↦ rw e (omega arith)
  | inr e ↦ rw e (omega (arith, decimal_from-length fuel (n / 10) ((48 + n % 10) ∷ acc)))
]

pub decimal-length : (n : ℕ) → length (decimal n) ≤ suc n
unfolding decimal
decimal-length n = omega (arith, decimal_from-length (suc n) n [])

-- The number that digits write after a number.
abbrev read_digits : ℕ → Text → ℕ
read_digits a [] = a
read_digits a (c ∷ s) = read_digits (a * 10 + (c - 48)) s

decimal_from-read :
    (fuel n : ℕ) (acc : Text)
    → n < fuel
    → read_digits 0 (decimal_from fuel n acc) ≡ read_digits n acc
unfolding decimal_from
decimal_from-read zero n acc h = absurd (omega (arith, h))
decimal_from-read (suc fuel) n acc h = elim (Bool-cases (ltb n 10)) [
  | inl e ↦ rw e (ap (λ a. read_digits a acc) (ground arith))
  | inr e ↦ rw e (
      decimal_from-read fuel (n / 10) ((48 + n % 10) ∷ acc) (ground arith)
      ∙ ap (λ a. read_digits a acc) (whole n))
]
  where
    whole : (n : ℕ) → n / 10 * 10 + (48 + n % 10 - 48) ≡ n
    whole n = omega arith

decimal-read : (n : ℕ) → read_digits 0 (decimal n) ≡ n
unfolding decimal
decimal-read n = decimal_from-read (suc n) n [] (omega arith)

pub decimal-injective : (n m : ℕ) → decimal n ≡ decimal m → n ≡ m
decimal-injective n m h = sym (decimal-read n) ∙ ap (read_digits 0) h ∙ decimal-read m
