-- ===== src/Delivery/Fingerprint/Injective.antt =====
-- The bytes of a request determine the request.
use line_message_playground.Prelude.{
  ℕ, ◌/◌, ◌%◌, ◌^◌, ◌<◌, Bool, true, false, List, [], ◌∷◌, ◌++◌, length, if◌then◌else◌, ◌≡◌, refl,
  sym, ◌∙◌, arith,
}
use line_message_playground.Prelude.Text.{Text, codes}
use line_message_playground.Prelude.Rows.{all}
use line_message_playground.Delivery.Types.{Uuid, Digest}
use line_message_playground.Delivery.Fingerprint.{
  hex_text, uuid_text, decimal, utf8, length_prefixed, canonical, fields, build_request_fingerprint,
}
use line_message_playground.Delivery.Fingerprint.Hex.{
  head_equal, tail_equal, uuid_text-injective, digest_text-injective,
}
use line_message_playground.Delivery.Fingerprint.Bytes.{
  is_ascii, utf8-ascii, hex_text-ascii, hex_text-length, uuid_text-ascii, uuid_text-length,
  decimal-ascii, decimal-length, decimal-injective,
}

append-split :
    (xs ys s t : List ℕ) → length xs ≡ length ys → xs ++ s ≡ ys ++ t → (xs ≡ ys) × (s ≡ t)
append-split [] [] s t n h = (refl, h)
append-split [] (y ∷ ys) s t n h = absurd (omega (arith, n))
append-split (x ∷ xs) [] s t n h = absurd (omega (arith, n))
append-split (x ∷ xs) (y ∷ ys) s t n h =
    let (p, q) = append-split xs ys s t (omega (arith, n)) (tail_equal x y (xs ++ s) (ys ++ t) h) in
    (cc (p, head_equal x y (xs ++ s) (ys ++ t) h), q)

-- Four bytes hold a length below 2 ^ 32.
four_bytes :
    (n m : ℕ)
    → n < 4294967296
    → m < 4294967296
    → n / 16777216 % 256 ≡ m / 16777216 % 256
    → n / 65536 % 256 ≡ m / 65536 % 256
    → n / 256 % 256 ≡ m / 256 % 256
    → n % 256 ≡ m % 256
    → n ≡ m
four_bytes n m hn hm a b c d = omega (arith, hn, hm, a, b, c, d)

length_prefixed-split :
    (v w : Text) (s t : List ℕ)
    → length (utf8 v) < 4294967296
    → length (utf8 w) < 4294967296
    → length_prefixed v ++ s ≡ length_prefixed w ++ t
    → (utf8 v ≡ utf8 w) × (s ≡ t)
unfolding length_prefixed
length_prefixed-split v w s t hv hw h =
    let n = length (utf8 v) in
    let m = length (utf8 w) in
    let h1 = tail_equal (n / 16777216 % 256) (m / 16777216 % 256) _ _ h in
    let h2 = tail_equal (n / 65536 % 256) (m / 65536 % 256) _ _ h1 in
    let h3 = tail_equal (n / 256 % 256) (m / 256 % 256) _ _ h2 in
    let h4 = tail_equal (n % 256) (m % 256) _ _ h3 in
    append-split (utf8 v) (utf8 w) s t
      (four_bytes n m hv hw (head_equal (n / 16777216 % 256) (m / 16777216 % 256) _ _ h)
        (head_equal (n / 65536 % 256) (m / 65536 % 256) _ _ h1)
        (head_equal (n / 256 % 256) (m / 256 % 256) _ _ h2) (head_equal (n % 256) (m % 256) _ _ h3))
      h4

-- A text of the request: ASCII, and short.
abbrev IsShort : Text → Type 0
IsShort s = (all is_ascii s ≡ true) × (length s < 4294967296)

bytes-short : (s : Text) → IsShort s → length (utf8 s) < 4294967296
bytes-short s (a, n) = rw (utf8-ascii s a) n

-- The first of the fields, under one label.
canonical-split :
    (label v w : Text) (fs gs : List (Text × Text))
    → IsShort label
    → IsShort v
    → IsShort w
    → canonical ((label, v) ∷ fs) ≡ canonical ((label, w) ∷ gs)
    → (v ≡ w) × (canonical fs ≡ canonical gs)
unfolding canonical
canonical-split label v w fs gs l hv hw h =
    let (p, q) =
      length_prefixed-split label label (length_prefixed v ++ canonical fs)
        (length_prefixed w ++ canonical gs) (bytes-short label l) (bytes-short label l) h in
    let (r, s) =
      length_prefixed-split v w (canonical fs) (canonical gs) (bytes-short v hv) (bytes-short w hw)
        q in
    (sym (utf8-ascii v hv.0) ∙ r ∙ utf8-ascii w hw.0, s)

-- Two lists of fields with the same labels.
abbrev Pairs : Type 0
Pairs = List (Text × Text × Text)

abbrev lefts : Pairs → List (Text × Text)
lefts [] = []
lefts ((label, v, w) ∷ ps) = (label, v) ∷ lefts ps

abbrev rights : Pairs → List (Text × Text)
rights [] = []
rights ((label, v, w) ∷ ps) = (label, w) ∷ rights ps

abbrev AllShort : Pairs → Type 0
AllShort [] = Unit
AllShort ((label, v, w) ∷ ps) = (IsShort label × IsShort v × IsShort w) × AllShort ps

abbrev AllEqual : Pairs → Type 0
AllEqual [] = Unit
AllEqual ((label, v, w) ∷ ps) = (v ≡ w) × AllEqual ps

canonical-injective :
    (ps : Pairs) → AllShort ps → canonical (lefts ps) ≡ canonical (rights ps) → AllEqual ps
canonical-injective [] a h = tt
canonical-injective ((label, v, w) ∷ ps) ((l, hv, hw), a) h =
    let (p, q) = canonical-split label v w (lefts ps) (rights ps) l hv hw h in
    (p, canonical-injective ps a q)

uuid-IsShort : (u : Uuid) → IsShort (uuid_text u)
uuid-IsShort u = (uuid_text-ascii u, rw (uuid_text-length u) (omega arith))

digest-IsShort : (d : Digest) → IsShort (hex_text 64 d)
digest-IsShort d = (hex_text-ascii 64 d, rw (hex_text-length 64 d) (omega arith))

slot-IsShort : (n : ℕ) → n < 65536 → IsShort (decimal n)
slot-IsShort n h = (decimal-ascii n, omega (arith, h, decimal-length n))

flag_text : Bool → Text
flag_text b = if b then codes "true" else codes "false"

flag-IsShort : (b : Bool) → IsShort (flag_text b)
unfolding flag_text
flag-IsShort true = (refl, omega arith)
flag-IsShort false = (refl, omega arith)

flag-injective : (a b : Bool) → flag_text a ≡ flag_text b → a ≡ b
unfolding flag_text
flag-injective true true h = refl
flag-injective true false h = cc
flag-injective false true h = cc
flag-injective false false h = refl

-- Two requests with the same fingerprint, if SHA-256 tells their bytes apart, are the same: the slot
-- of the owner, below 2 ^ 16, the three ids, UUIDs below 2 ^ 128, the fingerprint of the message, below
-- 2 ^ 256, and whether a receipt is requested.
pub build_request_fingerprint-injective :
    (sha256 : List ℕ → Digest) (o i c r m : ℕ) (b : Bool) (o' i' c' r' m' : ℕ) (b' : Bool)
    → (sha256 (canonical (fields o i c r m b)) ≡ sha256 (canonical (fields o' i' c' r' m' b'))
        → canonical (fields o i c r m b) ≡ canonical (fields o' i' c' r' m' b'))
    → o < 65536
    → o' < 65536
    → i < 16 ^ 32
    → i' < 16 ^ 32
    → c < 16 ^ 32
    → c' < 16 ^ 32
    → r < 16 ^ 32
    → r' < 16 ^ 32
    → m < 16 ^ 64
    → m' < 16 ^ 64
    → build_request_fingerprint sha256 o i c r m b
      ≡ build_request_fingerprint sha256 o' i' c' r' m' b'
    → (o ≡ o') × (i ≡ i') × (c ≡ c') × (r ≡ r') × (m ≡ m') × (b ≡ b')
unfolding build_request_fingerprint fields flag_text
build_request_fingerprint-injective sha256 o i c r m b o' i' c' r' m' b' apart ho ho' hi hi' hc hc'
      hr hr' hm hm' h =
    let ps =
      (
        codes "kind",
        codes "linked-recipient-delivery-request",
        codes "linked-recipient-delivery-request",
      )
      ∷ (codes "version", codes "v1", codes "v1")
      ∷ (codes "owner-principal-slot", decimal o, decimal o')
      ∷ (codes "owner-identity-public-id", uuid_text i, uuid_text i')
      ∷ (codes "channel-public-id", uuid_text c, uuid_text c')
      ∷ (codes "recipient-public-id", uuid_text r, uuid_text r')
      ∷ (codes "message-fingerprint", hex_text 64 m, hex_text 64 m')
      ∷ (codes "receipt-requested", flag_text b, flag_text b')
      ∷ [] in
    let (k1, (k2, (po, (pi, (pc, (pr, (pm, (pb, end)))))))) =
      canonical-injective ps
        (
          ((refl, omega arith), (refl, omega arith), (refl, omega arith)),
          (
            ((refl, omega arith), (refl, omega arith), (refl, omega arith)),
            (
              ((refl, omega arith), slot-IsShort o ho, slot-IsShort o' ho'),
              (
                ((refl, omega arith), uuid-IsShort i, uuid-IsShort i'),
                (
                  ((refl, omega arith), uuid-IsShort c, uuid-IsShort c'),
                  (
                    ((refl, omega arith), uuid-IsShort r, uuid-IsShort r'),
                    (
                      ((refl, omega arith), digest-IsShort m, digest-IsShort m'),
                      (((refl, omega arith), flag-IsShort b, flag-IsShort b'), tt),
                    ),
                  ),
                ),
              ),
            ),
          ),
        )
        (apart h) in
    (
      decimal-injective o o' po,
      uuid_text-injective i i' hi hi' pi,
      uuid_text-injective c c' hc hc' pc,
      uuid_text-injective r r' hr hr' pr,
      digest_text-injective m m' hm hm' pm,
      flag-injective b b' pb,
    )
