-- ===== src/Delivery/Fingerprint.antt =====
-- `build_request_fingerprint` of backend/delivery/repositories.py: the bytes that stand for a request,
-- reduced by SHA-256, which is a parameter.
pub mod Hex
pub mod Bytes
pub mod Injective
pub mod Examples
use line_message_playground.Prelude.{
  ℕ, zero, suc, ◌+◌, ◌/◌, ◌%◌, ◌^◌, Bool, List, [], ◌∷◌, ◌++◌, length, ltb, if◌then◌else◌,
}
use line_message_playground.Prelude.Text.{Text, codes}
use line_message_playground.Delivery.Types.{Uuid, Digest}

-- A digit of a hexadecimal text, lower case.
unfoldable pub hex_char : ℕ → ℕ
hex_char d = if ltb d 10 then 48 + d else 87 + d

-- The `k` last hexadecimal digits of a number, with leading zeros.
unfoldable pub hex_text : ℕ → ℕ → Text
unfolding hex_char
hex_text zero n = []
hex_text (suc k) n = hex_char (n / 16 ^ k % 16) ∷ hex_text k n

-- `str(uuid)`
unfoldable pub uuid_text : Uuid → Text
unfolding hex_text
uuid_text u =
    hex_text 8 (u / 16 ^ 24)
    ++ (45
        ∷ (hex_text 4 (u / 16 ^ 20)
            ++ (45
                ∷ (hex_text 4 (u / 16 ^ 16)
                    ++ (45 ∷ (hex_text 4 (u / 16 ^ 12) ++ (45 ∷ hex_text 12 u)))))))

-- `str(n)`: with fuel above the number, every digit is written.
decimal_from : ℕ → ℕ → Text → Text
decimal_from zero n acc = acc
decimal_from (suc fuel) n acc =
    let acc' = (48 + n % 10) ∷ acc in
    let more = decimal_from fuel (n / 10) acc' in if ltb n 10 then acc' else more

pub decimal : ℕ → Text
unfolding decimal_from
decimal n = decimal_from (suc n) n []

abbrev pub utf8_char : ℕ → List ℕ
utf8_char c =
    if ltb c 128
    then c ∷ []
    else if ltb c 2048
    then (192 + c / 64) ∷ (128 + c % 64) ∷ []
    else if ltb c 65536
    then (224 + c / 4096) ∷ (128 + c / 64 % 64) ∷ (128 + c % 64) ∷ []
    else (240 + c / 262144) ∷ (128 + c / 4096 % 64) ∷ (128 + c / 64 % 64) ∷ (128 + c % 64) ∷ []

unfoldable pub utf8 : Text → List ℕ
utf8 [] = []
utf8 (c ∷ s) = utf8_char c ++ utf8 s

-- `len(encoded).to_bytes(4, "big") + encoded`
unfoldable pub length_prefixed : Text → List ℕ
unfolding utf8
length_prefixed value =
    let encoded = utf8 value in
    let n = length encoded in
    (n / 16777216 % 256) ∷ (n / 65536 % 256) ∷ (n / 256 % 256) ∷ (n % 256) ∷ encoded

unfoldable pub canonical : List (Text × Text) → List ℕ
unfolding length_prefixed
canonical [] = []
canonical ((label, value) ∷ fields) =
    length_prefixed label ++ (length_prefixed value ++ canonical fields)

unfoldable pub fields : ℕ → Uuid → Uuid → Uuid → Digest → Bool → List (Text × Text)
unfolding decimal uuid_text hex_text
fields owner owner_identity channel_public_id recipient_public_id message_fingerprint requested =
    (codes "kind", codes "linked-recipient-delivery-request")
    ∷ (codes "version", codes "v1")
    ∷ (codes "owner-principal-slot", decimal owner)
    ∷ (codes "owner-identity-public-id", uuid_text owner_identity)
    ∷ (codes "channel-public-id", uuid_text channel_public_id)
    ∷ (codes "recipient-public-id", uuid_text recipient_public_id)
    ∷ (codes "message-fingerprint", hex_text 64 message_fingerprint)
    ∷ (codes "receipt-requested", if requested then codes "true" else codes "false")
    ∷ []

unfoldable pub build_request_fingerprint :
    (List ℕ → Digest) → ℕ → Uuid → Uuid → Uuid → Digest → Bool → Digest
unfolding canonical fields
build_request_fingerprint sha256 owner owner_identity channel recipient message_fingerprint
      requested =
    sha256 (canonical (fields owner owner_identity channel recipient message_fingerprint requested))
