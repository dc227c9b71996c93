-- ===== src/Delivery/Fingerprint/Examples.antt =====
-- A request at concrete values.
use line_message_playground.Prelude.{ℕ, true, length, ◌≡◌, refl, arith}
use line_message_playground.Delivery.Types.{Uuid, Digest}
use line_message_playground.Delivery.Fingerprint.Injective.{build_request_fingerprint-injective}

abbrev slot : ℕ
slot = 1

abbrev identity : Uuid
identity = 13

abbrev channel : Uuid
channel = 11

abbrev recipient : Uuid
recipient = 12

abbrev message : Digest
message = 14

build_request_fingerprint-injective_example :
    (slot ≡ slot)
    × (identity ≡ identity)
    × (channel ≡ channel)
    × (recipient ≡ recipient)
    × (message ≡ message)
    × (true ≡ true)
build_request_fingerprint-injective_example =
    build_request_fingerprint-injective (λ bytes. length bytes) slot identity channel recipient
      message true slot identity channel recipient message true (λ h. refl) (omega arith)
      (omega arith) (omega arith) (omega arith) (omega arith) (omega arith) (omega arith)
      (omega arith) (omega arith) (omega arith) refl
