-- ===== src/Tests/Stored.antt =====
-- The theorems on nonces, stored structs, orders and validations, at the tests' CA.
use ad_pki_ca.Base.{true, none, some, ◌≡◌, refl, ◌≤◌, [], ◌∷◌, if◌then◌else◌, ◌==◌, ◌↔◌, arith}
use ad_pki_ca.Acme.Nonce.{consume, cleanup}
use ad_pki_ca.Base.{lookup}
use ad_pki_ca.Acme.Nonce.Single.{IsValid, IsFresh, consume_lem, consume-cleanup}
use ad_pki_ca.Acme.Nonce.Trace.{generates, consumes, accepted, generated, accepted-le-generated}
use ad_pki_ca.Acme.Types.{encode_order, decode_order}
use ad_pki_ca.Acme.Types.RoundTrip.{decode_order-encode_order}
use ad_pki_ca.Tests.{nonces, order_1}

nonces-IsValid : IsValid nonces
nonces-IsValid = record { distinct = (unfold lookup in refl, tt) }

accepted-le-generated_example :
    accepted "n"
      (record { nonces = [] })
      ((0, generates "n") ∷ (9, consumes "n") ∷ (9, consumes "n") ∷ [])
    ≤ generated "n" ((0, generates "n") ∷ (9, consumes "n") ∷ (9, consumes "n") ∷ [])
accepted-le-generated_example =
    accepted-le-generated "n" ((0, generates "n") ∷ (9, consumes "n") ∷ (9, consumes "n") ∷ [])

consume_lem_example :
    (((consume "n1" 1000 nonces).0 ≡ true) ↔ IsFresh "n1" 1000 nonces)
    × (lookup "n2" (consume "n1" 1000 nonces).1.nonces
        ≡ (if "n1" == "n2" then none else lookup "n2" nonces.nonces))
consume_lem_example = consume_lem "n1" "n2" 1000 nonces

consume-cleanup_example : (consume "n1" 1000 (cleanup 950 nonces)).0 ≡ (consume "n1" 1000 nonces).0
consume-cleanup_example = consume-cleanup "n1" 950 1000 nonces nonces-IsValid (omega arith)

decode_order-encode_order_example : decode_order (encode_order order_1) ≡ some order_1
decode_order-encode_order_example = decode_order-encode_order order_1
