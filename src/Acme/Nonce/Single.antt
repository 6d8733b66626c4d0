-- ===== src/Acme/Nonce/Single.antt =====
-- internal/acme/nonce.go: one nonce, one request. What `Generate`, `Consume` and the cleanup promise.
use ad_pki_ca.Base.{lookup, insert, remove, lookup-insert, lookup-remove}
use ad_pki_ca.Base.{
  ℕ, ◌-◌, ◌≤◌, ◌≡◌, refl, ◌↔◌, true, false, none, some, List, [], ◌∷◌, String, ◌==◌, eq_iff, arith,
  if◌then◌else◌,
}
use ad_pki_ca.Acme.Nonce.{
  NonceEntry, NonceManager, hour, has_expired, drop_expired, record_nonce, consume, cleanup,
}

-- Each nonce stands in the map once.
abbrev pub Distinct : List (String × NonceEntry) → Type 0
Distinct [] = Unit {0}
Distinct ((k, e) ∷ m) = (lookup k m ≡ none) × Distinct m

pub record IsValid (n : NonceManager) : Type 0 where
  pub distinct : Distinct n.nonces

Distinct-insert :
    (k : String) (e : NonceEntry) (m : List (String × NonceEntry))
    → Distinct m
    → Distinct (insert k e m)
unfolding insert
Distinct-insert k e [] h = (unfold lookup in refl, tt)
Distinct-insert k e ((j, d) ∷ m) h =
    ground (arith, Distinct-insert k e m h.1, lookup-insert j k e m, eq_iff j k, eq_iff k j)

Distinct-remove : (k : String) (m : List (String × NonceEntry)) → Distinct m → Distinct (remove k m)
unfolding remove
Distinct-remove k [] h = tt
Distinct-remove k ((j, d) ∷ m) h = ground (arith, Distinct-remove k m h.1, lookup-remove j k m)

pub lookup-drop_expired_absent :
    (k : String) (now : ℕ) (m : List (String × NonceEntry))
    → lookup k m ≡ none
    → lookup k (drop_expired now m) ≡ none
unfolding lookup drop_expired
lookup-drop_expired_absent k now [] h = refl
lookup-drop_expired_absent k now ((j, d) ∷ m) h = ground (arith, lookup-drop_expired_absent k now m)

Distinct-drop_expired :
    (now : ℕ) (m : List (String × NonceEntry)) → Distinct m → Distinct (drop_expired now m)
unfolding drop_expired
Distinct-drop_expired now [] h = tt
Distinct-drop_expired now ((j, d) ∷ m) h =
    ground (arith, Distinct-drop_expired now m h.1, lookup-drop_expired_absent j now m h.0)

-- Recording, consuming and cleaning up keep every nonce in the map at most once.
pub operations-IsValid :
    (k : String) (now : ℕ) (n : NonceManager)
    → IsValid n
    → IsValid (record_nonce k now n) × IsValid (consume k now n).1 × IsValid (cleanup now n)
unfolding record_nonce consume cleanup
operations-IsValid k now n v = (
  record { distinct = Distinct-insert k _ n.nonces v.distinct },
  ground (arith, Distinct-remove k n.nonces v.distinct),
  record { distinct = Distinct-drop_expired now n.nonces v.distinct },
)

-- The nonce was recorded at most an hour ago.
abbrev pub IsFresh : String → ℕ → NonceManager → Type 0
IsFresh k now n = (e : NonceEntry) × (lookup k n.nonces ≡ some e) × (now - e.created_at ≤ hour)

-- `Consume` says yes exactly to the nonces that are in the map and at most an hour old. Whatever it
-- says, the nonce is gone afterwards, and every other nonce is as before.
pub consume_lem :
    (k j : String) (now : ℕ) (n : NonceManager)
    → (((consume k now n).0 ≡ true) ↔ IsFresh k now n)
      × (lookup j (consume k now n).1.nonces ≡ (if k == j then none else lookup j n.nonces))
unfolding consume has_expired
consume_lem k j now n =
    ((λ h. ground arith, λ h. ground arith), ground (arith, lookup-remove j k n.nonces, eq_iff k j))

-- A nonce that was consumed, with whatever answer, is refused at any later time.
pub consume_twice :
    (k : String) (now later : ℕ) (n : NonceManager)
    → (consume k later (consume k now n).1).0 ≡ false
unfolding consume
consume_twice k now later n = ground (arith, lookup-remove k k n.nonces, eq_iff k k)

-- A nonce that is not in the map is refused, and the map stays.
pub consume_missing :
    (k : String) (now : ℕ) (n : NonceManager)
    → lookup k n.nonces ≡ none
    → consume k now n ≡ (false, n)
unfolding consume
consume_missing k now n h = ground arith

-- A recorded nonce is accepted at any time up to an hour later.
pub consume-record_nonce :
    (k : String) (created now : ℕ) (n : NonceManager)
    → now - created ≤ hour
    → (consume k now (record_nonce k created n)).0 ≡ true
unfolding consume record_nonce has_expired
consume-record_nonce k created now n h =
    ground (arith, lookup-insert k k (record { created_at = created }) n.nonces, eq_iff k k)

-- What the cleanup leaves.
lookup-drop_expired :
    (k : String) (now : ℕ) (m : List (String × NonceEntry))
    → Distinct m
    → lookup k (drop_expired now m)
      ≡ (elim (lookup k m) [ none ↦ none | some e ↦ if has_expired now e then none else some e ])
unfolding lookup drop_expired
lookup-drop_expired k now [] h = refl
lookup-drop_expired k now ((j, d) ∷ m) h =
    ground (arith, lookup-drop_expired k now m h.1, lookup-drop_expired_absent k now m, eq_iff j k)

-- Where each nonce stands in the map once, the cleanup is invisible: at its time and later, `Consume`
-- answers as it would have without it.
pub consume-cleanup :
    (k : String) (now later : ℕ) (n : NonceManager)
    → IsValid n
    → now ≤ later
    → (consume k later (cleanup now n)).0 ≡ (consume k later n).0
unfolding consume cleanup has_expired
consume-cleanup k now later n v h = ground (arith, lookup-drop_expired k now n.nonces v.distinct)
