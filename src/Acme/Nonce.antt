-- ===== src/Acme/Nonce.antt =====
-- internal/acme/nonce.go: the replay nonces. The map is an association list, its lock is the order
-- of the calls, and a time is in seconds.
pub mod Single
pub mod Trace
use ad_pki_ca.Base.{
  ℕ, ◌-◌, Bool, true, false, Option, none, some, List, [], ◌∷◌, String, ◌==◌, ltb, if◌then◌else◌,
  lookup, insert, remove,
}

pub record NonceEntry : Type 0 where
  pub created_at : ℕ

pub record NonceManager : Type 0 where
  pub nonces : List (String × NonceEntry)

-- time.Hour
abbrev pub hour : ℕ
hour = 3600

-- `time.Since(entry.createdAt) > time.Hour`
unfoldable pub has_expired : ℕ → NonceEntry → Bool
has_expired now e = ltb hour (now - e.created_at)

unfoldable pub drop_expired : ℕ → List (String × NonceEntry) → List (String × NonceEntry)
unfolding has_expired
drop_expired now [] = []
drop_expired now ((j, e) ∷ m) =
    let rest = drop_expired now m in if has_expired now e then rest else (j, e) ∷ rest

-- The part of `Generate` under the lock, for a nonce that was drawn.
unfoldable pub record_nonce : String → ℕ → NonceManager → NonceManager
unfolding insert
record_nonce nonce now n = record n { nonces = insert nonce (record { created_at = now }) n.nonces }

unfoldable pub consume : String → ℕ → NonceManager → Bool × NonceManager
unfolding lookup remove has_expired
consume nonce now n = elim (lookup nonce n.nonces) [
  | none ↦ (false, n)
  | some entry ↦
      if has_expired now entry
      then (false, record n { nonces = remove nonce n.nonces })
      else (true, record n { nonces = remove nonce n.nonces })
]

unfoldable pub cleanup : ℕ → NonceManager → NonceManager
unfolding drop_expired
cleanup now n = record n { nonces = drop_expired now n.nonces }
