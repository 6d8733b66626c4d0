-- ===== src/Acme/Nonce/Trace.antt =====
-- internal/acme/nonce.go: the nonce manager under any sequence of calls, at any times. The lock makes the calls of
-- concurrent handlers, and the cleanup goroutines that `Generate` starts, such a sequence.
use ad_pki_ca.Base.{lookup, lookup-insert, lookup-remove}
use ad_pki_ca.Base.{
  ℕ, ◌+◌, ◌≤◌, ◌≡◌, none, some, List, [], ◌∷◌, String, ◌==◌, eq_iff, arith, if◌then◌else◌,
}
use ad_pki_ca.Acme.Nonce.{NonceManager, record_nonce, consume, cleanup}
use ad_pki_ca.Acme.Nonce.Single.{lookup-drop_expired_absent}

pub data Call : Type 0 where
  generates consumes : String → Call
  cleans : Call

unfoldable pub after : NonceManager → ℕ × Call → NonceManager
after n (now, generates k) = record_nonce k now n
after n (now, consumes k) = (consume k now n).1
after n (now, cleans) = cleanup now n

-- How often a sequence of calls draws a nonce.
unfoldable pub generated : String → List (ℕ × Call) → ℕ
generated k [] = 0
generated k ((now, generates j) ∷ calls) = (if j == k then 1 else 0) + generated k calls
generated k ((now, consumes j) ∷ calls) = generated k calls
generated k ((now, cleans) ∷ calls) = generated k calls

abbrev accepts : String → ℕ → NonceManager → Call → ℕ
accepts k now n (consumes j) = if j == k then (if (consume j now n).0 then 1 else 0) else 0
accepts k now n _ = 0

-- How often it is accepted on the way.
unfoldable pub accepted : String → NonceManager → List (ℕ × Call) → ℕ
unfolding after
accepted k n [] = 0
accepted k n ((now, c) ∷ calls) = accepts k now n c + accepted k (after n (now, c)) calls

abbrev held : String → NonceManager → ℕ
held k n = elim (lookup k n.nonces) [ none ↦ 0 | some _ ↦ 1 ]

-- One call: what is accepted and what is then in the map was there, or was drawn.
step_bound :
    (k : String) (n : NonceManager) (now : ℕ) (c : Call)
    → accepts k now n c + held k (after n (now, c)) ≤ generated k ((now, c) ∷ []) + held k n
unfolding after generated record_nonce consume cleanup
step_bound k n now (generates j) =
    ground (arith, lookup-insert k j (record { created_at = now }) n.nonces)
step_bound k n now (consumes j) = ground (arith, lookup-remove k j n.nonces, eq_iff j k)
step_bound k n now cleans = ground (arith, lookup-drop_expired_absent k now n.nonces)

generated-cons :
    (k : String) (c : ℕ × Call) (calls : List (ℕ × Call))
    → generated k (c ∷ calls) ≡ generated k (c ∷ []) + generated k calls
unfolding generated
generated-cons k (now, generates j) calls = ground arith
generated-cons k (now, consumes j) calls = omega arith
generated-cons k (now, cleans) calls = omega arith

accepted_bound :
    (k : String) (n : NonceManager) (calls : List (ℕ × Call))
    → accepted k n calls ≤ generated k calls + held k n
unfolding accepted
accepted_bound k n [] = omega arith
accepted_bound k n ((now, c) ∷ calls) = omega (
  arith,
  step_bound k n now c,
  generated-cons k (now, c) calls,
  accepted_bound k (after n (now, c)) calls,
)

-- From the empty map that the service starts with, and whatever the calls and their times, no nonce
-- is accepted more often than it was drawn: a drawn nonce serves one request.
pub accepted-le-generated :
    (k : String) (calls : List (ℕ × Call))
    → accepted k (record { nonces = [] }) calls ≤ generated k calls
accepted-le-generated k calls =
    unfold lookup in omega (arith, accepted_bound k (record { nonces = [] }) calls)
