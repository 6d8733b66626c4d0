-- ===== src/Worker/Cleanup/Night.antt =====
-- internal/worker/acme_cleanup_worker.go: when the cleanup runs.
use ad_pki_ca.Base.{ℕ, ◌+◌, ◌*◌, ◌/◌, ◌%◌, ◌≤◌, ◌<◌, ◌≡◌, ltb, Bool-cases, inl, inr, arith}
use ad_pki_ca.Env.{Env}
use ad_pki_ca.Worker.Cleanup.{next_run}

-- Where the offset of the local time does not change, and times count from a local midnight, the next run
-- of the worker is at 02:00, not before now, and less than 24 hours later.
pub next_run_lem :
    (env : Env) (now : ℕ)
    → env.two_o_clock now ≡ now / 86400 * 86400 + 7200
    → (now ≤ next_run env now)
      × (next_run env now < now + 86400)
      × (next_run env now % 86400 ≡ 7200)
unfolding next_run
next_run_lem env now zone = elim (Bool-cases (ltb (now / 86400 * 86400 + 7200) now)) [
  | inl over ↦
      let past : now / 86400 * 86400 + 7200 < now = ground (arith, over) in
      rw (zone, over) (omega (arith, past), omega (arith, past), omega (arith, past))
  | inr ahead ↦
      let coming : now ≤ now / 86400 * 86400 + 7200 = ground (arith, ahead) in
      rw (zone, ahead) (omega (arith, coming), omega (arith, coming), omega (arith, coming))
]
