-- ===== src/Ca/Revocation/Serial.antt =====
-- internal/ca/crl.go: the serial numbers of the backend's list, as internal/ca/sign.go writes them.
use ad_pki_ca.Base.{ℕ, ◌≡◌, String, some, arith}
use ad_pki_ca.Hex.{to_hex}
use ad_pki_ca.Hex.Numerals.{parse_hex-to_hex}
use ad_pki_ca.Env.{Env}
use ad_pki_ca.Ca.Revocation.{read_serial, revoked_of}

-- A number in the backend's list is read as it was written when the certificate was made.
pub revoked_of-to_hex :
    (env : Env) (n : ℕ) (date : String)
    → (revoked_of env (record { serial_number = to_hex n; revoked_at = date })).serial_number
      ≡ some n
unfolding revoked_of read_serial
revoked_of-to_hex env n date = ground (arith, parse_hex-to_hex n)
