-- ===== src/World.antt =====
-- The state that the service keeps between calls, and the actions over it. `Exec E A` is a Go
-- function that changes the state and returns a value or an error of type `E`; what was done before
-- an error stays done.
pub mod Laws
pub mod Keeps
use ad_pki_ca.Base.{ℕ, suc, ◌+◌, Bool, if◌then◌else◌, Option, none, some, List, String}
use ad_pki_ca.Json.{Json}
use ad_pki_ca.Files.{FilePath, Content, Fs, write_file, failed_write}
use ad_pki_ca.Acme.Types.{Authorization}
use ad_pki_ca.Acme.Nonce.{NonceManager}
use ad_pki_ca.Ocsp.Cache.{CachedResponse}

-- A goroutine of the challenge handler that has not run yet: its authorization, and which of the
-- authorization's challenges `chall` points to.
pub record Job : Type 0 where
  pub authz : Authorization
  pub at : ℕ

-- `draws` counts the uses of the random source and of openssl; `ocsp_cache` is the handlers' map.
-- `notices` are the posts to the backend, the latest first: the URL, the document, and what came of it;
-- `ntp_runs` are the names that the time server's command was run with.
pub record World : Type 0 where
  pub fs : Fs
  pub nonces : NonceManager
  pub jobs : List Job
  pub now : ℕ
  pub draws : ℕ
  pub ocsp_cache : List (String × CachedResponse)
  pub notices : List (String × Json × Option ℕ)
  pub ntp_runs : List String

pub data Outcome (E A : Type 0) : Type 0 where
  ok : A → Outcome E A
  err : E → Outcome E A

abbrev pub Exec : Type 0 → Type 0 → Type 0
Exec E A = World → Outcome E A × World

module _ {E A : Type 0} where
  abbrev pub pure : A → Exec E A
  pure a w = (ok a, w)

  abbrev pub fail : E → Exec E A
  fail e w = (err e, w)

  abbrev pub reads : (World → A) → Exec E A
  reads f w = (ok (f w), w)

  abbrev pub lift : Option A → E → Exec E A
  lift none e w = (err e, w)
  lift (some a) e w = (ok a, w)

-- An early return, unless the test holds.
abbrev pub require : {E : Type 0} → Bool → E → Exec E (Unit {0})
require b e w = if b then (ok tt, w) else (err e, w)

module _ {E A B : Type 0} where
  abbrev pub continue : Outcome E A → (A → Exec E B) → Exec E B
  continue (ok a) f w = f a w
  continue (err e) f w = (err e, w)

  infixl 5 ◌>>=◌
  abbrev pub ◌>>=◌ : Exec E A → (A → Exec E B) → Exec E B
  ◌>>=◌ m f w = let (r, w') = m w in continue r f w'

infixl 5 ◌>>◌
abbrev pub ◌>>◌ : {E B : Type 0} → Exec E (Unit {0}) → Exec E B → Exec E B
m >> k = m >>= λ _. k

-- The same action with its error turned into another.
module _ {E F A : Type 0} where
  abbrev pub map_err : (E → F) → Outcome E A → Outcome F A
  map_err f (ok a) = ok a
  map_err f (err e) = err (f e)

  abbrev pub or_else : Exec E A → (E → F) → Exec F A
  or_else m f w = let (r, w') = m w in (map_err f r, w')

-- `x, _ := m`: an error is dropped, and the value is the zero value.
abbrev pub or_zero : {E F A : Type 0} → A → Exec E A → Exec F A
or_zero z m w = let (r, w') = m w in (ok (elim r [ ok a ↦ a | err _ ↦ z ]), w')

-- An action on the file system, refused or not.
abbrev pub on_fs : {E : Type 0} → (Fs → Option Fs) → E → Exec E (Unit {0})
on_fs f e w = elim (f w.fs) [ none ↦ (err e, w) | some fs ↦ (ok tt, record w { fs = fs }) ]

-- os.WriteFile, which may break off
abbrev pub on_write : {E : Type 0} → FilePath → Content → E → Exec E (Unit {0})
on_write p c e w = elim (write_file w.now p c w.fs) [
  | none ↦ (err e, record w { fs = failed_write w.now p w.fs })
  | some fs ↦ (ok tt, record w { fs = fs })
]

-- `if x, err := m; err != nil { h } else { f(x) }`: the error itself is not looked at.
module _ {E F A B : Type 0} where
  abbrev pub on_outcome : Outcome E A → (A → Exec F B) → Exec F B → Exec F B
  on_outcome (ok a) f h w = f a w
  on_outcome (err e) f h w = h w

  abbrev pub attempt : Exec E A → (A → Exec F B) → Exec F B → Exec F B
  attempt m f h w = let (r, w') = m w in on_outcome r f h w'
