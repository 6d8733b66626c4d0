-- ===== src/Api/Signed/Laws.antt =====
-- internal/api/acme_handler.go: what a request has shown when its header was read and its signature was checked.
use ad_pki_ca.Base.{Option, none, ◌≡◌, ◌≢◌, String, eq_iff, arith}
use ad_pki_ca.Json.{Json}
use ad_pki_ca.Env.{Env}
use ad_pki_ca.World.{World, ok, err}
use ad_pki_ca.Acme.Nonce.{consume}
use ad_pki_ca.Base.{lookup}
use ad_pki_ca.Acme.Nonce.Single.{IsFresh, consume_lem, consume_missing}
use ad_pki_ca.Api.Http.{Request, Response, acme_error, err_bad_nonce}
use ad_pki_ca.Api.Signed.{Texts, Protected, open_header, spend_nonce, read_header}

abbrev pub bad_nonce : Response
bad_nonce = acme_error err_bad_nonce "invalid or missing nonce"

-- A nonce goes through exactly if it is there and fresh, and is then spent.
pub spend_nonce_ok :
    (k : String) (w v : World)
    → spend_nonce k w ≡ (ok tt, v)
    → (k ≢ "") × IsFresh k w.now w.nonces × (v ≡ record w { nonces = (consume k w.now w.nonces).1 })
unfolding spend_nonce
spend_nonce_ok k w v h =
    let (accepts, gone) = consume_lem k k w.now w.nonces in
    (ground (arith, eq_iff k ""), accepts.0 (ground arith), ground arith)

-- A nonce that went through is gone, and is refused wherever it is not there.
pub spend_nonce_again :
    (k : String) (w v : World)
    → spend_nonce k w ≡ (ok tt, v)
    → (lookup k v.nonces.nonces ≡ none)
      × ((u : World) → lookup k u.nonces.nonces ≡ none → spend_nonce k u ≡ (err bad_nonce, u))
unfolding spend_nonce
spend_nonce_again k w v h =
    let (accepts, gone) = consume_lem k k w.now w.nonces in
    let (named, fresh, same) = spend_nonce_ok k w v h in
    (
      ground (arith, gone, same, eq_iff k k),
      λ u absent. ground (arith, consume_missing k u.now u.nonces),
    )

module _ (env : Env) (texts : Texts) (raw : Json → Option String)
    (header : Json → Option Protected) where
  -- Reading the header changes nothing, and does not depend on the state.
  pub open_header-world :
      (r : Request) (w u : World)
      → ((open_header env texts raw header r w).1 ≡ w)
        × ((open_header env texts raw header r w).0 ≡ (open_header env texts raw header r u).0)
  unfolding open_header
  open_header-world r w u = (ground arith, ground arith)

  pub read_header_ok :
      (r : Request) (w v : World) (body : String) (h : Protected)
      → read_header env texts raw header r w ≡ (ok (body, h), v)
      → ((open_header env texts raw header r w).0 ≡ ok (body, h))
        × (spend_nonce h.nonce w ≡ (ok tt, v))
  unfolding read_header
  read_header_ok r w v body h e = ground (arith, open_header-world r w w)

  -- A signed request is good for one time: once its header was read with success, its nonce is gone,
  -- and in any state where the nonce is not there, because it was not drawn again, reading the header
  -- again is answered with badNonce and changes nothing.
  pub read_header_again :
      (r : Request) (w v u : World) (body : String) (h : Protected)
      → read_header env texts raw header r w ≡ (ok (body, h), v)
      → lookup h.nonce u.nonces.nonces ≡ none
      → (lookup h.nonce v.nonces.nonces ≡ none)
        × (read_header env texts raw header r u ≡ (err bad_nonce, u))
  unfolding read_header
  read_header_again r w v u body h e absent =
      let (opened, spent) = read_header_ok r w v body h e in
      let (gone, refused) = spend_nonce_again h.nonce w v spent in
      (gone, ground (arith, open_header-world r w u, open_header-world r u w, refused u absent))

  -- A header that is not read is answered with 400.
  pub read_header-refuses :
      (r : Request) (w v : World) (e : Response)
      → read_header env texts raw header r w ≡ (err e, v)
      → e.status ≡ 400
  unfolding read_header open_header spend_nonce
  read_header-refuses r w v e h = ground arith
