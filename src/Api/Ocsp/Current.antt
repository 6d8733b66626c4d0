-- ===== src/Api/Ocsp/Current.antt =====
-- internal/api/ocsp_handler.go: the responder over time, and how old its answers are.
use ad_pki_ca.Base.{ℕ, ◌+◌, ◌≤◌, ◌<◌, ◌≡◌, Option, some, [], String}
use ad_pki_ca.Env.{Env}
use ad_pki_ca.World.{World, ok}
use ad_pki_ca.Ca.Loader.{Ca}
use ad_pki_ca.Api.Http.{Request, plain}
use ad_pki_ca.Api.Ocsp.{ocsp_template, read_question, ocsp_handler, clear_ocsp_cache_handler}

module _ (env : Env) where
  open env use {OcspRequest}

  -- One step of the service: a request to the responder, the clearing of its cache, or anything
  -- else, which leaves the cache as it is and takes time.
  pub data Step : World → World → Type 0 where
    asked : (r : Request) (w : World) → Step w (ocsp_handler env r w).1
    cleared : (r : Request) (w : World) → Step w (clear_ocsp_cache_handler r w).1
    elsewhere : (w v : World) → v.ocsp_cache ≡ w.ocsp_cache → w.now ≤ v.now → Step w v

  -- The states that the service reaches after its start.
  pub data Reachable : World → Type 0 where
    started : (w : World) → w.ocsp_cache ≡ [] → Reachable w
    then_step : (w v : World) → Reachable w → Step w v → Reachable v

  -- A response that was made for a serial number by an intermediate of a name, less than an hour ago.
  pub record IsRecent (serial : ℕ) (name : String) (now : ℕ) (content : String) : Type 0 where
    pub maker : Ca env
    pub same_name : maker.id ≡ name
    pub time : ℕ
    pub draw : ℕ
    pub since : Option ℕ
    pub signed :
        env.create_ocsp draw maker.cert maker.cert (ocsp_template serial time since) maker.key
        ≡ some content
    pub past : time ≤ now
    pub within : now < time + 3600

  pub record IsCurrent (r : Request) (w : World) : Type 0 where
    pub request : OcspRequest
    pub issuer : Ca env
    pub question : (read_question env r w).0 ≡ ok (request, issuer)
    pub content : String
    pub recent : IsRecent (env.ocsp_serial request) issuer.id w.now content
    pub answered : (ocsp_handler env r w).0.body ≡ plain content
