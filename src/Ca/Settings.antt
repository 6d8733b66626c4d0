-- ===== src/Ca/Settings.antt =====
-- internal/ca/settings.go and internal/ca/intermediate.go: what the backend says of the ACME settings
-- and of the intermediate that is used by default. The status of the answer is not looked at.
use ad_pki_ca.Base.{Option, some, String}
use ad_pki_ca.Json.{opt_bind, Json, get, to_str, to_num, to_fields, to_list, decode_str}
use ad_pki_ca.Env.{Env, Settings}
use ad_pki_ca.World.{Exec, lift, ◌>>=◌}

unfoldable pub decode_settings : Json → Option Settings
unfolding to_num
decode_settings j = opt_bind (to_fields j) λ fs. opt_bind (to_str (get "crl_url" fs)) λ crl.
    opt_bind (to_str (get "ocsp_url" fs)) λ ocsp. opt_bind (to_str (get "intermediate_id" fs)) λ id.
      opt_bind (to_num (get "validity_days" fs)) λ days.
        opt_bind (to_list decode_str (get "dns_servers" fs)) λ servers. some (record {
          crl_url = crl;
          ocsp_url = ocsp;
          intermediate_id = id;
          validity_days = days;
          dns_servers = servers;
        })

-- IntermediateResponse: its one field
unfoldable pub decode_intermediate : Json → Option String
decode_intermediate j = opt_bind (to_fields j) λ fs. to_str (get "id" fs)

module _ (env : Env) where
  -- FetchSettings
  unfoldable pub fetch_settings : String → Exec String Settings
  unfolding decode_settings
  fetch_settings api_url = do
    doc ← (λ w. lift (env.get_json w.now api_url) "request failed" w)
    lift (decode_settings doc) "decode"

  -- FetchDefaultIntermediate
  unfoldable pub fetch_default_intermediate : String → Exec String String
  unfolding decode_intermediate
  fetch_default_intermediate api_url = do
    resp ← (λ w. lift (env.http_get w.now api_url) "request failed" w)
    body ← lift resp.body "read"
    doc ← lift (env.first_json body) "decode"
    lift (decode_intermediate doc) "decode"
