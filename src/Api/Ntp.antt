-- ===== src/Api/Ntp.antt =====
-- internal/api/system_ntp_handler.go: setting the time server. The command's run, with its time limit, is
-- the host's.
pub mod Names
use Prim.Native.Char.{Char, code}
use Prim.Native.String
use ad_pki_ca.Base.{
  ℕ, suc, Bool, true, false, not, ◌&&◌, ◌||◌, Option, none, some, ◌∷◌, String, ◌==◌, ◌<>◌, leb, eqb,
  if◌then◌else◌, trim_space,
}
use ad_pki_ca.Json.{opt_bind, Json, bool, str, obj, field, end, get, to_str, to_fields, omit_str}
use ad_pki_ca.Env.{Env, CommandEnd, finished, timed_out}
use ad_pki_ca.World.{World}
use ad_pki_ca.Api.Http.{Request, Response, json_response}

-- The number of characters; a text that has others than ASCII is refused by the pattern, whatever its bytes.
unfoldable pub text_length : String → ℕ
text_length String.[] = 0
text_length (String.◌∷◌ c s) = suc (text_length s)

-- `[a-zA-Z0-9._:-]`
abbrev pub is_server_char : Char → Bool
is_server_char c =
    let n = code c in
    (leb b'a' n && leb n b'z')
    || (leb b'A' n && leb n b'Z')
    || (leb b'0' n && leb n b'9')
    || eqb n b'.'
    || eqb n b'_'
    || eqb n b':'
    || eqb n b'-'

unfoldable pub all_server_chars : String → Bool
all_server_chars String.[] = true
all_server_chars (String.◌∷◌ c s) = is_server_char c && all_server_chars s

-- isValidNTPServer
unfoldable pub is_valid_ntp_server : String → Bool
unfolding text_length all_server_chars
is_valid_ntp_server server =
    if leb (suc 255) (text_length server)
    then false
    else not (server == "") && all_server_chars server

-- Line ends become spaces.
unfoldable pub spaced : String → String
spaced String.[] = ""
spaced (String.◌∷◌ c s) =
    let rest = spaced s in
    if eqb (code c) 13 || eqb (code c) 10 then " " <> rest else String.◌∷◌ c rest

-- cleanNTPOutput
unfoldable pub clean_ntp_output : String → String
unfolding spaced
clean_ntp_output value = trim_space (spaced value)

-- writeNTPJSON with a setNTPResponse
unfoldable pub ntp_response : ℕ → Bool → String → String → String → Response
ntp_response status done message server output = json_response status (
    obj (
      field "ok" (bool done) (
        field "message" (str message)
          (field "ntp_server" (str server) (omit_str "output" output end)))))

unfoldable pub decode_ntp_server : Json → Option String
decode_ntp_server j = opt_bind (to_fields j) λ fs. to_str (get "ntp_server" fs)

-- The answer to how the command ended.
unfoldable pub command_response : String → CommandEnd → Response
unfolding ntp_response clean_ntp_output
command_response server timed_out =
    ntp_response 504 false "Timeout while setting NTP server" server ""
command_response server (finished done output) =
    if done
    then ntp_response 200 true "NTP server configured successfully" server (clean_ntp_output output)
    else ntp_response 500 false "Failed to set NTP server" server (clean_ntp_output output)

module _ (env : Env) where
  unfoldable pub set_ntp : String → World → Response × World
  unfolding is_valid_ntp_server command_response ntp_response
  set_ntp server w =
      if server == ""
      then (ntp_response 400 false "NTP server is required" "" "", w)
      else if not (is_valid_ntp_server server)
      then (ntp_response 400 false "Invalid NTP server format" server "", w)
      else (
        command_response server (env.set_ntp w.now server),
        record w { ntp_runs = server ∷ w.ntp_runs },
      )

  abbrev pub asked_server : Request → Option String
  asked_server r = opt_bind (opt_bind r.body env.first_json) decode_ntp_server

  -- SetNTPHandler
  unfoldable pub set_ntp_handler : Request → World → Response × World
  unfolding decode_ntp_server set_ntp ntp_response
  set_ntp_handler r w =
      if not (r.method == "POST")
      then (ntp_response 405 false "Method not allowed" "" "", w)
      else elim (asked_server r) [
        | none ↦ (ntp_response 400 false "Invalid JSON body" "" "", w)
        | some server ↦ set_ntp (trim_space server) w
      ]
