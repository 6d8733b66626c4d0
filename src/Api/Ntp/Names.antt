-- ===== src/Api/Ntp/Names.antt =====
-- internal/api/system_ntp_handler.go: with which names the command is run.
use Prim.Native.Char.{Char, code}
use std.Path.{subst}
use ad_pki_ca.Env.{CommandEnd, finished, timed_out}
use ad_pki_ca.Base.{◌∷◌, ℕ, sym}
use ad_pki_ca.Base.{
  ◌≤◌, ◌≡◌, refl, ap, ◌⊎◌, inl, inr, true, false, none, some, String, ◌==◌, arith, Bool-cases,
  Option-cases, trim_space, eq_iff,
}
use ad_pki_ca.Env.{Env}
use ad_pki_ca.World.{World}
use ad_pki_ca.Api.Http.{Request, Response}
use ad_pki_ca.Api.Ntp.{
  text_length, is_server_char, all_server_chars, is_valid_ntp_server, asked_server,
  command_response, set_ntp, set_ntp_handler, ntp_response,
}

-- A letter, a digit, or one of four signs: no space, no quote, nothing else a shell reads.
abbrev pub IsServerChar : Char → Type 0
IsServerChar c =
    ((b'a' ≤ code c) × (code c ≤ b'z'))
    ⊎ ((b'A' ≤ code c) × (code c ≤ b'Z'))
    ⊎ ((b'0' ≤ code c) × (code c ≤ b'9'))
    ⊎ (code c ≡ b'.')
    ⊎ (code c ≡ b'_')
    ⊎ (code c ≡ b':')
    ⊎ (code c ≡ b'-')

abbrev pub AllServerChars : String → Type 0
AllServerChars String.[] = Unit
AllServerChars (String.◌∷◌ c s) = IsServerChar c × AllServerChars s

pub record IsServerName (s : String) : Type 0 where
  pub chars : AllServerChars s
  pub some_char : 1 ≤ text_length s
  pub no_more : text_length s ≤ 255

is_server_char-IsServerChar : (c : Char) → is_server_char c ≡ true → IsServerChar c
is_server_char-IsServerChar c h = ground (arith, h)

server_char : (c : Char) → IsServerChar c → is_server_char c ≡ true
server_char c h = ground (arith, h)

all_server_chars-AllServerChars : (s : String) → all_server_chars s ≡ true → AllServerChars s
unfolding all_server_chars
all_server_chars-AllServerChars String.[] h = tt
all_server_chars-AllServerChars (String.◌∷◌ c s) h =
    (is_server_char-IsServerChar c (ground arith), all_server_chars-AllServerChars s (ground arith))

named_length : (s : String) → (s == "") ≡ false → 1 ≤ text_length s
unfolding text_length
named_length String.[] h = absurd (ground (arith, h))
named_length (String.◌∷◌ c s) h = omega arith

is_valid_ntp_server-IsServerName : (s : String) → is_valid_ntp_server s ≡ true → IsServerName s
unfolding is_valid_ntp_server
is_valid_ntp_server-IsServerName s h = record {
  chars = all_server_chars-AllServerChars s (ground arith);
  some_char = named_length s (ground arith);
  no_more = ground arith;
}

AllServerChars-all_server_chars : (s : String) → AllServerChars s → all_server_chars s ≡ true
unfolding all_server_chars
AllServerChars-all_server_chars String.[] h = refl
AllServerChars-all_server_chars (String.◌∷◌ c s) h =
    ground (arith, server_char c h.0, AllServerChars-all_server_chars s h.1)

not_named : (s : String) → 1 ≤ text_length s → (s == "") ≡ false
unfolding text_length
not_named s h = elim (Bool-cases (s == "")) [
  | inr named ↦ named
  | inl empty ↦
      let none_there : text_length s ≡ text_length "" = ap text_length ((eq_iff s "").0 empty) in
      absurd (omega (arith, h, none_there))
]

refused_name : (s : String) → is_valid_ntp_server s ≡ false → IsServerName s → ⊥
unfolding is_valid_ntp_server
refused_name s h n =
    ground (arith, h, n.no_more, not_named s n.some_char, AllServerChars-all_server_chars s n.chars)

empty_name : (s : String) → (s == "") ≡ true → IsServerName s → ⊥
empty_name s h n = ground (arith, h, not_named s n.some_char)

module _ (env : Env) where
  -- Why no command is run.
  abbrev pub IsImproper : Request → Type 0
  IsImproper r =
      ((r.method == "POST") ≡ false)
      ⊎ (asked_server env r ≡ none)
      ⊎ ((asked : String) × (asked_server env r ≡ some asked)
          × (IsServerName (trim_space asked) → ⊥))

  -- The status that says how the command ended: in success, in failure, or not in time.
  abbrev pub IsStatusOf : CommandEnd → ℕ → Type 0
  IsStatusOf timed_out status = status ≡ 504
  IsStatusOf (finished true output) status = status ≡ 200
  IsStatusOf (finished false output) status = status ≡ 500

  -- How a request is answered: refused, with no run of the command, or by one run for a proper name.
  pub data IsAnswered (r : Request) (w : World) (resp : Response) (v : World) : Type 0 where
    refused :
        IsImproper r → (resp.status ≡ 400) ⊎ (resp.status ≡ 405) → v ≡ w → IsAnswered r w resp v
    ran :
        (asked : String)
        → asked_server env r ≡ some asked
        → IsServerName (trim_space asked)
        → IsStatusOf (env.set_ntp w.now (trim_space asked)) resp.status
        → v ≡ record w { ntp_runs = trim_space asked ∷ w.ntp_runs }
        → IsAnswered r w resp v

  command_response-IsStatusOf :
      (server : String) (e : CommandEnd) → IsStatusOf e (command_response server e).status
  unfolding command_response ntp_response
  command_response-IsStatusOf server timed_out = refl
  command_response-IsStatusOf server (finished true output) = refl
  command_response-IsStatusOf server (finished false output) = refl

  ran_so :
      (server : String) (w : World)
      → (server == "") ≡ false
      → is_valid_ntp_server server ≡ true
      → (set_ntp env server w).0 ≡ command_response server (env.set_ntp w.now server)
  unfolding set_ntp
  ran_so server w named valid = ground (arith, named, valid)

  set_ntp-IsAnswered :
      (r : Request) (asked : String) (w : World)
      → asked_server env r ≡ some asked
      → IsAnswered r w (set_ntp env (trim_space asked) w).0 (set_ntp env (trim_space asked) w).1
  unfolding set_ntp ntp_response
  set_ntp-IsAnswered r asked w h = elim (Bool-cases (trim_space asked == "")) [
    | inl empty ↦
        refused (inr (inr (asked, h, empty_name (trim_space asked) empty)))
          (inl (ground (arith, empty))) (ground (arith, empty))
    | inr named ↦ elim (Bool-cases (is_valid_ntp_server (trim_space asked))) [
      | inr odd ↦
          refused (inr (inr (asked, h, refused_name (trim_space asked) odd)))
            (inl (ground (arith, named, odd))) (ground (arith, named, odd))
      | inl valid ↦
          ran asked h (is_valid_ntp_server-IsServerName (trim_space asked) valid)
            (subst (λ (x : Response). IsStatusOf (env.set_ntp w.now (trim_space asked)) x.status)
              (sym (ran_so (trim_space asked) w named valid))
              (command_response-IsStatusOf (trim_space asked)
                (env.set_ntp w.now (trim_space asked))))
            (ground (arith, named, valid))
    ]
  ]

  -- The command is run once with the name that a POST asks for, without outer spaces, if this is 1 to 255
  -- letters, digits, dots, underscores, colons and hyphens, and the answer's status says whether it
  -- succeeded, failed or took too long; any other request is refused with 400 or 405, and nothing run.
  pub set_ntp_handler-IsAnswered :
      (r : Request) (w : World)
      → IsAnswered r w (set_ntp_handler env r w).0 (set_ntp_handler env r w).1
  unfolding set_ntp_handler ntp_response
  set_ntp_handler-IsAnswered r w = elim (Bool-cases (r.method == "POST")) [
    | inr other ↦ refused (inl other) (inr (ground (arith, other))) (ground (arith, other))
    | inl post ↦ elim (Option-cases (asked_server env r)) [
      | inl n ↦ refused (inr (inl n)) (inl (ground (arith, post, n))) (ground (arith, post, n))
      | inr (asked, k) ↦ rw (post, k) (set_ntp-IsAnswered r asked w k)
    ]
  ]
