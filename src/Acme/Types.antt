-- ===== src/Acme/Types.antt =====
-- internal/acme/acme_types.go: the stored structs and their JSON. A status is a Go string, so a
-- file may hold any text there. Times are seconds; 0 is Go's zero time. `PublicKey` of an account
-- (tag "-", never read or written) is left out; `Error` of a challenge is never set, so it is too.
pub mod RoundTrip
use ad_pki_ca.Base.{ℕ, Option, none, some, List, [], ◌∷◌, String}
use ad_pki_ca.Json.{
  Json, Fields, str, stamp, arr, obj, end, field, get, to_str, to_time, to_time?, to_fields,
  to_list, decode_str, encode_items, omit_str, omit_time, omit_list, ◌>>=◌,
}

-- AccountStatus
abbrev pub account_valid : String
account_valid = "valid"

abbrev pub account_deactivated : String
account_deactivated = "deactivated"

abbrev account_revoked : String
account_revoked = "revoked"

abbrev pub account_statuses : List String
account_statuses = account_valid ∷ account_deactivated ∷ account_revoked ∷ []

-- OrderStatus
abbrev pub order_pending : String
order_pending = "pending"

abbrev pub order_ready : String
order_ready = "ready"

abbrev pub order_valid : String
order_valid = "valid"

abbrev pub order_invalid : String
order_invalid = "invalid"

abbrev order_processing : String
order_processing = "processing"

abbrev pub order_statuses : List String
order_statuses = order_pending ∷ order_ready ∷ order_processing ∷ order_valid ∷ order_invalid ∷ []

-- AuthzStatus
abbrev pub authz_pending : String
authz_pending = "pending"

abbrev pub authz_valid : String
authz_valid = "valid"

abbrev pub authz_invalid : String
authz_invalid = "invalid"

abbrev authz_deactivated : String
authz_deactivated = "deactivated"

abbrev authz_expired : String
authz_expired = "expired"

abbrev pub authz_statuses : List String
authz_statuses =
    authz_pending ∷ authz_valid ∷ authz_invalid ∷ authz_deactivated ∷ authz_expired ∷ []

-- ChallengeStatus
abbrev pub challenge_pending : String
challenge_pending = "pending"

abbrev pub challenge_processing : String
challenge_processing = "processing"

abbrev pub challenge_valid : String
challenge_valid = "valid"

abbrev pub challenge_invalid : String
challenge_invalid = "invalid"

abbrev pub challenge_statuses : List String
challenge_statuses =
    challenge_pending ∷ challenge_processing ∷ challenge_valid ∷ challenge_invalid ∷ []

pub record Account : Type 0 where
  pub id : String
  pub status : String
  pub contact : List String
  pub public_key_jwk : String
  pub created_at : ℕ

pub record Identifier : Type 0 where
  pub kind : String
  pub value : String

pub record Order : Type 0 where
  pub id : String
  pub account_id : String
  pub status : String
  pub identifiers : List Identifier
  pub authorizations : List String
  pub finalize_url : String
  pub certificate_url : String
  pub cert_path : String
  pub not_before : Option ℕ
  pub not_after : Option ℕ
  pub expires_at : ℕ
  pub created_at : ℕ
  pub intermediate_id : String

pub record Challenge : Type 0 where
  pub id : String
  pub kind : String
  pub status : String
  pub token : String
  pub url : String
  pub validated_at : Option ℕ

pub record Authorization : Type 0 where
  pub id : String
  pub account_id : String
  pub order_id : String
  pub status : String
  pub identifier : Identifier
  pub challenges : List Challenge
  pub expires_at : ℕ
  pub created_at : ℕ

unfoldable pub encode_account : Account → Json
unfolding omit_list
encode_account a = obj (
    field "id" (str a.id) (
      field "status" (str a.status) (
        omit_list str "contact" a.contact (
          field "public_key" (str a.public_key_jwk)
            (field "created_at" (stamp a.created_at) end)))))

unfoldable pub decode_account : Json → Option Account
decode_account j = do
  fs ← to_fields j
  id ← to_str (get "id" fs)
  status ← to_str (get "status" fs)
  contact ← to_list decode_str (get "contact" fs)
  key ← to_str (get "public_key" fs)
  created ← to_time (get "created_at" fs)
  some (record {
    id = id;
    status = status;
    contact = contact;
    public_key_jwk = key;
    created_at = created;
  })

unfoldable pub encode_identifier : Identifier → Json
encode_identifier i = obj (field "type" (str i.kind) (field "value" (str i.value) end))

unfoldable pub decode_identifier : Json → Option Identifier
decode_identifier j = do
  fs ← to_fields j
  kind ← to_str (get "type" fs)
  value ← to_str (get "value" fs)
  some (record { kind = kind; value = value })

unfoldable pub encode_order : Order → Json
encode_order o = obj (
    field "id" (str o.id) (
      field "account_id" (str o.account_id) (
        field "status" (str o.status) (
          field "identifiers" (arr (encode_items encode_identifier o.identifiers)) (
            field "authorizations" (arr (encode_items str o.authorizations)) (
              field "finalize" (str o.finalize_url) (
                omit_str "certificate" o.certificate_url (
                  omit_str "cert_path" o.cert_path (
                    omit_time "not_before" o.not_before (
                      omit_time "not_after" o.not_after (
                        field "expires" (stamp o.expires_at) (
                          field "created_at" (stamp o.created_at)
                            (field "intermediate_id" (str o.intermediate_id) end)))))))))))))

unfoldable pub decode_order : Json → Option Order
decode_order j = do
  fs ← to_fields j
  id ← to_str (get "id" fs)
  account ← to_str (get "account_id" fs)
  status ← to_str (get "status" fs)
  identifiers ← to_list decode_identifier (get "identifiers" fs)
  authorizations ← to_list decode_str (get "authorizations" fs)
  finalize ← to_str (get "finalize" fs)
  certificate ← to_str (get "certificate" fs)
  cert_path ← to_str (get "cert_path" fs)
  not_before ← to_time? (get "not_before" fs)
  not_after ← to_time? (get "not_after" fs)
  expires ← to_time (get "expires" fs)
  created ← to_time (get "created_at" fs)
  intermediate ← to_str (get "intermediate_id" fs)
  some (record {
    id = id;
    account_id = account;
    status = status;
    identifiers = identifiers;
    authorizations = authorizations;
    finalize_url = finalize;
    certificate_url = certificate;
    cert_path = cert_path;
    not_before = not_before;
    not_after = not_after;
    expires_at = expires;
    created_at = created;
    intermediate_id = intermediate;
  })

unfoldable pub encode_challenge : Challenge → Json
encode_challenge c = obj (
    field "id" (str c.id) (
      field "type" (str c.kind) (
        field "status" (str c.status) (
          field "token" (str c.token)
            (field "url" (str c.url) (omit_time "validated" c.validated_at end))))))

unfoldable pub decode_challenge : Json → Option Challenge
decode_challenge j = do
  fs ← to_fields j
  id ← to_str (get "id" fs)
  kind ← to_str (get "type" fs)
  status ← to_str (get "status" fs)
  token ← to_str (get "token" fs)
  url ← to_str (get "url" fs)
  validated ← to_time? (get "validated" fs)
  some (record {
    id = id;
    kind = kind;
    status = status;
    token = token;
    url = url;
    validated_at = validated;
  })

unfoldable pub encode_authz : Authorization → Json
encode_authz a = obj (
    field "id" (str a.id) (
      field "account_id" (str a.account_id) (
        field "order_id" (str a.order_id) (
          field "status" (str a.status) (
            field "identifier" (encode_identifier a.identifier) (
              field "challenges" (arr (encode_items encode_challenge a.challenges)) (
                field "expires" (stamp a.expires_at)
                  (field "created_at" (stamp a.created_at) end))))))))

-- A struct that is missing is the zero struct.
abbrev pub or_null : Option Json → Json
or_null = elim [ none ↦ Json.null | some j ↦ j ]

unfoldable pub decode_authz : Json → Option Authorization
decode_authz j = do
  fs ← to_fields j
  id ← to_str (get "id" fs)
  account ← to_str (get "account_id" fs)
  order ← to_str (get "order_id" fs)
  status ← to_str (get "status" fs)
  identifier ← decode_identifier (or_null (get "identifier" fs))
  challenges ← to_list decode_challenge (get "challenges" fs)
  expires ← to_time (get "expires" fs)
  created ← to_time (get "created_at" fs)
  some (record {
    id = id;
    account_id = account;
    order_id = order;
    status = status;
    identifier = identifier;
    challenges = challenges;
    expires_at = expires;
    created_at = created;
  })
