-- ===== src/Acme/Types/RoundTrip.antt =====
-- internal/acme/acme_types.go: the structs and their JSON, there and back.
use ad_pki_ca.Base.{◌≡◌, refl, some, eq_iff, arith}
use ad_pki_ca.Json.{
  str, get, to_str, to_time, to_time?, to_fields, to_list, decode_str, omit_str, omit_time,
  omit_list,
}
use ad_pki_ca.Json.Laws.{decode_items-encode_items, decode_str-str}
use ad_pki_ca.Acme.Types.{
  Account, Identifier, Order, Challenge, Authorization, encode_account, decode_account,
  encode_identifier, decode_identifier, encode_order, decode_order, encode_challenge,
  decode_challenge, encode_authz, decode_authz,
}

-- An account is decoded from its JSON as it was encoded.
pub decode_account-encode_account : (a : Account) → decode_account (encode_account a) ≡ some a
unfolding decode_account encode_account get to_str to_time to_fields to_list omit_list
decode_account-encode_account a =
    ground (arith, decode_items-encode_items str decode_str decode_str-str a.contact)

pub decode_identifier-encode_identifier :
    (i : Identifier) → decode_identifier (encode_identifier i) ≡ some i
unfolding decode_identifier encode_identifier get to_str to_fields
decode_identifier-encode_identifier i = refl

pub decode_challenge-encode_challenge :
    (c : Challenge) → decode_challenge (encode_challenge c) ≡ some c
unfolding decode_challenge encode_challenge get to_str to_fields to_time? omit_time
decode_challenge-encode_challenge c = ground arith

-- An authorization is decoded from its JSON, with its identifier and all its challenges, as it was
-- encoded.
pub decode_authz-encode_authz : (a : Authorization) → decode_authz (encode_authz a) ≡ some a
unfolding decode_authz encode_authz get to_str to_time to_fields to_list
decode_authz-encode_authz a = ground (
  arith,
  decode_identifier-encode_identifier a.identifier,
  decode_items-encode_items encode_challenge decode_challenge decode_challenge-encode_challenge
      a.challenges,
)

-- An order is decoded from its JSON as it was encoded, fields left out for being empty included.
pub decode_order-encode_order : (o : Order) → decode_order (encode_order o) ≡ some o
unfolding decode_order encode_order get to_str to_time to_time? to_fields to_list omit_time omit_str
decode_order-encode_order o = ground (
  arith,
  decode_items-encode_items encode_identifier decode_identifier decode_identifier-encode_identifier
      o.identifiers,
  decode_items-encode_items str decode_str decode_str-str o.authorizations,
  eq_iff o.certificate_url "",
  eq_iff o.cert_path "",
)
