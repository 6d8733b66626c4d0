-- ===== src/Json/Laws.antt =====
-- What is written under a key is read back.
use ad_pki_ca.Base.{
  ◌≡◌, refl, Option, none, some, List, [], ◌∷◌, String, eq_iff, false, true, arith, ℕ, eqb,
}
use Prim.Native.Char.{code}
use ad_pki_ca.Json.{
  Json, Fields, str, get, to_str, to_time?, decode_items, encode_items, to_list, omit_str,
  omit_time, same_key, fold_code, omit_list, decode_str,
}

eqb_refl : (n : ℕ) → eqb n n ≡ true
eqb_refl n = ground arith

same_key_refl : (k : String) → same_key k k ≡ true
same_key_refl String.[] = refl
same_key_refl (String.◌∷◌ c k) = rw (eqb_refl (fold_code (code c))) (same_key_refl k)

module _ {ℓ} {A : Type ℓ} (encode : A → Json) (decode : Json → Option A) where
  pub decode_items-encode_items :
      ((a : A) → decode (encode a) ≡ some a)
      → (xs : List A) → decode_items decode (encode_items encode xs) ≡ some xs
  unfolding decode_items encode_items
  decode_items-encode_items h [] = refl
  decode_items-encode_items h (x ∷ xs) = simp (h, decode_items-encode_items h xs)

  pub to_list-omit_list :
      ((a : A) → decode (encode a) ≡ some a)
      → (k : String) (xs : List A) (fs : Fields) → get k fs ≡ none
      → to_list decode (get k (omit_list encode k xs fs)) ≡ some xs
  unfolding get omit_list to_list
  to_list-omit_list h k [] fs e = rw e
  to_list-omit_list h k (x ∷ xs) fs e =
      rw (e, same_key_refl k) (decode_items-encode_items h (x ∷ xs))

  pub get-omit_list :
      (j k : String) (xs : List A) (fs : Fields)
      → same_key k j ≡ false
      → get j (omit_list encode k xs fs) ≡ get j fs
  unfolding get omit_list
  get-omit_list j k [] fs e = refl
  get-omit_list j k (x ∷ xs) fs e = ground arith

pub to_str-omit_str :
    (k s : String) (fs : Fields) → get k fs ≡ none → to_str (get k (omit_str k s fs)) ≡ some s
unfolding get omit_str to_str
to_str-omit_str k s fs e = ground (arith, eq_iff s "", same_key_refl k)

pub get-omit_str :
    (j k s : String) (fs : Fields) → same_key k j ≡ false → get j (omit_str k s fs) ≡ get j fs
unfolding get omit_str
get-omit_str j k s fs e = ground arith

pub to_time?-omit_time :
    (k : String) (t : Option _) (fs : Fields)
    → get k fs ≡ none
    → to_time? (get k (omit_time k t fs)) ≡ some t
unfolding get omit_time to_time?
to_time?-omit_time k none fs e = rw e
to_time?-omit_time k (some t) fs e = ground (arith, same_key_refl k)

pub get-omit_time :
    (j k : String) (t : Option _) (fs : Fields)
    → same_key k j ≡ false
    → get j (omit_time k t fs) ≡ get j fs
unfolding get omit_time
get-omit_time j k none fs e = refl
get-omit_time j k (some t) fs e = ground arith

pub decode_str-str : (s : String) → decode_str (str s) ≡ some s
unfolding decode_str
decode_str-str s = refl
