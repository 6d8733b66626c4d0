-- ===== src/Json.antt =====
-- JSON values, as `encoding/json` reads and writes them, up to their text, and the readers that
-- `json.Unmarshal` applies to a struct's fields. A `stamp` is a string that holds a time in
-- RFC 3339 (`time.Time`), here its seconds.
pub mod Laws
use ad_pki_ca.Base.{
  ℕ, Bool, true, false, Option, none, some, List, [], ◌∷◌, String, ◌==◌, if◌then◌else◌, leb, eqb,
  ◌&&◌, ◌-◌,
}
use Prim.Native.Char.{Char, code}
use Prim.Native.String

mutual
  pub data Json : Type 0 where
    null : Json
    bool : Bool → Json
    num : ℕ → Json
    str : String → Json
    stamp : ℕ → Json
    arr : Items → Json
    obj : Fields → Json

  pub data Items : Type 0 where
    nil : Items
    cons : Json → Items → Items

  pub data Fields : Type 0 where
    end : Fields
    field : String → Json → Fields → Fields

infixl 5 ◌>>=◌
abbrev pub ◌>>=◌ {ℓ κ} : {A : Type ℓ} {B : Type κ} → Option A → (A → Option B) → Option B
none >>= f = none
some a >>= f = f a

-- The same where a module's `>>=` is that of actions.
abbrev pub opt_bind {ℓ κ} : {A : Type ℓ} {B : Type κ} → Option A → (A → Option B) → Option B
opt_bind = ◌>>=◌

-- The character that stands for those that differ in case only: for letters of ASCII the capital, also
-- for the long s and the sign of the kelvin.
abbrev pub fold_code : ℕ → ℕ
fold_code n =
    if leb 97 n && leb n 122
    then n - 32
    else if eqb n 383
    then b'S'
    else if eqb n 8490
    then b'K'
    else n

-- Keys are one without regard to case.
abbrev pub same_key : String → String → Bool
same_key String.[] String.[] = true
same_key String.[] (String.◌∷◌ d t) = false
same_key (String.◌∷◌ c s) String.[] = false
same_key (String.◌∷◌ c s) (String.◌∷◌ d t) =
    let rest = same_key s t in eqb (fold_code (code c)) (fold_code (code d)) && rest

-- The value of a key, in whatever case it is written: the last one, if it is there twice.
unfoldable pub get : String → Fields → Option Json
get k end = none
get k (field j v fs) = elim (get k fs) [
  | some w ↦ some w
  | none ↦ if same_key j k then some v else none
]

-- A missing key and `null` leave a field at its zero value; a value of another kind is an error.
unfoldable pub to_str : Option Json → Option String
to_str none = some ""
to_str (some null) = some ""
to_str (some (str s)) = some s
to_str _ = none

unfoldable pub to_bool : Option Json → Option Bool
to_bool none = some false
to_bool (some null) = some false
to_bool (some (bool b)) = some b
to_bool _ = none

unfoldable pub to_num : Option Json → Option ℕ
to_num none = some 0
to_num (some null) = some 0
to_num (some (num n)) = some n
to_num _ = none

-- `time.Time`; the zero time is 0.
unfoldable pub to_time : Option Json → Option ℕ
to_time none = some 0
to_time (some null) = some 0
to_time (some (stamp t)) = some t
to_time _ = none

-- `*time.Time`
unfoldable pub to_time? : Option Json → Option (Option ℕ)
to_time? none = some none
to_time? (some null) = some none
to_time? (some (stamp t)) = some (some t)
to_time? _ = none

-- The fields of an object; `null` has none.
unfoldable pub to_fields : Json → Option Fields
to_fields null = some end
to_fields (obj fs) = some fs
to_fields _ = none

module _ {ℓ} {A : Type ℓ} (decode : Json → Option A) where
  unfoldable pub decode_items : Items → Option (List A)
  decode_items nil = some []
  decode_items (cons j js) = do a ← decode j; some (a ∷ (← decode_items js))

  -- `[]T`; nil and the empty slice are one.
  unfoldable pub to_list : Option Json → Option (List A)
  unfolding decode_items
  to_list none = some []
  to_list (some null) = some []
  to_list (some (arr js)) = decode_items js
  to_list _ = none

unfoldable pub encode_items {ℓ} : {A : Type ℓ} → (A → Json) → List A → Items
encode_items encode [] = nil
encode_items encode (a ∷ as') = cons (encode a) (encode_items encode as')

-- A string among the items of a list.
unfoldable pub decode_str : Json → Option String
unfolding to_str
decode_str j = to_str (some j)

-- A field with `omitempty`.
unfoldable pub omit_str : String → String → Fields → Fields
omit_str k s fs = if s == "" then fs else field k (str s) fs

unfoldable pub omit_time : String → Option ℕ → Fields → Fields
omit_time k none fs = fs
omit_time k (some t) fs = field k (stamp t) fs

unfoldable pub omit_list {ℓ} : {A : Type ℓ} → (A → Json) → String → List A → Fields → Fields
unfolding encode_items
omit_list encode k [] fs = fs
omit_list encode k (a ∷ as') fs = field k (arr (encode_items encode (a ∷ as'))) fs
