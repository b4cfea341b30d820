-- ===== src/Json.antt =====
-- encoding/json, as far as the program uses it: JSON documents as trees, and the rules by which
-- `json.Unmarshal` fills the fields of a struct. The layout of a document (white space, escapes)
-- is forgotten; the order of an object's members and repeated members are kept.
pub mod Laws
use live_stream_danmaku.Base.{
  ℕ, ◌≡◌, refl, Bool, List, [], ◌∷◌, map, Option, none, some, ◌==◌, list_eq, nat_eq, leb, ◌&&◌, ◌-◌,
  if◌then◌else◌,
}
use live_stream_danmaku.Text.{Text, to_valid_utf8}
use live_stream_danmaku.Text.Decimal.{
  NumResult, parsed, parse_uint, format_uint, ℤ, parse_int, format_int,
}

-- A number is its literal, which Go hands to strconv.
mutual
  pub data Json : Type 0 where
    null : Json
    bool : Bool → Json
    num : Text → Json
    str : Text → Json
    arr : Items → Json
    obj : Fields → Json

  pub data Items : Type 0 where
    nil : Items
    cons : Json → Items → Items

  pub data Fields : Type 0 where
    end : Fields
    field : Text → Json → Fields → Fields

-- A []byte of the program: nil, bytes that are no JSON document, or a document.
pub data Bytes : Type 0 where
  empty malformed : Bytes
  doc : Json → Bytes

infixl 5 ◌>>=◌
abbrev pub ◌>>=◌ {ℓ κ} : {A : Type ℓ} {B : Type κ} → Option A → (A → Option B) → Option B
none >>= f = none
some a >>= f = f a

pub bind-some :
    {A B : Type 0} (m : Option A) {f : A → Option B} {b : B}
    → (m >>= f) ≡ some b
    → (a : A) × (m ≡ some a) × (f a ≡ some b)
bind-some none e = cc
bind-some (some a) e = (a, refl, e)

-- The smallest rune that folds to `c`, as far as ASCII letters are concerned: U+017F folds to `S`
-- and U+212A, the Kelvin sign, to `K`.
unfoldable pub fold_rune : ℕ → ℕ
fold_rune c =
    if leb b'a' c && leb c b'z'
    then c - 32
    else if c == 0x17f
    then b'S'
    else if c == 0x212a
    then b'K'
    else c

-- Struct fields are found by their JSON name, whatever the case of its letters.
unfoldable pub same_name : Text → Text → Bool
unfolding fold_rune
same_name key name = map fold_rune key == map fold_rune name

module _ {ℓ} {A : Type ℓ} (set_field : A → Text → Json → Option A) where
  -- Members are taken in order; a member that does not fit its field is an error.
  unfoldable pub set_fields : A → Fields → Option A
  set_fields a end = some a
  set_fields a (field k v rest) = set_field a k v >>= λ a'. set_fields a' rest

  -- `json.Unmarshal(b, &a)` for a struct: `null` leaves it as it is.
  unfoldable pub unmarshal_struct : A → Bytes → Option A
  unfolding set_fields
  unmarshal_struct a (doc null) = some a
  unmarshal_struct a (doc (obj fs)) = set_fields a fs
  unmarshal_struct a _ = none

-- The values of single fields; `old` is what stands there before, which `null` keeps.
unfoldable pub get_uint : ℕ → Json → Option ℕ
get_uint old null = some old
get_uint old (num t) = elim (parse_uint t) [ parsed n ↦ some n | _ ↦ none ]
get_uint old _ = none

unfoldable pub get_int : ℤ → Json → Option ℤ
get_int old null = some old
get_int old (num t) = parse_int t
get_int old _ = none

unfoldable pub get_text : Text → Json → Option Text
get_text old null = some old
get_text old (str s) = some s
get_text old _ = none

-- `json.Marshal` of a uint64, an int and a string.
unfoldable pub put_uint : ℕ → Json
put_uint n = num (format_uint n)

unfoldable pub put_int : ℤ → Json
put_int z = num (format_int z)

unfoldable pub put_text : Text → Json
put_text s = str (to_valid_utf8 s)

-- `json.Marshal` of a json.RawMessage: nil is written as `null`, and invalid bytes are an error.
unfoldable pub put_raw : Bytes → Option Json
put_raw empty = some null
put_raw malformed = none
put_raw (doc j) = some j
