-- ===== src/Json.antt =====
-- The documents that `json.loads` returns and `json.dumps` takes: src/patchharbor/json_document.py and
-- the object hooks of the parsers that read such documents.
use patch_harbor.Base.{
  ℕ, String, Bool, true, ◌&&◌, not, Option, none, some, List, [], ◌∷◌, if◌then◌else◌, Result, ok,
  err, ◌==◌, contains, string_eq,
}
use patch_harbor.Models.{ValueError, value_error}

-- `number` is an `int` that is not negative, `whole_float` a `float` that equals one; any other number
-- is `other_number`.
mutual
  pub data Json : Type 0 where
    null : Json
    boolean : Bool → Json
    number : ℕ → Json
    whole_float : ℕ → Json
    other_number : Json
    text : String → Json
    array : Items → Json
    object : Fields → Json

  pub data Items : Type 0 where
    nil : Items
    item : Json → Items → Items

  pub data Fields : Type 0 where
    end : Fields
    field : String → Json → Fields → Fields

unfoldable pub keys : Fields → List String
keys end = []
keys (field k v fs) = k ∷ keys fs

-- `document[key]`, `document.get(key)`; `none` is a missing key.
unfoldable pub get : Fields → String → Option Json
get end key = none
get (field k v fs) key = if k == key then some v else get fs key

unfoldable pub subset : List String → List String → Bool
subset [] ys = true
subset (x ∷ xs) ys = contains ys x && subset xs ys

-- `set(document) == expected`
unfoldable pub has_exactly : List String → Fields → Bool
unfolding subset keys
has_exactly expected fs = subset (keys fs) expected && subset expected (keys fs)

-- The hook `object_pairs_hook` sees every object of the document, and raises on a repeated key.
unfoldable mutual
  unfolding keys string_eq

  pub has_unique_keys : Json → Bool
  has_unique_keys (array xs) = items_have_unique_keys xs
  has_unique_keys (object fs) = fields_have_unique_keys fs
  has_unique_keys _ = true

  pub items_have_unique_keys : Items → Bool
  items_have_unique_keys nil = true
  items_have_unique_keys (item v xs) = has_unique_keys v && items_have_unique_keys xs

  pub fields_have_unique_keys : Fields → Bool
  fields_have_unique_keys end = true
  fields_have_unique_keys (field k v fs) =
      not (contains (keys fs) k) && has_unique_keys v && fields_have_unique_keys fs

-- `_require_string`
unfoldable pub require_string : Fields → String → Result ValueError String
unfolding get
require_string fs key = elim (get fs key) [ some (text s) ↦ ok s | _ ↦ err value_error ]

-- What a field that may be absent or null holds: `none`, a text, or another type, which raises.
unfoldable pub optional_string : Option Json → Result ValueError (Option String)
optional_string none = ok none
optional_string (some null) = ok none
optional_string (some (text s)) = ok (some s)
optional_string (some _) = err value_error

unfoldable pub string_or_null : Option String → Json
string_or_null none = null
string_or_null (some s) = text s
