-- ===== src/Models.antt =====
-- src/patchharbor/models.py: the checked value types of Git object names and repository IDs.
use patch_harbor.Base.{
  ℕ, String, ◌≡◌, refl, Bool, true, false, ◌&&◌, ◌||◌, List, [], ◌∷◌, ◌++◌, arith, leb, ◌=ℕ◌,
  if◌then◌else◌, length, all, codes, Result, ok, err, ◌>>◌, require, Eq, string_discrete, string_eq,
}

-- `ValueError`, which a `__post_init__` raises.
pub data ValueError : Type 0 where
  value_error : ValueError

-- `character in "0123456789abcdef"`
unfoldable pub is_hex : ℕ → Bool
is_hex c = leb b'0' c && leb c b'9' || leb b'a' c && leb c b'f'

pub data GitObjectFormat : Type 0 where
  sha1 sha256 : GitObjectFormat

unfoldable pub object_id_hex_length : GitObjectFormat → ℕ
object_id_hex_length sha1 = 40
object_id_hex_length sha256 = 64

unfoldable pub for_hex_length : ℕ → Result ValueError GitObjectFormat
unfolding object_id_hex_length
for_hex_length n =
    if n =ℕ object_id_hex_length sha1
    then ok sha1
    else if n =ℕ object_id_hex_length sha256
    then ok sha256
    else err value_error

pub record GitObjectId : Type 0 where
  pub value : String
  pub object_format : GitObjectFormat

-- `GitObjectId.__post_init__`. A text of the hexadecimal characters above is its own `lower()`.
unfoldable pub git_object_id : String → GitObjectFormat → Result ValueError GitObjectId
unfolding object_id_hex_length is_hex
git_object_id value format = do
  require (length (codes value) =ℕ object_id_hex_length format) value_error
  require (all is_hex (codes value)) value_error
  ok (record { value = value; object_format = format })

-- One character of the canonical spelling of a version-4 UUID.
pub data UuidPlace : Type 0 where
  hex dash version variant : UuidPlace

unfoldable pub fits : UuidPlace → ℕ → Bool
unfolding is_hex
fits hex c = is_hex c
fits dash c = c =ℕ b'-'
fits version c = c =ℕ b'4'
fits variant c = c =ℕ b'8' || c =ℕ b'9' || c =ℕ b'a' || c =ℕ b'b'

abbrev hexes4 : List UuidPlace
hexes4 = hex ∷ hex ∷ hex ∷ hex ∷ []

abbrev uuid4_places : List UuidPlace
uuid4_places =
    hexes4
    ++ (hexes4
        ++ (dash
            ∷ (hexes4
                ++ (dash
                    ∷ version
                    ∷ hex
                    ∷ hex
                    ∷ hex
                    ∷ dash
                    ∷ variant
                    ∷ hex
                    ∷ hex
                    ∷ hex
                    ∷ dash
                    ∷ (hexes4 ++ (hexes4 ++ hexes4))))))

unfoldable pub fit_all : List UuidPlace → List ℕ → Bool
unfolding fits
fit_all [] [] = true
fit_all (p ∷ ps) (c ∷ cs) = fits p c && fit_all ps cs
fit_all _ _ = false

-- `UUID(value)` parses, has version 4, and prints as `value` again: exactly the canonical
-- spelling, in which the version and the variant have a place of their own.
unfoldable pub is_uuid4 : String → Bool
unfolding fit_all
is_uuid4 value = fit_all uuid4_places (codes value)

pub record RepositoryId : Type 0 where
  pub value : String

-- `RepositoryId.__post_init__`
unfoldable pub repository_id : String → Result ValueError RepositoryId
unfolding is_uuid4
repository_id value = do require (is_uuid4 value) value_error; ok (record { value = value })

unfoldable pub GitObjectFormat-discrete : Discrete GitObjectFormat
GitObjectFormat-discrete = hlevel

unfoldable pub GitObjectId-discrete : Discrete GitObjectId
GitObjectId-discrete = hlevel string_discrete

unfoldable pub RepositoryId-discrete : Discrete RepositoryId
RepositoryId-discrete = hlevel string_discrete

instance unfoldable pub git_object_format_eq : Eq GitObjectFormat
unfolding GitObjectFormat-discrete
git_object_format_eq = record { dec = GitObjectFormat-discrete }

instance unfoldable pub git_object_id_eq : Eq GitObjectId
unfolding GitObjectId-discrete string_discrete
git_object_id_eq = record { dec = GitObjectId-discrete }

instance unfoldable pub repository_id_eq : Eq RepositoryId
unfolding RepositoryId-discrete string_discrete
repository_id_eq = record { dec = RepositoryId-discrete }

-- A checked commit has the length of its format.
pub git_object_id-length :
    (value : String) (format : GitObjectFormat) {c : GitObjectId}
    → git_object_id value format ≡ ok c
    → (length (codes c.value) ≡ object_id_hex_length format) × (c.object_format ≡ format)
unfolding git_object_id
git_object_id-length value format h = ground arith

pub for_hex_length-object_id_hex_length :
    (f : GitObjectFormat) → for_hex_length (object_id_hex_length f) ≡ ok f
unfolding for_hex_length
for_hex_length-object_id_hex_length sha1 = refl
for_hex_length-object_id_hex_length sha256 = refl
