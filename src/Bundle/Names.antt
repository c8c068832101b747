-- ===== src/Bundle/Names.antt =====
-- src/patchharbor/bundle_names.py and archive_policy.py: the names of bundles and of the archive
-- directory. `casefold` and `lower` of `str` are parameters: tables of Unicode.
use patch_harbor.Base.{
  ℕ, Bool, false, ◌&&◌, ◌||◌, not, List, [], ◌∷◌, ◌++◌, ◌=ℕ◌, leb, length, all, map, codes,
  contains, if◌then◌else◌, Result, ok, ◌>>=◌, ◌>>◌, require, ◌==◌, nat_eq,
}
use patch_harbor.Models.{ValueError, value_error}
use patch_harbor.Bundle.Member.{
  Text, text_eq, is_segment_char, ends_with, stem, upper_char, windows_reserved_names, is_empty,
}

-- `text.endswith(suffix)`
unfoldable pub ends_with_text : Text → Text → Bool
unfolding text_eq
ends_with_text suffix [] = suffix == []
ends_with_text suffix (c ∷ cs) = let rest = ends_with_text suffix cs in suffix == c ∷ cs || rest

abbrev pub browser_temp_suffixes : List Text
browser_temp_suffixes =
    map codes (".crdownload" ∷ ".download" ∷ ".opdownload" ∷ ".part" ∷ ".partial" ∷ ".tmp" ∷ [])

unfoldable pub ends_with_any : List Text → Text → Bool
unfolding ends_with_text
ends_with_any [] name = false
ends_with_any (s ∷ ss) name = ends_with_text s name || ends_with_any ss name

unfoldable pub has_two_dots : Text → Bool
has_two_dots [] = false
has_two_dots (c ∷ []) = false
has_two_dots (c ∷ d ∷ cs) = let rest = has_two_dots (d ∷ cs) in c =ℕ b'.' && d =ℕ b'.' || rest

abbrev pub is_alphanumeric : ℕ → Bool
is_alphanumeric c = leb b'A' c && leb c b'Z' || leb b'a' c && leb c b'z' || leb b'0' c && leb c b'9'

unfoldable pub has_alphanumeric : Text → Bool
has_alphanumeric [] = false
has_alphanumeric (c ∷ cs) = is_alphanumeric c || has_alphanumeric cs

-- The tests of a suffix that is not empty; `isalnum` is asked of the characters of the pattern.
unfoldable pub is_portable_suffix : Text → Bool
unfolding is_segment_char ends_with has_two_dots has_alphanumeric
is_portable_suffix value =
    leb (length value) 32
    && all is_segment_char value
    && not (ends_with b'.' value)
    && not (has_two_dots value)
    && has_alphanumeric value

module _ (casefold lower : Text → Text) where
  -- `is_browser_temporary_name`
  unfoldable pub is_browser_temporary_name : Text → Bool
  unfolding ends_with_any
  is_browser_temporary_name name = ends_with_any browser_temp_suffixes (casefold name)

  -- `validate_bundle_suffix`
  unfoldable pub validate_bundle_suffix : Text → Result ValueError Text
  unfolding is_portable_suffix is_browser_temporary_name
  validate_bundle_suffix value = if is_empty value then ok value else (do
    require (is_portable_suffix value) value_error
    require (not (is_browser_temporary_name value)) value_error
    ok value)

  -- `append_bundle_suffix`
  unfoldable pub append_bundle_suffix : Text → Text → Result ValueError Text
  unfolding ends_with_text validate_bundle_suffix
  append_bundle_suffix filename suffix = do
    require (ends_with_text (codes ".zip") (lower filename)) value_error
    checked ← validate_bundle_suffix suffix
    ok (filename ++ checked)

abbrev pub reserved_names : List Text
reserved_names = codes "CONIN$" ∷ codes "CONOUT$" ∷ windows_reserved_names

unfoldable pub is_portable_folder : Text → Bool
unfolding is_segment_char ends_with stem
is_portable_folder value =
    leb 1 (length value)
    && leb (length value) 128
    && all is_segment_char value
    && not (contains (codes "." ∷ codes ".." ∷ []) value)
    && not (ends_with b'.' value)
    && not (contains reserved_names (map upper_char (stem value)))

-- `validate_archive_directory`
unfoldable pub validate_archive_directory : Text → Result ValueError Text
unfolding is_portable_folder
validate_archive_directory value =
    if is_empty value
    then ok value
    else (do require (is_portable_folder value) value_error; ok value)
