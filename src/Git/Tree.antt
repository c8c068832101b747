-- ===== src/Git/Tree.antt =====
-- The committed tree of a repository: src/patchharbor/repository_paths.py and the parser of
-- src/patchharbor/git_objects.py. A text is its code points.
use mathlib.Core.Option
use patch_harbor.Base.{
  ℕ, Bool, ◌&&◌, ◌||◌, not, is_some, Option, none, some, List, [], ◌∷◌, leb, ◌=ℕ◌, codes, length,
  all, map, before_or_equal, if◌then◌else◌, Result, ok, err, ◌>>=◌, ◌>>◌, require, ◌==◌, contains,
  lookup, insert, nat_eq,
}
use patch_harbor.Models.{GitObjectFormat, object_id_hex_length, is_hex}
use patch_harbor.Bundle.Member.{
  Text, text_eq, ends_with, stem, segments, add_to_first, without_last,
}
use patch_harbor.Git.History.{HistoryError, malformed_tree, unsupported_path, present_or_raise}

abbrev windows_invalid_path_characters : List ℕ
windows_invalid_path_characters = codes "<>:\"\\|?*"

abbrev reserved_windows_device_names : List Text
reserved_windows_device_names = map codes (
    "con" ∷ "prn" ∷ "aux" ∷ "nul" ∷ "conin$" ∷ "conout$" ∷ "clock$" ∷ "com1" ∷ "com2" ∷ "com3"
    ∷ "com4" ∷ "com5" ∷ "com6" ∷ "com7" ∷ "com8" ∷ "com9" ∷ "lpt1" ∷ "lpt2" ∷ "lpt3" ∷ "lpt4"
    ∷ "lpt5" ∷ "lpt6" ∷ "lpt7" ∷ "lpt8" ∷ "lpt9" ∷ [])

-- `RepositoryRelativePath`; its parts are those of `decoded`.
pub record RepositoryRelativePath : Type 0 where
  pub original_bytes : List ℕ
  pub decoded : Text
  pub collision_key : Text

abbrev is_plain_character : ℕ → Bool
is_plain_character c =
    not (leb c 31 || c =ℕ 127) && not (contains windows_invalid_path_characters c)

-- `b.split(separator)` on bytes
unfoldable pub split_on : ℕ → List ℕ → List (List ℕ)
split_on separator [] = [] ∷ []
split_on separator (c ∷ cs) =
    let rest = split_on separator cs in if c =ℕ separator then [] ∷ rest else add_to_first c rest

-- `b.split(separator, 1)` on bytes, if the separator is there.
unfoldable pub split_once : ℕ → List ℕ → Option (List ℕ × List ℕ)
split_once separator [] = none
split_once separator (c ∷ cs) =
    let rest = split_once separator cs in
    if c =ℕ separator then some ([], cs) else Option.map (λ o. (c ∷ o.0, o.1)) rest

-- `_nul_records`
unfoldable pub nul_records : List ℕ → Result HistoryError (List (List ℕ))
unfolding ends_with split_on without_last text_eq
nul_records [] = ok []
nul_records (c ∷ cs) = do
  require (ends_with 0 (c ∷ cs)) malformed_tree
  require (not (contains (split_on 0 (without_last (c ∷ cs))) [])) malformed_tree
  ok (split_on 0 (without_last (c ∷ cs)))

-- `_object_id`: the object ID by its text.
unfoldable pub object_id : List ℕ → GitObjectFormat → Result HistoryError (List ℕ)
unfolding object_id_hex_length is_hex
object_id raw format = do
  require (length raw =ℕ object_id_hex_length format && all is_hex raw) malformed_tree
  ok raw

-- `by_path`: the mode and the object of each path.
abbrev pub ByPath : Type 0
ByPath = List (List ℕ × (List ℕ × List ℕ))

abbrev supported_base_modes : List (List ℕ)
supported_base_modes = map codes ("100644" ∷ "100755" ∷ [])

unfoldable pub added_entry :
    GitObjectFormat → ByPath → List ℕ → List (List ℕ) → Result HistoryError ByPath
unfolding object_id lookup insert text_eq
added_entry format by_path raw_path (mode ∷ object_type ∷ raw_object_id ∷ []) = do
  require (contains supported_base_modes mode && object_type == codes "blob") malformed_tree
  require (not (is_some (lookup raw_path by_path))) malformed_tree
  o ← object_id raw_object_id format
  ok (insert raw_path (mode, o) by_path)
added_entry format by_path raw_path fields = err malformed_tree

-- The loop of `parse_base_tree_entries`
unfoldable pub tree_loop : GitObjectFormat → List (List ℕ) → ByPath → Result HistoryError ByPath
unfolding split_once split_on added_entry
tree_loop format [] by_path = ok by_path
tree_loop format (line ∷ lines) by_path = do
  (metadata, raw_path) ← present_or_raise malformed_tree (split_once 9 line)
  next ← added_entry format by_path raw_path (split_on 32 metadata)
  tree_loop format lines next

-- The entries of a tree: the path, the mode and the object of each.
abbrev pub TreeEntries : Type 0
TreeEntries = List (RepositoryRelativePath × (List ℕ × List ℕ))

-- The decoding of UTF-8 and the case folding of Unicode are parameters.
module _ (decode : List ℕ → Option Text) (casefold : Text → Text) where
  -- The tests of `RepositoryRelativePath.__post_init__` on a part
  unfoldable pub is_portable_part : Text → Bool
  unfolding ends_with stem text_eq nat_eq
  is_portable_part part =
      not (contains ([] ∷ codes "." ∷ codes ".." ∷ []) part)
      && all is_plain_character part
      && not (ends_with b'.' part || ends_with b' ' part)
      && not (contains (codes ".git" ∷ codes ".patchharbor" ∷ []) (casefold part))
      && not (contains reserved_windows_device_names (stem (casefold part)))

  -- `RepositoryRelativePath.__post_init__`
  unfoldable pub repository_relative_path : List ℕ → Result HistoryError RepositoryRelativePath
  unfolding segments is_portable_part
  repository_relative_path raw = do
    decoded ← present_or_raise unsupported_path (decode raw)
    require (all is_portable_part (segments decoded)) unsupported_path
    ok (record { original_bytes = raw; decoded = decoded; collision_key = casefold decoded })

  -- `previous.original_bytes != path.original_bytes` behind `by_collision_key.setdefault`
  unfoldable pub claim_key :
      RepositoryRelativePath
      → Option RepositoryRelativePath
      → List (Text × RepositoryRelativePath)
      → Result HistoryError (List (Text × RepositoryRelativePath))
  unfolding insert text_eq
  claim_key p none keys = ok (insert p.collision_key p keys)
  claim_key p (some previous) keys = do
    require (previous.original_bytes == p.original_bytes) unsupported_path
    ok keys

  -- The loop of `validate_repository_paths`. The keys of a `dict` have no repetition.
  unfoldable pub validate_paths :
      ByPath → List (Text × RepositoryRelativePath) → Result HistoryError TreeEntries
  unfolding repository_relative_path claim_key lookup text_eq
  validate_paths [] keys = ok []
  validate_paths ((raw, entry) ∷ by_path) keys = do
    p ← repository_relative_path raw
    next ← claim_key p (lookup p.collision_key keys) keys
    rest ← validate_paths by_path next
    ok ((p, entry) ∷ rest)

  unfoldable pub insert_entry :
      RepositoryRelativePath × (List ℕ × List ℕ) → TreeEntries → TreeEntries
  unfolding before_or_equal
  insert_entry e [] = e ∷ []
  insert_entry e (f ∷ entries) =
      let rest = insert_entry e entries in
      if before_or_equal e.0.original_bytes f.0.original_bytes then e ∷ f ∷ entries else f ∷ rest

  -- `sorted(by_bytes.values())`, with what each path has in `by_path`.
  unfoldable pub sort_entries : TreeEntries → TreeEntries
  unfolding insert_entry
  sort_entries [] = []
  sort_entries (e ∷ entries) = insert_entry e (sort_entries entries)

  -- `parse_base_tree_entries`
  unfoldable pub parse_base_tree_entries :
      List ℕ → GitObjectFormat → Result HistoryError TreeEntries
  unfolding nul_records tree_loop validate_paths sort_entries
  parse_base_tree_entries raw format = do
    lines ← nul_records raw
    by_path ← tree_loop format lines []
    entries ← validate_paths by_path []
    ok (sort_entries entries)
