-- ===== src/Zip/Members.antt =====
-- src/patchharbor/zip_payloads.py: the members of an archive, checked before any is read.
use patch_harbor.Base.{
  ℕ, ◌+◌, ◌/◌, ◌%◌, Bool, true, false, ◌||◌, not, Option, none, some, List, [], ◌∷◌, ◌=ℕ◌, leb,
  length, if◌then◌else◌, Result, ok, err, ◌>>=◌, ◌>>◌, require, reraise,
}
use patch_harbor.Bundle.Member.{Text, BundlePathError}
use patch_harbor.Bundle.Tree.{validate_bundle_member_paths}
use patch_harbor.Zip.Policy.{ResourcePolicy}
use patch_harbor.Zip.Modes.{validate_payload_mode}

-- The `ZipPayloadError`s, by their classes.
pub data ZipPayloadError : Type 0 where
  not_zip_archive invalid_zip_archive zip_resource_limit zip_archive_read : ZipPayloadError

-- The fields of a `zipfile.ZipInfo` that are read; `is_dir` is the answer of its method.
pub record ZipInfo : Type 0 where
  pub orig_filename : Text
  pub file_size : ℕ
  pub create_system : ℕ
  pub external_attr : ℕ
  pub is_dir : Bool

pub record ValidatedZipMember : Type 0 where
  pub entry : ZipInfo
  pub relative_path : Text
  pub is_directory : Bool
  pub unix_mode : Option ℕ

-- The loop of `_ZipReadBudget.validate_declared_entries`, with `declared_total`.
unfoldable pub validate_sizes :
    ResourcePolicy → List ZipInfo → ℕ → Result ZipPayloadError (Unit {0})
validate_sizes p [] declared_total = ok tt
validate_sizes p (e ∷ es) declared_total = do
  require (leb e.file_size p.max_content_bytes) zip_resource_limit
  require (leb (declared_total + e.file_size) p.max_zip_total_bytes) zip_resource_limit
  validate_sizes p es (declared_total + e.file_size)

-- `_ZipReadBudget.validate_declared_entries`
unfoldable pub validate_declared_entries :
    ResourcePolicy → List ZipInfo → Result ZipPayloadError (Unit {0})
unfolding validate_sizes
validate_declared_entries p entries = do
  require (leb (length entries) p.max_zip_entries) zip_resource_limit
  validate_sizes p entries 0

-- `stat.S_IFMT(external_attr >> 16)`, in units of 0o10000
unfoldable pub file_type : ZipInfo → ℕ
file_type e = e.external_attr / 65536 % 65536 / 4096

-- `file_type not in (0, stat.S_IFDIR)` and `(0, stat.S_IFREG)`, negated
unfoldable pub has_type : ℕ → ZipInfo → Bool
unfolding file_type
has_type kind e = file_type e =ℕ 0 || file_type e =ℕ kind

unfoldable pub directory_member : ZipInfo → Result ZipPayloadError Bool
unfolding has_type
directory_member e = do
  require (e.file_size =ℕ 0) invalid_zip_archive
  require (not (e.create_system =ℕ 3) || has_type 4 e) invalid_zip_archive
  ok true

unfoldable pub file_member : ZipInfo → Result ZipPayloadError Bool
unfolding has_type
file_member e = do
  require (not (e.create_system =ℕ 3) || has_type 8 e) invalid_zip_archive
  ok false

-- `_member_is_directory`
unfoldable pub member_is_directory : ZipInfo → Result ZipPayloadError Bool
unfolding directory_member file_member
member_is_directory e = if e.is_dir then directory_member e else file_member e

unfoldable pub some_mode : Result ZipPayloadError ℕ → Result ZipPayloadError (Option ℕ)
some_mode (ok mode) = ok (some mode)
some_mode (err e) = err e

-- `_member_unix_mode`
unfoldable pub member_unix_mode : ZipInfo → Bool → Result ZipPayloadError (Option ℕ)
unfolding some_mode validate_payload_mode
member_unix_mode e is_directory =
    if is_directory || not (e.create_system =ℕ 3) || e.external_attr / 65536 =ℕ 0
    then ok none
    else some_mode
        (reraise invalid_zip_archive (validate_payload_mode (e.external_attr / 65536 % 4096)))

unfoldable pub member_kinds : List ZipInfo → Result ZipPayloadError (List (Text × Bool))
unfolding member_is_directory
member_kinds [] = ok []
member_kinds (e ∷ es) = do
  is_directory ← member_is_directory e
  rest ← member_kinds es
  ok ((e.orig_filename, is_directory) ∷ rest)

-- The members are built in step with the normalized paths, which are as many.
unfoldable pub members_of :
    List ZipInfo → List (Text × Bool) → List Text → Result ZipPayloadError (List ValidatedZipMember)
unfolding member_unix_mode
members_of (e ∷ es) ((name, is_directory) ∷ kinds) (path ∷ paths) = do
  unix_mode ← member_unix_mode e is_directory
  rest ← members_of es kinds paths
  ok (
      (record {
        entry = e;
        relative_path = path;
        is_directory = is_directory;
        unix_mode = unix_mode;
      })
      ∷ rest)
members_of _ _ _ = ok []

module _ (casefold : Text → Text) (normalizer : Text → Bool → Result BundlePathError Text) where
  -- `_validate_members`
  unfoldable pub validate_members : List ZipInfo → Result ZipPayloadError (List ValidatedZipMember)
  unfolding member_kinds validate_bundle_member_paths members_of
  validate_members entries = do
    kinds ← member_kinds entries
    paths ← reraise invalid_zip_archive (validate_bundle_member_paths casefold normalizer kinds)
    members_of entries kinds paths
