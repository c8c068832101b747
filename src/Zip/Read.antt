-- ===== src/Zip/Read.antt =====
-- src/patchharbor/zip_payloads.py: the members are read chunk by chunk, within the budget.
use patch_harbor.Base.{
  ℕ, ◌+◌, Bool, true, false, List, [], ◌∷◌, ◌++◌, ◌=ℕ◌, leb, length, Result, ok, err, ◌>>=◌, ◌>>◌,
  require,
}
use patch_harbor.Bundle.Member.{Text, BundlePathError}
use patch_harbor.Package.Handoff.{BundlePayload}
use patch_harbor.Zip.Policy.{ResourcePolicy}
use patch_harbor.Zip.Members.{
  ZipPayloadError, zip_resource_limit, zip_archive_read, not_zip_archive, ZipInfo,
  ValidatedZipMember, validate_declared_entries, validate_members,
}

-- What `stream.read` returns one after the other; `broken` is a raise of the stream.
pub data Chunks : Type 0 where
  done broken : Chunks
  chunk : List ℕ → Chunks → Chunks

-- What `zipfile.ZipFile` makes of the bytes: the entries and a stream for each, or a raise.
pub data Opened : Type 0 where
  not_zip unreadable : Opened
  archive : List ZipInfo → (ZipInfo → Chunks) → Opened

-- What a member's loop holds: the content, and the counts of the member and of the archive.
pub record Progress : Type 0 where
  pub content : List ℕ
  pub entry_bytes_read : ℕ
  pub total_bytes_read : ℕ

unfoldable pub extended : Progress → List ℕ → Progress
extended s bytes = record {
  content = s.content ++ bytes;
  entry_bytes_read = s.entry_bytes_read + length bytes;
  total_bytes_read = s.total_bytes_read + length bytes;
}

-- The loop of `_ZipReadBudget.read_member`
unfoldable pub read_chunks : ResourcePolicy → Chunks → Progress → Result ZipPayloadError Progress
unfolding extended
read_chunks p done s = ok s
read_chunks p broken s = err zip_archive_read
read_chunks p (chunk bytes rest) s = do
  require (leb (s.entry_bytes_read + length bytes) p.max_content_bytes) zip_resource_limit
  require (leb (s.total_bytes_read + length bytes) p.max_zip_total_bytes) zip_resource_limit
  read_chunks p rest (extended s bytes)

abbrev pub unread : ℕ → Progress
unread total = record { content = []; entry_bytes_read = 0; total_bytes_read = total }

-- `_ZipReadBudget.read_member`
unfoldable pub read_member :
    ResourcePolicy → ValidatedZipMember → Chunks → ℕ → Result ZipPayloadError Progress
unfolding read_chunks
read_member p m stream total = do
  s ← read_chunks p stream (unread total)
  require (s.entry_bytes_read =ℕ m.entry.file_size) zip_archive_read
  ok s

-- The payloads of `_read_open_archive`: the members that are no directories, in their order.
unfoldable pub read_members :
    ResourcePolicy
    → (ZipInfo → Chunks)
    → List ValidatedZipMember
    → ℕ
    → Result ZipPayloadError (List BundlePayload)
unfolding read_member
read_members p streams [] total = ok []
read_members p streams (m ∷ ms) total = elim m.is_directory [
  | true ↦ read_members p streams ms total
  | false ↦ do
    s ← read_member p m (streams m.entry) total
    rest ← read_members p streams ms s.total_bytes_read
    ok (
        (record { relative_path = m.relative_path; content = s.content; unix_mode = m.unix_mode })
        ∷ rest)
]

module _ (casefold : Text → Text) (normalizer : Text → Bool → Result BundlePathError Text) where
  -- `_open_archive` and `_read_open_archive`
  unfoldable pub read_open_archive :
      ResourcePolicy → Opened → Result ZipPayloadError (List BundlePayload)
  unfolding validate_declared_entries validate_members read_members
  read_open_archive p not_zip = err not_zip_archive
  read_open_archive p unreadable = err zip_archive_read
  read_open_archive p (archive entries streams) = do
    validate_declared_entries p entries
    members ← validate_members casefold normalizer entries
    read_members p streams members 0

  -- `read_zip_payload_bytes`
  unfoldable pub read_zip_payload_bytes :
      (List ℕ → Opened) → ResourcePolicy → List ℕ → Result ZipPayloadError (List BundlePayload)
  unfolding read_open_archive
  read_zip_payload_bytes open_archive p content = do
    require (leb (length content) p.max_input_artifact_bytes) zip_resource_limit
    read_open_archive p (open_archive content)
