-- ===== src/Exchange/Files.antt =====
-- src/patchharbor/exchange.py: one stable capture of a file of the Exchange directory, and the listing
-- of the directory. The file system of platform/filesystem.py and platform/paths.py is a parameter.
use patch_harbor.Base.{
  ℕ, String, Bool, true, false, ◌&&◌, Option, none, some, List, [], ◌∷◌, codes, before_or_equal,
  if◌then◌else◌, Result, ok, err, ◌>>=◌, ◌>>◌, require, reraise, ◌==◌, string_eq,
}
use patch_harbor.Paths.{parent, name, child}
use patch_harbor.ExchangeState.Record.{ExchangeFileIdentity, file_identity, identity_eq}
use patch_harbor.ExchangeState.File.{StateError}
use patch_harbor.Exchange.Artifact.{
  ExchangeArtifact, artifact_from_record, record_from_classification,
}
use patch_harbor.Exchange.Classify.{Readers, classify_content}
use patch_harbor.Zip.Policy.{ResourcePolicy}

-- `ExchangeScanError`, a `ValueError`, the `PatchHarborError` of a changed package, and the errors of
-- the ledger.
pub data ExchangeError : Type 0 where
  scan_error value_raised package_changed : ExchangeError
  ledger : StateError → ExchangeError

-- `StableFile`, with the content if it is within the limit.
pub record StableFile : Type 0 where
  pub sha256 : String
  pub mtime_ns : ℕ
  pub content : Option (List ℕ)

-- What reading one path meets: `physically_canonicalize` before and after, and the stable read between
-- them, under a limit on the content that is kept; `none` is a raise.
pub record FileView : Type 0 where
  pub canonical_before : Option String
  pub stable : ℕ → Option StableFile
  pub canonical_after : Option String

pub record ExchangeFileSnapshot : Type 0 where
  pub identity : ExchangeFileIdentity
  pub mtime_ns : ℕ
  pub content : Option (List ℕ)

abbrev pub or_raise {ℓ} : {A : Type ℓ} → ExchangeError → Option A → Result ExchangeError A
or_raise e none = err e
or_raise e (some a) = ok a

-- `_read_exchange_file`
unfoldable pub read_exchange_file :
    (String → FileView) → String → String → ℕ → Result ExchangeError ExchangeFileSnapshot
unfolding parent string_eq file_identity
read_exchange_file files path directory retained_content_limit = do
  require (parent path == directory) scan_error
  canonical_before ← or_raise scan_error (files path).canonical_before
  require (parent canonical_before == directory && canonical_before == path) scan_error
  stable_file ← or_raise scan_error ((files path).stable retained_content_limit)
  canonical_after ← or_raise scan_error (files path).canonical_after
  require (canonical_after == canonical_before) scan_error
  identity ← reraise value_raised (file_identity canonical_after stable_file.sha256)
  ok (record {
    identity = identity;
    mtime_ns = stable_file.mtime_ns;
    content = stable_file.content;
  })

-- An entry of `os.scandir`; `is_regular` is `none` where `entry.stat` raises.
pub record DirectoryEntry : Type 0 where
  pub entry_name : String
  pub is_regular : Option Bool

unfoldable pub is_true : Option Bool → Bool
is_true (some true) = true
is_true (some false) = false
is_true none = false

-- The loop of `_top_level_regular_paths`
unfoldable pub regular_paths : (String → Bool) → String → List DirectoryEntry → List String
unfolding child is_true
regular_paths is_temporary directory [] = []
regular_paths is_temporary directory (e ∷ es) =
    let rest = regular_paths is_temporary directory es in
    if is_temporary e.entry_name
    then rest
    else if is_true e.is_regular
    then child directory e.entry_name ∷ rest
    else rest

unfoldable pub insert_path : String → List String → List String
unfolding before_or_equal name
insert_path p [] = p ∷ []
insert_path p (q ∷ qs) =
    let rest = insert_path p qs in
    if before_or_equal (codes (name p)) (codes (name q)) then p ∷ q ∷ qs else q ∷ rest

-- `regular_paths.sort(key=…)`. The order of the bytes of names is that of their code points.
unfoldable pub sort_paths : List String → List String
unfolding insert_path
sort_paths [] = []
sort_paths (p ∷ ps) = insert_path p (sort_paths ps)

-- `_top_level_regular_paths`; `none` is a raise of `os.scandir`.
unfoldable pub top_level_regular_paths :
    (String → Bool) → String → Option (List DirectoryEntry) → Result ExchangeError (List String)
unfolding regular_paths sort_paths
top_level_regular_paths is_temporary directory none = err scan_error
top_level_regular_paths is_temporary directory (some entries) =
    ok (sort_paths (regular_paths is_temporary directory entries))

-- `classify_exchange_artifact`; `none` is a raise of the canonicalization of the parent.
unfoldable pub classify_exchange_artifact :
    Readers
    → (String → FileView)
    → ResourcePolicy
    → Option String
    → String
    → Result ExchangeError ExchangeArtifact
unfolding read_exchange_file classify_content record_from_classification artifact_from_record
classify_exchange_artifact r files policy canonical_parent path = do
  directory ← or_raise scan_error canonical_parent
  s ← read_exchange_file files path directory policy.max_input_artifact_bytes
  c ← reraise value_raised (classify_content r policy s.content)
  entry ← reraise value_raised (record_from_classification s.identity c)
  reraise value_raised (artifact_from_record s.identity.path entry s.mtime_ns c.validated_package)
