-- ===== src/ExchangeState/File.antt =====
-- src/patchharbor/exchange_state.py: the ledger's file, directory and lock, and the actions on them
-- that every operation is made of.
use patch_harbor.Base.{Bool, true, false, List, [], if◌then◌else◌, Result, ok, err}
use patch_harbor.Models.{ValueError}
use patch_harbor.Json.{Json}
use patch_harbor.ExchangeState.Record.{ExchangeStateRecord}
use patch_harbor.ExchangeState.Parse.{parse_state}
use patch_harbor.ExchangeState.Print.{encoded_state}

-- `PathKind`, as far as the ledger tells the kinds apart; `uninspectable` is a raise of `path_kind`.
pub data PathKind : Type 0 where
  missing regular_file directory other uninspectable : PathKind

-- What `exclusive_file_lock` meets.
pub data Lock : Type 0 where
  free held broken : Lock

-- The bytes of a regular file: a JSON document, or none.
pub data Content : Type 0 where
  undecodable : Content
  document : Json → Content

-- The outcome of reading a regular file.
pub data Reading : Type 0 where
  stable changed_during_read unsupported failed_read : Reading

pub record Disk : Type 0 where
  pub lock : Lock
  pub directory_kind : PathKind
  pub mkdir_works : Bool
  pub file_kind : PathKind
  pub content : Content
  pub reading : Reading
  pub writing_works : Bool

pub data StateError : Type 0 where
  invalid_value state_busy lock_failed directory_unusable file_uninspectable not_regular :
      StateError
  changed_while_read unreadable invalid_document unwritable conflicting_classification : StateError
  no_matching_state already_attempted no_active_attempt foreign_result : StateError
  not_recoverable attempt_changed changed_during_proof evidence_rejected selection_lost : StateError

-- An action on the disk that may raise. What was written before a raise stays written.
abbrev pub Action {ℓ} : Type ℓ → Type ℓ
Action A = Disk → Result StateError A × Disk

module _ {ℓ κ} {A : Type ℓ} {B : Type κ} where
  abbrev pub continue : Result StateError A → (A → Action B) → Action B
  continue (ok a) f d = f a d
  continue (err e) f d = (err e, d)

  infixl 10 ◌>>=◌
  unfoldable pub ◌>>=◌ : Action A → (A → Action B) → Action B
  ◌>>=◌ m f d = let (r, d') = m d in continue r f d'

infixl 10 ◌>>◌
abbrev pub ◌>>◌ {ℓ} : {B : Type ℓ} → Action (Unit {0}) → Action B → Action B
m >> n = m >>= λ _. n

module _ {ℓ} {A : Type ℓ} where
  abbrev pub pure : A → Action A
  pure a d = (ok a, d)

  abbrev pub raise : StateError → Action A
  raise e d = (err e, d)

  -- A check or a construction that raises `ValueError`, handled as the given error.
  abbrev pub valued : StateError → Result ValueError A → Action A
  valued e (ok a) d = (ok a, d)
  valued e (err _) d = (err e, d)

  -- The lock is taken at once or not at all.
  unfoldable pub enter : Lock → Action A → Action A
  enter free m d = m d
  enter held m d = (err state_busy, d)
  enter broken m d = (err lock_failed, d)

  -- `with _state_lock(paths):`
  unfoldable pub with_state_lock : Action A → Action A
  with_state_lock m d = enter d.lock m d

abbrev pub demand : Bool → StateError → Action (Unit {0})
demand true e d = (ok tt, d)
demand false e d = (err e, d)

unfoldable pub prepare : PathKind → Action (Unit {0})
prepare missing d =
    if d.mkdir_works
    then (ok tt, record d { directory_kind = directory })
    else (err directory_unusable, d)
prepare directory d = (ok tt, d)
prepare _ d = (err directory_unusable, d)

-- `_prepare_state_directory`
unfoldable pub prepare_state_directory : Action (Unit {0})
unfolding prepare
prepare_state_directory d = prepare d.directory_kind d

unfoldable pub is_missing : PathKind → Action Bool
is_missing missing = pure true
is_missing regular_file = pure false
is_missing uninspectable = raise file_uninspectable
is_missing _ = raise not_regular

-- `_state_file_kind`: whether the file is missing.
unfoldable pub state_file_is_missing : Action Bool
unfolding is_missing
state_file_is_missing d = is_missing d.file_kind d

unfoldable pub read_as : Reading → Action Content
read_as stable d = (ok d.content, d)
read_as changed_during_read d = (err changed_while_read, d)
read_as unsupported d = (err not_regular, d)
read_as failed_read d = (err unreadable, d)

-- `read_stable_regular_file`
unfoldable pub read_file : Action Content
unfolding read_as
read_file d = read_as d.reading d

unfoldable pub parse_content : Content → Action (List ExchangeStateRecord)
parse_content undecodable = raise invalid_document
parse_content (document j) = valued invalid_document (parse_state j)

unfoldable pub load_if : Bool → Action (List ExchangeStateRecord)
load_if true = pure []
load_if false = do content ← read_file; parse_content content

-- `_load_unlocked`
unfoldable pub load_unlocked : Action (List ExchangeStateRecord)
load_unlocked = do prepare_state_directory; absent ← state_file_is_missing; load_if absent

-- `atomic_replace_bytes`: all of the document is there, or nothing has changed.
unfoldable pub replace_file : Json → Action (Unit {0})
replace_file j d =
    if d.writing_works
    then (ok tt, record d { file_kind = regular_file; content = document j })
    else (err unwritable, d)

-- `_write_unlocked`
unfoldable pub write_unlocked : List ExchangeStateRecord → Action (Unit {0})
write_unlocked records = do
  prepare_state_directory
  _ ← state_file_is_missing
  replace_file (encoded_state records)
