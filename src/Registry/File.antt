-- ===== src/Registry/File.antt =====
-- src/patchharbor/registry.py: reading, writing and restoring the file of the registry.
use patch_harbor.Base.{
  Bool, true, false, Option, none, some, [], if◌then◌else◌, Result, ok, err, ◌>>=◌,
}
use patch_harbor.Json.{Json}
use patch_harbor.ExchangeState.File.{
  PathKind, missing, regular_file, uninspectable, Content, undecodable, document,
}
use patch_harbor.Registry.Mapping.{
  RegistryError, invalid_document, not_regular, unreadable, unwritable, unrestorable,
  RegistrySnapshot, registry_snapshot,
}
use patch_harbor.Registry.Document.{parse_registry, encoded_registry}

-- The file and what the operating system lets be done with it.
pub record RegistryFile : Type 0 where
  pub kind : PathKind
  pub content : Content
  pub reading_works : Bool
  pub writing_works : Bool
  pub removing_works : Bool

pub record RegistryFileState : Type 0 where
  pub snapshot : RegistrySnapshot
  pub content : Option Content

-- `_registry_file_kind`: whether the file is missing.
unfoldable pub registry_file_is_missing : PathKind → Result RegistryError Bool
registry_file_is_missing missing = ok true
registry_file_is_missing regular_file = ok false
registry_file_is_missing uninspectable = err RegistryError.uninspectable
registry_file_is_missing _ = err not_regular

unfoldable pub parse_content : Content → Result RegistryError RegistrySnapshot
unfolding parse_registry
parse_content undecodable = err invalid_document
parse_content (document j) = parse_registry j

unfoldable pub load_present : RegistryFile → Result RegistryError RegistryFileState
unfolding parse_content
load_present f =
    if f.reading_works
    then parse_content f.content >>= (λ s. ok (record { snapshot = s; content = some f.content }))
    else err unreadable

unfoldable pub load_when : Bool → RegistryFile → Result RegistryError RegistryFileState
unfolding load_present registry_snapshot
load_when true f = do s ← registry_snapshot []; ok (record { snapshot = s; content = none })
load_when false f = load_present f

-- `load_registry_state`
unfoldable pub load_registry_state : RegistryFile → Result RegistryError RegistryFileState
unfolding registry_file_is_missing load_when
load_registry_state f = do absent ← registry_file_is_missing f.kind; load_when absent f

-- `load_registry`
unfoldable pub load_registry : RegistryFile → Result RegistryError RegistrySnapshot
unfolding load_registry_state
load_registry f = do state ← load_registry_state f; ok state.snapshot

-- `atomic_replace_bytes`: all of the content is there, or nothing has changed.
unfoldable pub replace_content :
    RegistryError → Content → RegistryFile → Result RegistryError (Unit {0}) × RegistryFile
replace_content e c f =
    if f.writing_works then (ok tt, record f { kind = regular_file; content = c }) else (err e, f)

unfoldable pub write_encoded :
    Result RegistryError Json
    → Result RegistryError Bool
    → RegistryFile
    → Result RegistryError (Unit {0}) × RegistryFile
unfolding replace_content
write_encoded (err e) inspected f = (err e, f)
write_encoded (ok j) (err e) f = (err e, f)
write_encoded (ok j) (ok _) f = replace_content unwritable (document j) f

-- `write_registry`
unfoldable pub write_registry :
    RegistrySnapshot → RegistryFile → Result RegistryError (Unit {0}) × RegistryFile
unfolding encoded_registry registry_file_is_missing write_encoded
write_registry s f = write_encoded (encoded_registry s) (registry_file_is_missing f.kind) f

unfoldable pub remove_if_present :
    Bool → RegistryFile → Result RegistryError (Unit {0}) × RegistryFile
remove_if_present true f = (ok tt, f)
remove_if_present false f =
    if f.removing_works then (ok tt, record f { kind = missing }) else (err unrestorable, f)

unfoldable pub restore_content :
    Option Content
    → Result RegistryError Bool
    → RegistryFile
    → Result RegistryError (Unit {0}) × RegistryFile
unfolding remove_if_present replace_content
restore_content content (err e) f = (err e, f)
restore_content none (ok absent) f = remove_if_present absent f
restore_content (some c) (ok absent) f = replace_content unrestorable c f

-- `restore_registry_state`
unfoldable pub restore_registry_state :
    RegistryFileState → RegistryFile → Result RegistryError (Unit {0}) × RegistryFile
unfolding registry_file_is_missing restore_content
restore_registry_state state f = restore_content state.content (registry_file_is_missing f.kind) f
