-- ===== src/Registry/Rollback.antt =====
-- src/patchharbor/registry.py: a mutation of the registry's file can be taken back.
use mathlib.Core.Path.{subst⁻¹}
use patch_harbor.Json.{Json}
use patch_harbor.Base.{
  ◌∙◌, ◌≡◌, refl, Bool, true, false, Option, none, some, arith, Result, ok, err, Result-cases, inl,
  inr, ◌⊎◌,
}
use patch_harbor.ExchangeState.File.{
  PathKind, missing, regular_file, directory, other, uninspectable, Content, document,
}
use patch_harbor.Registry.Mapping.{RegistryError, RegistrySnapshot}
use patch_harbor.Registry.Document.{encoded_registry}
use patch_harbor.Registry.File.{
  RegistryFile, RegistryFileState, registry_file_is_missing, parse_content, load_present, load_when,
  load_registry_state, replace_content, write_encoded, write_registry, remove_if_present,
  restore_content, restore_registry_state,
}

-- What a reader of the file finds: the content of a regular file, or nothing.
abbrev pub visible_at : PathKind → Content → Option Content
visible_at regular_file c = some c
visible_at _ c = none

abbrev pub visible : RegistryFile → Option Content
visible f = visible_at f.kind f.content

load_present-content :
    (c : Content) (r w m : Bool) (state : RegistryFileState)
    → load_present (record {
      kind = regular_file;
      content = c;
      reading_works = r;
      writing_works = w;
      removing_works = m;
    })
      ≡ ok state
    → state.content ≡ some c
unfolding load_present
load_present-content c true w m state h = elim (Result-cases (parse_content c)) [
  | inl (s, is) ↦ ground (arith, h, is)
  | inr (e, is) ↦ ground (arith, h, is)
]
load_present-content c false w m state h = ground (arith, h)

-- A kind of path under which a registry is loaded.
abbrev IsUsual : PathKind → Type 0
IsUsual k = (k ≡ missing) ⊎ (k ≡ regular_file)

-- A state that was loaded holds what the file shows.
load_registry_state-content :
    (k : PathKind) (c : Content) (r w m : Bool) (state : RegistryFileState)
    → load_registry_state
        (record { kind = k; content = c; reading_works = r; writing_works = w; removing_works = m })
      ≡ ok state
    → (state.content ≡ visible_at k c) × IsUsual k
unfolding load_registry_state registry_file_is_missing load_when
load_registry_state-content missing c r w m state h = (ground (arith, h), inl refl)
load_registry_state-content regular_file c r w m state h =
    (load_present-content c r w m state h, inr refl)
load_registry_state-content directory c r w m state h = ground (arith, h)
load_registry_state-content other c r w m state h = ground (arith, h)
load_registry_state-content uninspectable c r w m state h = ground (arith, h)

write_encoded-shape :
    (o : Result RegistryError Json) (inspected : Result RegistryError Bool) (f : RegistryFile)
    → f.writing_works ≡ true
    → ((write_encoded o inspected f).1 ≡ f)
      ⊎ ((c : Content) × ((write_encoded o inspected f).1
            ≡ record f { kind = regular_file; content = c }))
unfolding write_encoded replace_content
write_encoded-shape (err e) inspected f w = inl refl
write_encoded-shape (ok j) (err e) f w = inl refl
write_encoded-shape (ok j) (ok _) f w = inr (document j, ground (arith, w))

-- What a restoration of `content` is to give.
abbrev Restores : Option Content → RegistryFile → Type 0
Restores content g =
    let after = restore_content content (registry_file_is_missing g.kind) g in
    (after.0 ≡ ok tt) × (visible after.1 ≡ content)

restore_content-Restores :
    (content : Option Content) (k : PathKind) (c : Content) (r : Bool)
    → IsUsual k
    → Restores content (record {
      kind = k;
      content = c;
      reading_works = r;
      writing_works = true;
      removing_works = true;
    })
unfolding restore_content registry_file_is_missing remove_if_present replace_content
restore_content-Restores none missing c r usual = (refl, refl)
restore_content-Restores none regular_file c r usual = (refl, refl)
restore_content-Restores (some d) missing c r usual = (refl, refl)
restore_content-Restores (some d) regular_file c r usual = (refl, refl)
restore_content-Restores o directory c r usual = ground (arith, usual)
restore_content-Restores o other c r usual = ground (arith, usual)
restore_content-Restores o uninspectable c r usual = ground (arith, usual)

-- Whatever a write of the registry did, the state that was loaded before it is restored: if the file can
-- be replaced and removed, restoring succeeds, and a reader finds the content, or the absence, of before.
pub restore_registry_state-write_registry :
    (f : RegistryFile) (state : RegistryFileState) (s : RegistrySnapshot)
    → load_registry_state f ≡ ok state
    → f.writing_works ≡ true
    → f.removing_works ≡ true
    → let restored = restore_registry_state state (write_registry s f).1 in
      (restored.0 ≡ ok tt) × (visible restored.1 ≡ visible f)
unfolding restore_registry_state write_registry
restore_registry_state-write_registry f state s loaded writes removes =
    let (held, usual) =
      load_registry_state-content f.kind f.content f.reading_works f.writing_works f.removing_works
        state loaded in
    let g = write_encoded (encoded_registry s) (registry_file_is_missing f.kind) f in
    let restores : Restores state.content g.1 =
      elim (write_encoded-shape (encoded_registry s) (registry_file_is_missing f.kind) f writes) [
        | inl same ↦ subst⁻¹ (Restores state.content) same (
            subst⁻¹ (Restores state.content) (able f writes removes)
              (restore_content-Restores state.content f.kind f.content f.reading_works usual))
        | inr (c, is) ↦ subst⁻¹ (Restores state.content) is (
            subst⁻¹ (Restores state.content)
              (able (record f { kind = regular_file; content = c }) writes removes)
              (restore_content-Restores state.content regular_file c f.reading_works (inr refl)))
      ] in
    (restores.0, restores.1 ∙ held)
  where
    able :
        (h : RegistryFile)
        → h.writing_works ≡ true
        → h.removing_works ≡ true
        → h ≡ record h { writing_works = true; removing_works = true }
    able h w m = ground (arith, w, m)
