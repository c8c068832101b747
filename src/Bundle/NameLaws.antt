-- ===== src/Bundle/NameLaws.antt =====
-- src/patchharbor/archive_policy.py: the accepted folder names are the accepted path segments.
use patch_harbor.Base.{
  ℕ, ◌≡◌, refl, ap, Bool, true, false, ◌&&◌, ◌||◌, not, [], ◌∷◌, arith, ◌=ℕ◌, leb, length, all, map,
  codes, contains, if◌then◌else◌, ok, err, ◌==◌, same-key, Bool-cases, inl, inr,
}
use patch_harbor.Models.{value_error}
use patch_harbor.Bundle.Member.{
  Text, text_eq, is_segment_char, ends_with, stem, upper_char, windows_reserved_names, is_empty,
  is_safe_path_segment,
}
use patch_harbor.Bundle.Names.{reserved_names, is_portable_folder, validate_archive_directory}

no-ending_space : (t : Text) → all is_segment_char t ≡ true → ends_with b' ' t ≡ false
unfolding ends_with is_segment_char
no-ending_space [] h = refl
no-ending_space (c ∷ []) h = ground arith
no-ending_space (c ∷ d ∷ t) h = ground (arith, no-ending_space (d ∷ t))

upper-ne-dollar : (c : ℕ) → is_segment_char c ≡ true → (upper_char c =ℕ 36) ≡ false
unfolding is_segment_char
upper-ne-dollar c h = ground arith

-- No name of portable characters has a dollar in it.
abbrev has_dollar : Text → Bool
has_dollar [] = false
has_dollar (c ∷ cs) = c =ℕ 36 || has_dollar cs

stem-no_dollar :
    (t : Text) → all is_segment_char t ≡ true → has_dollar (map upper_char (stem t)) ≡ false
unfolding stem
stem-no_dollar [] h = refl
stem-no_dollar (c ∷ t) h = ground (arith, upper-ne-dollar c, stem-no_dollar t)

not_the_device :
    (device u : Text) → has_dollar device ≡ true → has_dollar u ≡ false → (u == device) ≡ false
not_the_device device u h k = elim (Bool-cases (u == device)) [
  | inl same ↦
      let e : has_dollar u ≡ has_dollar device = ap has_dollar (same-key u device same) in cc
  | inr differs ↦ differs
]

reserved_alike :
    (u : Text)
    → has_dollar u ≡ false
    → contains reserved_names u ≡ contains windows_reserved_names u
reserved_alike u h =
    rw (not_the_device (codes "CONIN$") u refl h, not_the_device (codes "CONOUT$") u refl h) refl

tests_alike :
    (size small chars dots dot space reserved reserved' : Bool)
    → (chars ≡ true → space ≡ false)
    → (chars ≡ true → reserved ≡ reserved')
    → (size && small && chars && not dots && not dot && not reserved)
      ≡ (size && small && chars && not dots && not (dot || space) && not reserved')
tests_alike size small chars dots dot space reserved reserved' h k = ground (arith, h, k)

is_portable_folder-eq : (t : Text) → is_portable_folder t ≡ is_safe_path_segment t
unfolding is_portable_folder is_safe_path_segment
is_portable_folder-eq t =
    tests_alike (leb 1 (length t)) (leb (length t) 128) (all is_segment_char t)
      (contains (codes "." ∷ codes ".." ∷ []) t) (ends_with b'.' t) (ends_with b' ' t) _ _
      (no-ending_space t) (λ h. reserved_alike (map upper_char (stem t)) (stem-no_dollar t h))

-- The archive directory may be named by the empty text and by exactly the texts that are accepted as a
-- segment of a member path; they are kept as they are, and all others are refused.
pub validate_archive_directory-eq :
    (t : Text)
    → validate_archive_directory t
      ≡ (if is_empty t || is_safe_path_segment t then ok t else err value_error)
unfolding validate_archive_directory
validate_archive_directory-eq t = rw (is_portable_folder-eq t) (ground arith)
