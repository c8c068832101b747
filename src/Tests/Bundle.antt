-- ===== src/Tests/Bundle.antt =====
-- Runs on the paths of archives: src/patchharbor/bundle_paths.py.
use patch_harbor.Base.{nat_eq, ◌≡◌, refl, Bool, true, false, List, [], ◌∷◌, ok, err, codes}
use patch_harbor.Bundle.Member.{
  Text, text_eq, unsafe_path, collision, is_safe_path_segment, is_reserved, normalize_bundle_path,
}
use patch_harbor.Bundle.Tree.{validate_bundle_member_paths}

-- No text of these runs has a capital letter.
abbrev fold : Text → Text
fold t = t

normalizes : normalize_bundle_path (codes "src/a.py") false ≡ ok (codes "src/a.py")
unfolding normalize_bundle_path text_eq nat_eq is_safe_path_segment is_reserved
normalizes = refl

refuses_parent : normalize_bundle_path (codes "src/../a.py") false ≡ err unsafe_path
unfolding normalize_bundle_path text_eq nat_eq is_safe_path_segment is_reserved
refuses_parent = refl

refuses_device : normalize_bundle_path (codes "src/nul.txt") false ≡ err unsafe_path
unfolding normalize_bundle_path text_eq nat_eq is_safe_path_segment is_reserved
refuses_device = refl

abbrev members : List (Text × Bool)
members = (codes "src/", true) ∷ (codes "src/a.py", false) ∷ []

abbrev paths : List Text
paths = codes "src" ∷ codes "src/a.py" ∷ []

collides :
    validate_bundle_member_paths fold normalize_bundle_path
      ((codes "a", false) ∷ (codes "a/b", false) ∷ [])
    ≡ err collision
unfolding validate_bundle_member_paths normalize_bundle_path text_eq nat_eq is_safe_path_segment
    is_reserved
collides = refl
