-- ===== src/Bundle/Tree.antt =====
-- src/patchharbor/bundle_paths.py, validate_bundle_member_paths: the tree of all members.
use patch_harbor.Base.{
  Bool, true, false, ◌&&◌, not, none, some, List, [], ◌∷◌, ◌++◌, if◌then◌else◌, Result, ok, ◌>>=◌,
  ◌>>◌, require, ◌==◌, lookup, insert, adjust,
}
use patch_harbor.Bundle.Member.{Text, text_eq, BundlePathError, collision, segments}

-- `_PathNode`
pub record PathNode : Type 0 where
  pub path : Text
  pub is_directory : Bool
  pub explicit : Bool

abbrev pub Nodes : Type 0
Nodes = List (Text × PathNode)

abbrev pub same_kind : Bool → Bool → Bool
same_kind true b = b
same_kind false b = not b

abbrev pub claimed : PathNode → PathNode
claimed n = record n { explicit = true }

-- The proper prefixes of a path, the shortest first.
unfoldable pub parents_from : Text → List Text → List Text
parents_from prefix [] = []
parents_from prefix (s ∷ rest) = prefix ∷ parents_from (prefix ++ b'/' ∷ s) rest

unfoldable pub parents : List Text → List Text
unfolding parents_from
parents [] = []
parents (s ∷ rest) = parents_from s rest

-- The case folding of Unicode and the normalizer are those that the caller has.
module _ (casefold : Text → Text) (normalizer : Text → Bool → Result BundlePathError Text) where
  -- `register`
  unfoldable pub register : Text → Bool → Bool → Nodes → Result BundlePathError Nodes
  unfolding lookup insert adjust
  register path is_directory explicit nodes = elim (lookup (casefold path) nodes) [
    | none ↦ ok (
        insert (casefold path)
          (record { path = path; is_directory = is_directory; explicit = explicit }) nodes)
    | some existing ↦
        require
          (existing.path == path
            && same_kind existing.is_directory is_directory
            && not (explicit && existing.explicit))
          collision
        >> ok (if explicit then adjust (casefold path) claimed nodes else nodes)
  ]

  unfoldable pub register_all : List Text → Nodes → Result BundlePathError Nodes
  unfolding register
  register_all [] nodes = ok nodes
  register_all (p ∷ ps) nodes = do next ← register p true false nodes; register_all ps next

  unfoldable pub validate_loop : List (Text × Bool) → Nodes → Result BundlePathError (List Text)
  unfolding register register_all parents segments
  validate_loop [] nodes = ok []
  validate_loop ((raw_path, is_directory) ∷ members) nodes = do
    normalized ← normalizer raw_path is_directory
    inner ← register_all (parents (segments normalized)) nodes
    next ← register normalized is_directory true inner
    rest ← validate_loop members next
    ok (normalized ∷ rest)

  -- `validate_bundle_member_paths`
  unfoldable pub validate_bundle_member_paths :
      List (Text × Bool) → Result BundlePathError (List Text)
  unfolding validate_loop
  validate_bundle_member_paths members = validate_loop members []
