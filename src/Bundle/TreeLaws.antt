-- ===== src/Bundle/TreeLaws.antt =====
-- src/patchharbor/bundle_paths.py: the members that are accepted have one place each in one tree.
use mathlib.Core.Option
use patch_harbor.Base.{
  ◌≡◌, ◌≢◌, Bool, true, false, Option, none, some, List, [], ◌∷◌, Result, ok, lookup, All,
}
use patch_harbor.Bundle.Member.{Text, text_eq, BundlePathError, segments}
use patch_harbor.Bundle.Tree.{PathNode, Nodes, parents, register, register_all, validate_loop}

abbrev explicit_at : Option PathNode → Bool
explicit_at none = false
explicit_at (some n) = n.explicit

-- Whether the tree has a directory or a file under a key, if it has any.
abbrev pub kind_at : Text → Nodes → Option Bool
kind_at k nodes = Option.map (λ n. n.is_directory) (lookup k nodes)

-- What a registration that succeeds has done under its key.
record Registered (key : Text) (is_directory explicit : Bool) (nodes next : Nodes) : Type 0 where
  kind : kind_at key next ≡ some is_directory
  keeps_kind : (k : Text) (b : Bool) → kind_at k nodes ≡ some b → kind_at k next ≡ some b
  keeps_explicit :
      (k : Text) → explicit_at (lookup k nodes) ≡ true → explicit_at (lookup k next) ≡ true
  was_free : explicit ≡ true → explicit_at (lookup key nodes) ≡ false
  is_taken : explicit ≡ true → explicit_at (lookup key next) ≡ true

module _ (casefold : Text → Text) (normalizer : Text → Bool → Result BundlePathError Text) where
  -- What the registration of the parents has done.
  record AllRegistered (ps : List Text) (nodes next : Nodes) : Type 0 where
    kinds : All (λ p. kind_at (casefold p) next ≡ some true) ps
    keeps_kind : (k : Text) (b : Bool) → kind_at k nodes ≡ some b → kind_at k next ≡ some b
    keeps_explicit :
        (k : Text) → explicit_at (lookup k nodes) ≡ true → explicit_at (lookup k next) ≡ true

  -- Every member stands in the tree as what it is, under directories only.
  abbrev pub IsIn : Nodes → List (Text × Bool) → List Text → Type 0
  IsIn tree ((raw_path, d) ∷ members) (p ∷ out) =
      ((kind_at (casefold p) tree ≡ some d)
        × All (λ q. kind_at (casefold q) tree ≡ some true) (parents (segments p)))
      × IsIn tree members out
  IsIn tree [] [] = Unit
  IsIn tree _ _ = ⊥

  -- No two paths are the same but for case.
  abbrev pub AreDistinct : List Text → Type 0
  AreDistinct [] = Unit
  AreDistinct (p ∷ ps) = All (λ q. casefold q ≢ casefold p) ps × AreDistinct ps

  record Placed (members : List (Text × Bool)) (nodes : Nodes) (out : List Text) : Type 0 where
    tree : Nodes
    keeps_kind : (k : Text) (b : Bool) → kind_at k nodes ≡ some b → kind_at k tree ≡ some b
    is_in : IsIn tree members out
    free : All (λ p. explicit_at (lookup (casefold p) nodes) ≡ false) out
    distinct : AreDistinct out

  -- The steps of the loop for one member.
  record Validated (raw_path : Text) (d : Bool) (members : List (Text × Bool)) (nodes : Nodes)
      (out : List Text) : Type 0 where
    path : Text
    inner : Nodes
    next : Nodes
    rest : List Text
    parents_registered : register_all casefold normalizer (parents (segments path)) nodes ≡ ok inner
    registered : register casefold normalizer path d true inner ≡ ok next
    others : validate_loop casefold normalizer members next ≡ ok rest
    result : path ∷ rest ≡ out
