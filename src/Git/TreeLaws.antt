-- ===== src/Git/TreeLaws.antt =====
-- src/patchharbor/git_objects.py and repository_paths.py: what the output of `ls-tree` was when it is
-- read as a tree.
use mathlib.Core.List.{Perm}
use mathlib.Core.List.Perm
use mathlib.Core.Path.{subst, subst⁻¹}
use patch_harbor.Base.{
  none, Answers-with, Answers-answer, lookup-insert, same-key_refl, ℕ, ◌≡◌, refl, sym, ap, ◌∙◌,
  true, false, Option, some, List, [], ◌∷◌, arith, all, All, before_or_equal, if◌then◌else◌, ok,
  Answers, Answers-bind, Answers-after, Answers-require, Answers-then, Answers-implies, ◌==◌,
  same-key, lookup, nat_eq,
}
use patch_harbor.Models.{GitObjectFormat}
use patch_harbor.Bundle.Member.{Text, text_eq, segments}
use patch_harbor.Git.History.{unsupported_path, present_or_raise}
use patch_harbor.Git.Original.{present_or_raise-some}
use patch_harbor.Git.Tree.{
  RepositoryRelativePath, nul_records, ByPath, tree_loop, TreeEntries, is_portable_part,
  repository_relative_path, claim_key, validate_paths, insert_entry, sort_entries,
  parse_base_tree_entries,
}
use patch_harbor.Git.TreeText.{terminated, nul_records-terminated}
use patch_harbor.Git.TreeLines.{printed, IsSupported, AreAdded, tree_loop-AreAdded}

some_eq :
    (p q : RepositoryRelativePath)
    → ◌≡◌ {A = Option RepositoryRelativePath} (some p) (some q)
    → p ≡ q
some_eq p q h = cc

module _ (decode : List ℕ → Option Text) (casefold : Text → Text) where
  -- The paths of a tree: each is decoded, and has parts that every platform supports.
  pub data AreNamed : ByPath → TreeEntries → Type 0 where
    no_entry : AreNamed [] []
    named :
        {raw decoded : List ℕ} {entry : List ℕ × List ℕ} {entries : ByPath} {tree : TreeEntries}
        → decode raw ≡ some decoded
        → all (is_portable_part decode casefold) (segments decoded) ≡ true
        → AreNamed entries tree
        → AreNamed ((raw, entry) ∷ entries) (
            (
              record { original_bytes = raw; decoded = decoded; collision_key = casefold decoded },
              entry,
            )
            ∷ tree)

  abbrev path_of : List ℕ → Text → RepositoryRelativePath
  path_of raw decoded = record {
    original_bytes = raw;
    decoded = decoded;
    collision_key = casefold decoded;
  }

  IsPath : List ℕ → RepositoryRelativePath → Type 0
  IsPath raw p =
      (decoded : Text) × (decode raw ≡ some decoded)
      × (all (is_portable_part decode casefold) (segments decoded) ≡ true)
      × (p ≡ path_of raw decoded)

  repository_relative_path-IsPath :
      (raw : List ℕ) → Answers (IsPath raw) (repository_relative_path decode casefold raw)
  unfolding repository_relative_path IsPath
  repository_relative_path-IsPath raw =
      Answers-after (IsPath raw) (present_or_raise unsupported_path (decode raw)) _ λ decoded is.
        Answers-require (IsPath raw) (all (is_portable_part decode casefold) (segments decoded))
          unsupported_path (ok (path_of raw decoded))
          λ portable. (
            decoded,
            present_or_raise-some unsupported_path (decode raw) decoded is,
            portable,
            refl,
          )

  validate_paths-AreNamed :
      (by_path : ByPath) (keys : List (Text × RepositoryRelativePath))
      → Answers (AreNamed by_path) (validate_paths decode casefold by_path keys)
  unfolding validate_paths IsPath
  validate_paths-AreNamed [] keys = no_entry
  validate_paths-AreNamed ((raw, entry) ∷ by_path) keys =
      let P = AreNamed ((raw, entry) ∷ by_path) in
      Answers-then (IsPath raw) P (repository_relative_path decode casefold raw) _
        (repository_relative_path-IsPath raw)
        λ p (decoded, is, portable, same).
          Answers-bind P (claim_key decode casefold p (lookup p.collision_key keys) keys) _ λ next.
            Answers-then (AreNamed by_path) P (validate_paths decode casefold by_path next) _
              (validate_paths-AreNamed by_path next)
              λ tree rest. subst⁻¹ (λ x. P ((x, entry) ∷ tree)) same (named is portable rest)

  -- No two different paths of a tree have one collision key.
  abbrev pub HaveOwnKeys : TreeEntries → Type 0
  HaveOwnKeys [] = Unit
  HaveOwnKeys (e ∷ tree) =
      All (λ f. e.0.collision_key ≡ f.0.collision_key → e.0.original_bytes ≡ f.0.original_bytes)
        tree
      × HaveOwnKeys tree

  -- What the keys that were claimed say of a path.
  abbrev Fits : List (Text × RepositoryRelativePath) → RepositoryRelativePath → Type 0
  Fits keys p =
      (q : RepositoryRelativePath)
      → lookup p.collision_key keys ≡ some q
      → q.original_bytes ≡ p.original_bytes

  record IsClaimed (p : RepositoryRelativePath) (keys next : List (Text × RepositoryRelativePath))
      : Type 0 where
    holder : RepositoryRelativePath
    held : lookup p.collision_key next ≡ some holder
    same_bytes : holder.original_bytes ≡ p.original_bytes
    kept : (k : Text) (q : RepositoryRelativePath) → lookup k keys ≡ some q → lookup k next ≡ some q
    fits : Fits keys p

  claim_key-IsClaimed :
      (p : RepositoryRelativePath) (o : Option RepositoryRelativePath)
      (keys : List (Text × RepositoryRelativePath))
      → lookup p.collision_key keys ≡ o
      → Answers (IsClaimed p keys) (claim_key decode casefold p o keys)
  unfolding claim_key
  claim_key-IsClaimed p none keys is = record {
    holder = p;
    held =
        lookup-insert p.collision_key p.collision_key p keys
        ∙ rw (same-key_refl p.collision_key) refl;
    same_bytes = refl;
    kept = λ k q there. ground (
      arith,
      lookup-insert k p.collision_key p keys,
      same-key p.collision_key k,
      there,
      is,
      ap (λ t. lookup t keys),
    );
    fits = λ q there. ground (arith, is, there);
  }
  claim_key-IsClaimed p (some previous) keys is =
      Answers-require (IsClaimed p keys) (previous.original_bytes == p.original_bytes)
        unsupported_path (ok keys)
        λ same. record {
          holder = previous;
          held = is;
          same_bytes = same-key previous.original_bytes p.original_bytes same;
          kept = λ k q there. there;
          fits = λ q there.
              ap (λ (x : RepositoryRelativePath). x.original_bytes)
                (some_eq q previous (sym there ∙ is))
              ∙ same-key previous.original_bytes p.original_bytes same;
        }

  All-both :
      (P Q : RepositoryRelativePath × (List ℕ × List ℕ) → Type 0) (tree : TreeEntries)
      → ((e : RepositoryRelativePath × (List ℕ × List ℕ)) → P e → Q e)
      → All P tree
      → All Q tree
  All-both P Q [] f h = tt
  All-both P Q (e ∷ tree) f h = (f e h.0, All-both P Q tree f h.1)

  validate_paths-HaveOwnKeys :
      (by_path : ByPath) (keys : List (Text × RepositoryRelativePath))
      → Answers
          (λ tree. HaveOwnKeys tree × All (λ e. Fits keys e.0) tree)
          (validate_paths decode casefold by_path keys)
  unfolding validate_paths
  validate_paths-HaveOwnKeys [] keys = (tt, tt)
  validate_paths-HaveOwnKeys ((raw, entry) ∷ by_path) keys =
      let P = λ (tree : TreeEntries). HaveOwnKeys tree × All (λ e. Fits keys e.0) tree in
      Answers-bind P (repository_relative_path decode casefold raw) _ λ p.
        Answers-then (IsClaimed p keys) P
          (claim_key decode casefold p (lookup p.collision_key keys) keys) _
          (claim_key-IsClaimed p (lookup p.collision_key keys) keys refl)
          λ next claimed.
            Answers-then (λ tree. HaveOwnKeys tree × All (λ e. Fits next e.0) tree) P
              (validate_paths decode casefold by_path next) _
              (validate_paths-HaveOwnKeys by_path next)
              λ tree (own, fit). (
                (
                  All-both _ _ tree
                      (λ e fits same.
                        sym claimed.same_bytes
                        ∙ fits claimed.holder (ap (λ t. lookup t next) (sym same) ∙ claimed.held))
                      fit,
                  own,
                ),
                (
                  claimed.fits,
                  All-both _ _ tree
                      (λ e fits q there. fits q (claimed.kept e.0.collision_key q there)) fit,
                ),
              )

  insert_entry-Perm :
      (e : RepositoryRelativePath × (List ℕ × List ℕ)) (tree : TreeEntries)
      → Perm (insert_entry decode casefold e tree) (e ∷ tree)
  unfolding insert_entry
  insert_entry-Perm e [] = Perm.rfl
  insert_entry-Perm e (f ∷ tree) =
      elim (before_or_equal e.0.original_bytes f.0.original_bytes)
        as (λ b.
          Perm (if b then e ∷ f ∷ tree else f ∷ insert_entry decode casefold e tree)
            (e ∷ f ∷ tree)) [
              | true ↦ Perm.rfl
              | false ↦ Perm.trans (Perm.cons f (insert_entry-Perm e tree)) (Perm.swap e f tree)
            ]

  sort_entries-Perm : (tree : TreeEntries) → Perm (sort_entries decode casefold tree) tree
  unfolding sort_entries
  sort_entries-Perm [] = Perm.rfl
  sort_entries-Perm (e ∷ tree) =
      Perm.trans (insert_entry-Perm e (sort_entries decode casefold tree))
        (Perm.cons e (sort_entries-Perm tree))

  -- The output is that of a tree: one printed entry after the other, each a regular file, executable or
  -- not, with the name of an object in the format, at a path that is supported; the entries that are read
  -- are those, in some order.
  pub record IsTree (raw : List ℕ) (format : GitObjectFormat) (tree : TreeEntries) : Type 0 where
    pub entries : ByPath
    pub spelled : raw ≡ printed entries
    pub supported : All (IsSupported format) entries
    pub paths : TreeEntries
    pub names : AreNamed entries paths
    pub own_keys : HaveOwnKeys paths
    pub same_entries : Perm tree paths

  validate_paths-both :
      (by_path : ByPath)
      → Answers
          (λ paths. AreNamed by_path paths × HaveOwnKeys paths)
          (validate_paths decode casefold by_path [])
  validate_paths-both by_path =
      Answers-implies
        (λ paths. AreNamed by_path paths × (validate_paths decode casefold by_path [] ≡ ok paths))
        (λ paths. AreNamed by_path paths × HaveOwnKeys paths)
        (validate_paths decode casefold by_path [])
        (Answers-with (AreNamed by_path) (validate_paths decode casefold by_path [])
          (validate_paths-AreNamed by_path []))
        λ paths h. (
          h.0,
          (Answers-answer _ (validate_paths decode casefold by_path []) paths
              (validate_paths-HaveOwnKeys by_path []) h.1).0,
        )

  pub parse_base_tree_entries-IsTree :
      (raw : List ℕ) (format : GitObjectFormat)
      → Answers (IsTree raw format) (parse_base_tree_entries decode casefold raw format)
  unfolding parse_base_tree_entries
  parse_base_tree_entries-IsTree raw format =
      Answers-then (λ lines. raw ≡ terminated lines) (IsTree raw format) (nul_records raw) _
        (nul_records-terminated raw)
        λ lines whole.
          Answers-then (AreAdded format [] lines) (IsTree raw format) (tree_loop format lines []) _
            (tree_loop-AreAdded format lines [])
            λ by_path read.
              Answers-then (λ paths. AreNamed by_path paths × HaveOwnKeys paths) (IsTree raw format)
                (validate_paths decode casefold by_path []) _ (validate_paths-both by_path)
                λ paths (names, own). record {
                  entries = read.entries;
                  spelled = whole ∙ read.spelled;
                  supported = read.supported;
                  paths = paths;
                  names = subst (λ d. AreNamed d paths) read.added names;
                  own_keys = own;
                  same_entries = sort_entries-Perm paths;
                }
