-- ===== src/Git/Evidence.antt =====
-- src/patchharbor/archive_git.py: what is shown by a proof that a bundle is obsolete, and the rules for
-- an answer that proves.
use mathlib.Core.List.{Perm}
use mathlib.Core.List.Perm
use mathlib.Core.Path.{subst}
use patch_harbor.Base.{
  Answers-answer, map, ℕ, ◌≡◌, ◌≢◌, refl, ◌⊎◌, Bool, true, false, Option, some, List, [], ◌∷◌,
  arith, codes, if◌then◌else◌, Result, ok, err, ◌>>=◌, Answers, Answers-after, Answers-implies,
  contains, same-key, string_eq, option_eq,
}
use patch_harbor.Models.{GitObjectId, repository_id_eq, git_object_id_eq}
use patch_harbor.Registry.Mapping.{RepositoryPath}
use patch_harbor.ExchangeState.Record.{
  succeeded, ExchangeStateRecord, apply_status_eq, selection_eq,
}
use patch_harbor.Bundle.Member.{Text, text_eq}
use patch_harbor.Exchange.Select.{RepositoryContext}
use patch_harbor.Git.History.{
  GitHost, HistoryError, byte_lines, merge_base_arguments, run_git_bytes,
}
use patch_harbor.Git.Original.{IsOriginal, Prints, run-Prints}
use patch_harbor.Git.HistoryLaws.{IsProven}
use patch_harbor.Git.TreeLaws.{IsTree, parse_base_tree_entries-IsTree}
use patch_harbor.Git.Tree.{RepositoryRelativePath, TreeEntries, parse_base_tree_entries}
use patch_harbor.Git.Obsolete.{
  BaseEntry, ArchiveEvidence, entry_before_or_equal, insert_base, observed_entries, same_entries,
  tree_arguments, is_applied, is_observed,
}

same_entries-eq : (es fs : List BaseEntry) → same_entries es fs ≡ true → es ≡ fs
unfolding same_entries
same_entries-eq [] [] h = refl
same_entries-eq [] (f ∷ fs) h = cc
same_entries-eq (e ∷ es) [] h = cc
same_entries-eq (e ∷ es) (f ∷ fs) h = ground (
  arith,
  same-key e.path f.path,
  same-key e.mode f.mode,
  same-key e.object_id f.object_id,
  same_entries-eq es fs,
  h,
)

pub is_applied-same :
    (evidence : ArchiveEvidence) (r : ExchangeStateRecord)
    → is_applied evidence r ≡ true
    → (r.kind ≡ evidence.kind)
      × (r.manifest ≡ some evidence.selection)
      × (r.apply_status ≡ some succeeded)
unfolding is_applied
is_applied-same evidence r h = ground (
  arith,
  same-key r.kind evidence.kind,
  same-key r.manifest (some evidence.selection),
  same-key r.apply_status (some succeeded),
  h,
)

-- An entry of the tree as the evidence has it.
abbrev pub base_entry : RepositoryRelativePath × (List ℕ × List ℕ) → BaseEntry
base_entry (p, (mode, o)) = record { path = p.decoded; mode = mode; object_id = o }

insert_base-Perm : (e : BaseEntry) (es : List BaseEntry) → Perm (insert_base e es) (e ∷ es)
unfolding insert_base
insert_base-Perm e [] = Perm.rfl
insert_base-Perm e (f ∷ es) =
    elim (entry_before_or_equal e f)
      as (λ b. Perm (if b then e ∷ f ∷ es else f ∷ insert_base e es) (e ∷ f ∷ es)) [
        | true ↦ Perm.rfl
        | false ↦ Perm.trans (Perm.cons f (insert_base-Perm e es)) (Perm.swap e f es)
      ]

observed_entries-Perm : (tree : TreeEntries) → Perm (observed_entries tree) (map base_entry tree)
unfolding observed_entries
observed_entries-Perm [] = Perm.rfl
observed_entries-Perm ((p, (mode, o)) ∷ tree) =
    Perm.trans (insert_base-Perm (base_entry (p, (mode, o))) (observed_entries tree))
      (Perm.cons (base_entry (p, (mode, o))) (observed_entries-Perm tree))

-- An answer of `true` proves the type.
abbrev pub Proves : Type 0 → Result HistoryError Bool → Type 0
Proves P = Answers (λ b. b ≡ true → P)

pub never : (P : Type 0) → Proves P (ok false)
never P h = cc

-- `m and n`
pub Proves-and :
    (P Q : Type 0) (m n : Result HistoryError Bool)
    → Proves P m
    → Proves Q n
    → Proves (P × Q) (m >>= λ b. if b then n else ok false)
Proves-and P Q (ok true) n p q =
    Answers-implies (λ b. b ≡ true → Q) (λ b. b ≡ true → P × Q) n q λ b h is. (p refl, h is)
Proves-and P Q (ok false) n p q = never (P × Q)
Proves-and P Q (err e) n p q = tt

pub Proves-if :
    (P : Type 0) (b : Bool) (m n : Result HistoryError Bool)
    → (b ≡ true → Proves P m)
    → (b ≡ false → Proves P n)
    → Proves P (if b then m else n)
Proves-if P true m n p q = p refl
Proves-if P false m n p q = q refl

-- The relation of ancestry and what git documents are as for the completed commits.
module _ (s : GitHost) (IsAncestor : RepositoryPath → GitObjectId → GitObjectId → Type 0)
    (merge_bases : (repository : RepositoryPath) (a b c : GitObjectId) (output : List ℕ)
      → run_git_bytes s (merge_base_arguments a b) (0 ∷ 1 ∷ []) repository ≡ ok output
      → contains (byte_lines output) (codes c.value) ≡ true
      → IsAncestor repository c a × IsAncestor repository c b)
    (decode : List ℕ → Option Text) (casefold : Text → Text) where
  abbrev pub Before : RepositoryPath → GitObjectId → GitObjectId → Type 0
  Before = IsProven s IsAncestor merge_bases

  -- The tree that git lists for the commit of the evidence has its entries.
  pub record IsListed (repository : RepositoryPath) (evidence : ArchiveEvidence) : Type 0 where
    pub raw : List ℕ
    pub listed :
        Prints s
          ("--no-replace-objects" ∷ "ls-tree" ∷ "-r" ∷ "-z" ∷ "--full-tree"
            ∷ evidence.selection.base_commit.value ∷ [])
          repository
          raw
    pub tree : TreeEntries
    pub is_tree : IsTree decode casefold raw evidence.selection.base_commit.object_format tree
    pub same_entries : Perm evidence.base_entries (map base_entry tree)
    pub parsed :
        parse_base_tree_entries decode casefold raw evidence.selection.base_commit.object_format
        ≡ ok tree
    pub whole : observed_entries tree ≡ evidence.base_entries

  pub is_observed-IsListed :
      (repository : RepositoryPath) (evidence : ArchiveEvidence)
      → Proves (IsListed repository evidence) (is_observed s decode casefold repository evidence)
  unfolding is_observed
  is_observed-IsListed repository evidence =
      Answers-after (λ b. b ≡ true → IsListed repository evidence)
        (run_git_bytes s (tree_arguments evidence.selection.base_commit) (0 ∷ []) repository) _
        λ raw listed.
          Answers-after (λ b. b ≡ true → IsListed repository evidence)
            (parse_base_tree_entries decode casefold raw
              evidence.selection.base_commit.object_format)
            _
            λ tree parsed same. record {
              raw = raw;
              listed = run-Prints s _ repository raw listed;
              tree = tree;
              is_tree =
                  Answers-answer _
                    (parse_base_tree_entries decode casefold raw
                      evidence.selection.base_commit.object_format)
                    tree
                    (parse_base_tree_entries-IsTree decode casefold raw
                      evidence.selection.base_commit.object_format)
                    parsed;
              same_entries =
                  subst (λ es. Perm es (map base_entry tree))
                    (same_entries-eq (observed_entries tree) evidence.base_entries same)
                    (observed_entries-Perm tree);
              parsed = parsed;
              whole = same_entries-eq (observed_entries tree) evidence.base_entries same;
            }

  pub record IsObsoleteResult (evidence : ArchiveEvidence) (context : RepositoryContext)
      : Type 0 where
    pub is_result : evidence.kind ≡ "result_bundle"
    pub moved : evidence.selection.base_commit ≢ context.base_commit
    pub original : IsOriginal s context.repository_path
    pub before : Before context.repository_path evidence.selection.base_commit context.base_commit
    pub contents : IsListed context.repository_path evidence

  pub record IsObsoletePackage (evidence : ArchiveEvidence) (r : ExchangeStateRecord)
      (context : RepositoryContext) : Type 0 where
    pub same_kind : r.kind ≡ evidence.kind
    pub same_binding : r.manifest ≡ some evidence.selection
    pub status : r.apply_status ≡ some succeeded
    pub commit : GitObjectId
    pub recorded : r.completed_commit ≡ some commit
    pub moved : evidence.selection.base_commit ≢ commit
    pub original : IsOriginal s context.repository_path
    pub before : Before context.repository_path evidence.selection.base_commit commit
    pub after : Before context.repository_path commit context.base_commit

  pub record IsObsolete (evidence : ArchiveEvidence) (entry : Option ExchangeStateRecord)
      (context : RepositoryContext) : Type 0 where
    pub clean : context.dirty ≡ false
    pub repository : evidence.selection.repo_id ≡ context.repo_id
    pub reason :
        ((r : ExchangeStateRecord) × (entry ≡ some r)
          × (evidence.kind ≡ "patch_package")
          × IsObsoletePackage evidence r context)
        ⊎ IsObsoleteResult evidence context
