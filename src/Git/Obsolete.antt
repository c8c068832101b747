-- ===== src/Git/Obsolete.antt =====
-- src/patchharbor/archive_git.py: which bundles are proven to be obsolete, by the evidence of
-- src/patchharbor/archive_evidence.py.
use patch_harbor.Base.{
  ℕ, String, Bool, true, false, ◌&&◌, ◌||◌, not, Option, none, some, List, [], ◌∷◌, before_or_equal,
  if◌then◌else◌, Result, ok, ◌>>=◌, ◌>>◌, ◌==◌, string_eq, option_eq,
}
use patch_harbor.Models.{GitObjectId, repository_id_eq, git_object_id_eq}
use patch_harbor.Registry.Mapping.{RepositoryPath}
use patch_harbor.ExchangeState.Record.{
  succeeded, ExchangePatchSelection, ExchangeStateRecord, apply_status_eq, selection_eq,
}
use patch_harbor.Bundle.Member.{Text, text_eq}
use patch_harbor.Exchange.Select.{RepositoryContext}
use patch_harbor.Git.History.{
  GitHost, HistoryError, run_git_bytes, require_original_history, is_ancestor,
}
use patch_harbor.Git.Tree.{TreeEntries, parse_base_tree_entries}

-- `(path, mode, object ID)`, each by its text.
pub record BaseEntry : Type 0 where
  pub path : Text
  pub mode : Text
  pub object_id : Text

-- The fields of `ArchiveEvidence` that the proofs read.
pub record ArchiveEvidence : Type 0 where
  pub kind : String
  pub selection : ExchangePatchSelection
  pub base_entries : List BaseEntry

-- The order of tuples
unfoldable pub entry_before_or_equal : BaseEntry → BaseEntry → Bool
unfolding before_or_equal text_eq
entry_before_or_equal e f =
    if e.path == f.path
    then (if e.mode == f.mode
        then before_or_equal e.object_id f.object_id
        else before_or_equal e.mode f.mode)
    else before_or_equal e.path f.path

unfoldable pub insert_base : BaseEntry → List BaseEntry → List BaseEntry
unfolding entry_before_or_equal
insert_base e [] = e ∷ []
insert_base e (f ∷ entries) =
    let rest = insert_base e entries in
    if entry_before_or_equal e f then e ∷ f ∷ entries else f ∷ rest

-- `tuple(sorted(… for entry in tree))`
unfoldable pub observed_entries : TreeEntries → List BaseEntry
unfolding insert_base
observed_entries [] = []
observed_entries ((p, (mode, o)) ∷ tree) =
    insert_base (record { path = p.decoded; mode = mode; object_id = o }) (observed_entries tree)

-- `observed == evidence.base_entries`
unfoldable pub same_entries : List BaseEntry → List BaseEntry → Bool
unfolding text_eq
same_entries [] [] = true
same_entries (e ∷ es) (f ∷ fs) =
    e.path == f.path && e.mode == f.mode && e.object_id == f.object_id && same_entries es fs
same_entries _ _ = false

abbrev pub tree_arguments : GitObjectId → List String
tree_arguments commit =
    "--no-replace-objects" ∷ "ls-tree" ∷ "-r" ∷ "-z" ∷ "--full-tree" ∷ commit.value ∷ []

unfoldable pub may_be_result_state : ArchiveEvidence → RepositoryContext → Bool
unfolding string_eq repository_id_eq
may_be_result_state evidence context =
    evidence.kind == "result_bundle"
    && not context.dirty
    && evidence.selection.repo_id == context.repo_id

-- The tests on the record of a package
unfoldable pub is_applied : ArchiveEvidence → ExchangeStateRecord → Bool
unfolding string_eq option_eq selection_eq apply_status_eq
is_applied evidence r =
    r.kind == evidence.kind
    && r.manifest == some evidence.selection
    && r.apply_status == some succeeded

module _ (s : GitHost) (decode : List ℕ → Option Text) (casefold : Text → Text) where
  unfoldable pub is_observed : RepositoryPath → ArchiveEvidence → Result HistoryError Bool
  unfolding run_git_bytes parse_base_tree_entries observed_entries same_entries
  is_observed repository evidence = do
    raw ← run_git_bytes s (tree_arguments evidence.selection.base_commit) (0 ∷ []) repository
    tree ← parse_base_tree_entries decode casefold raw evidence.selection.base_commit.object_format
    ok (same_entries (observed_entries tree) evidence.base_entries)

  -- `is_proven_result_state`
  unfoldable pub is_proven_result_state :
      ArchiveEvidence → RepositoryContext → Result HistoryError Bool
  unfolding may_be_result_state require_original_history is_ancestor is_observed
  is_proven_result_state evidence context =
      if may_be_result_state evidence context
      then (do
        require_original_history s context.repository_path
        is_before ←
            is_ancestor s context.repository_path evidence.selection.base_commit context.base_commit
        if is_before then is_observed context.repository_path evidence else ok false)
      else ok false

  -- The two proofs of ancestry behind `and`
  unfoldable pub is_between :
      RepositoryPath → GitObjectId → GitObjectId → GitObjectId → Result HistoryError Bool
  unfolding is_ancestor
  is_between repository a b c = do
    is_before ← is_ancestor s repository a b
    if is_before then is_ancestor s repository b c else ok false

  -- The branch for a package whose record has a completed commit
  unfoldable pub is_completed :
      ArchiveEvidence → RepositoryContext → GitObjectId → Result HistoryError Bool
  unfolding require_original_history is_between git_object_id_eq
  is_completed evidence context completed_commit =
      if evidence.selection.base_commit == completed_commit then ok false else (do
        require_original_history s context.repository_path
        is_between context.repository_path evidence.selection.base_commit completed_commit
            context.base_commit)

  -- The branch for a package
  unfoldable pub is_obsolete_package :
      ArchiveEvidence → RepositoryContext → Option ExchangeStateRecord → Result HistoryError Bool
  unfolding is_applied is_completed
  is_obsolete_package evidence context none = ok false
  is_obsolete_package evidence context (some r) =
      if is_applied evidence r
      then elim r.completed_commit [ none ↦ ok false | some c ↦ is_completed evidence context c ]
      else ok false

  -- The branch for a result
  unfoldable pub is_obsolete_result : ArchiveEvidence → RepositoryContext → Result HistoryError Bool
  unfolding string_eq git_object_id_eq is_proven_result_state
  is_obsolete_result evidence context =
      if not (evidence.kind == "result_bundle")
        || evidence.selection.base_commit == context.base_commit
      then ok false
      else is_proven_result_state evidence context

  -- `is_proven_obsolete`
  unfoldable pub is_proven_obsolete :
      ArchiveEvidence → RepositoryContext → Option ExchangeStateRecord → Result HistoryError Bool
  unfolding string_eq repository_id_eq is_obsolete_package is_obsolete_result
  is_proven_obsolete evidence context entry =
      if context.dirty || not (evidence.selection.repo_id == context.repo_id)
      then ok false
      else if evidence.kind == "patch_package"
      then is_obsolete_package evidence context entry
      else is_obsolete_result evidence context
