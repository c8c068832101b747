-- ===== src/Git/History.antt =====
-- src/patchharbor/archive_git.py: the proofs over the original history, with `run_git_bytes` of
-- src/patchharbor/git_commands.py.
use patch_harbor.Base.{
  ℕ, String, Bool, true, false, ◌&&◌, ◌||◌, not, Option, none, some, List, [], ◌∷◌, leb, ◌=ℕ◌,
  codes, if◌then◌else◌, Result, ok, err, ◌>>=◌, ◌>>◌, require, ◌==◌, contains, nat_eq, string_eq,
}
use patch_harbor.Models.{GitObjectId, repository_id_eq, git_object_id_eq, git_object_format_eq}
use patch_harbor.Paths.{is_absolute, child}
use patch_harbor.Registry.Mapping.{RepositoryPath, repository_path_eq}
use patch_harbor.Bundle.Member.{text_eq}
use patch_harbor.Package.Script.{add_to_line, follows_return}
use patch_harbor.Exchange.Select.{RepositoryContext}

pub data HistoryError : Type 0 where
  git_not_started query_failed not_original undecodable uninspectable : HistoryError
  malformed_tree unsupported_path : HistoryError

-- How a command ended: it could not be started, or it exited with a code and an output.
pub data GitRun : Type 0 where
  not_started : GitRun
  exited : ℕ → List ℕ → GitRun

-- The git command, whose arguments follow the canonical prefix, and what the platform says of a path.
-- `stripped_text` is `raw.decode("utf-8").strip()`.
pub record GitHost : Type 0 where
  pub git : List String → RepositoryPath → GitRun
  pub stripped_text : List ℕ → Option String
  pub is_missing : String → Option Bool

unfoldable pub accepted_output : List ℕ → GitRun → Result HistoryError (List ℕ)
unfolding nat_eq
accepted_output codes not_started = err git_not_started
accepted_output codes (exited code stdout) =
    if contains codes code then ok stdout else err query_failed

abbrev is_space : ℕ → Bool
is_space c = leb 9 c && leb c 13 || c =ℕ 32

unfoldable pub without_leading : List ℕ → List ℕ
without_leading [] = []
without_leading (c ∷ cs) = let rest = without_leading cs in if is_space c then rest else c ∷ cs

abbrev pub has_none : List ℕ → Bool
has_none [] = true
has_none (c ∷ cs) = false

unfoldable pub without_trailing : List ℕ → List ℕ
without_trailing [] = []
without_trailing (c ∷ cs) =
    let rest = without_trailing cs in if is_space c && has_none rest then [] else c ∷ rest

-- `raw.strip()` on bytes
unfoldable pub strip : List ℕ → List ℕ
unfolding without_leading without_trailing
strip raw = without_trailing (without_leading raw)

-- `raw.splitlines()` on bytes
unfoldable pub byte_lines : List ℕ → List (List ℕ)
byte_lines [] = []
byte_lines (c ∷ cs) =
    let rest = byte_lines cs in
    if c =ℕ 13 && follows_return cs
    then rest
    else if c =ℕ 10 || c =ℕ 13
    then [] ∷ rest
    else add_to_line c rest

-- `dict.fromkeys((ancestor, descendant))`
unfoldable pub distinct_commits : GitObjectId → GitObjectId → List GitObjectId
unfolding git_object_id_eq
distinct_commits a b = if a == b then a ∷ [] else a ∷ b ∷ []

-- `bases == [line]`
unfoldable pub is_only : List (List ℕ) → List ℕ → Bool
unfolding text_eq
is_only (base ∷ []) line = base == line
is_only _ line = false

abbrev pub merge_base_arguments : GitObjectId → GitObjectId → List String
merge_base_arguments a b = "--no-replace-objects" ∷ "merge-base" ∷ "--all" ∷ a.value ∷ b.value ∷ []

unfoldable pub graft_path : RepositoryPath → String → String
unfolding is_absolute child
graft_path repository text = if is_absolute text then text else child repository.value text

abbrev pub present_or_raise {ℓ} : {A : Type ℓ} → HistoryError → Option A → Result HistoryError A
present_or_raise e none = err e
present_or_raise e (some a) = ok a

unfoldable pub may_complete : RepositoryContext → RepositoryContext → Bool
unfolding repository_id_eq repository_path_eq git_object_id_eq
may_complete before after =
    before.repo_id == after.repo_id
    && before.repository_path == after.repository_path
    && not (before.base_commit == after.base_commit)
    && not after.dirty

module _ (s : GitHost) where
  -- `run_git_bytes`
  unfoldable pub run_git_bytes :
      List String → List ℕ → RepositoryPath → Result HistoryError (List ℕ)
  unfolding accepted_output
  run_git_bytes arguments accepted_returncodes cwd =
      accepted_output accepted_returncodes (s.git arguments cwd)

  -- `require_original_history`
  unfoldable pub require_original_history : RepositoryPath → Result HistoryError (Unit {0})
  unfolding run_git_bytes strip text_eq graft_path
  require_original_history repository = do
    shallow ←
        run_git_bytes ("--no-replace-objects" ∷ "rev-parse" ∷ "--is-shallow-repository" ∷ [])
          (0 ∷ []) repository
    require (strip shallow == codes "false") not_original
    replaced ←
        run_git_bytes
          ("--no-replace-objects" ∷ "for-each-ref" ∷ "--format=%(refname)" ∷ "refs/replace/" ∷ [])
          (0 ∷ []) repository
    require (has_none (strip replaced)) not_original
    printed ←
        run_git_bytes ("--no-replace-objects" ∷ "rev-parse" ∷ "--git-path" ∷ "info/grafts" ∷ [])
          (0 ∷ []) repository
    text ← present_or_raise undecodable (s.stripped_text printed)
    missing ← present_or_raise uninspectable (s.is_missing (graft_path repository text))
    require missing not_original

  -- The loop of `is_ancestor` over the distinct commits
  unfoldable pub are_commits : RepositoryPath → List GitObjectId → Result HistoryError Bool
  unfolding run_git_bytes strip text_eq
  are_commits repository [] = ok true
  are_commits repository (c ∷ commits) = do
    kind ←
        run_git_bytes ("--no-replace-objects" ∷ "cat-file" ∷ "-t" ∷ c.value ∷ []) (0 ∷ [])
          repository
    let rest = are_commits repository commits in
        if strip kind == codes "commit" then rest else ok false

  unfoldable pub has_base : RepositoryPath → GitObjectId → GitObjectId → Result HistoryError Bool
  unfolding run_git_bytes byte_lines is_only
  has_base repository a b = do
    bases ← run_git_bytes (merge_base_arguments a b) (0 ∷ 1 ∷ []) repository
    ok (is_only (byte_lines bases) (codes a.value))

  -- `is_ancestor`
  unfoldable pub is_ancestor : RepositoryPath → GitObjectId → GitObjectId → Result HistoryError Bool
  unfolding git_object_format_eq distinct_commits are_commits has_base
  is_ancestor repository ancestor descendant =
      if ancestor.object_format == descendant.object_format
      then (do
        known ← are_commits repository (distinct_commits ancestor descendant)
        if known then has_base repository ancestor descendant else ok false)
      else ok false

  -- `completed_commit_for_context`
  unfoldable pub completed_commit_for_context :
      RepositoryContext → RepositoryContext → Result HistoryError (Option GitObjectId)
  unfolding may_complete require_original_history is_ancestor
  completed_commit_for_context before after =
      if may_complete before after
      then (do
        require_original_history after.repository_path
        proven ← is_ancestor after.repository_path before.base_commit after.base_commit
        ok (if proven then some after.base_commit else none))
      else ok none
