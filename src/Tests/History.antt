-- ===== src/Tests/History.antt =====
-- Runs of the proofs over the history of a repository: src/patchharbor/archive_git.py.
use patch_harbor.Base.{
  ◌↔◌, ℕ, String, ◌≡◌, refl, ap, ◌⊎◌, inl, inr, Bool, true, false, ◌&&◌, ◌||◌, none, some, List, [],
  ◌∷◌, ◌++◌, arith, codes, if◌then◌else◌, ok, Answers, Answers-answer, ◌==◌, contains, string_eq,
  nat_eq, option_eq, same-key,
}
use patch_harbor.Models.{
  GitObjectId, sha1, repository_id_eq, git_object_id_eq, git_object_format_eq,
}
use patch_harbor.Paths.{is_absolute, child}
use patch_harbor.Registry.Mapping.{RepositoryPath, repository_path_eq}
use patch_harbor.Bundle.Member.{text_eq}
use patch_harbor.Exchange.Select.{RepositoryContext}
use patch_harbor.Git.History.{
  GitHost, GitRun, exited, accepted_output, byte_lines, merge_base_arguments, run_git_bytes,
  is_ancestor, require_original_history, completed_commit_for_context,
}
use patch_harbor.Git.HistoryLaws.{IsCompletion, completed_commit_for_context-IsCompletion}
use patch_harbor.ExchangeState.Record.{
  succeeded, ExchangeStateRecord, selection_eq, apply_status_eq,
}
use patch_harbor.Git.Obsolete.{
  ArchiveEvidence, is_applied, is_between, is_completed, is_obsolete_package, is_proven_obsolete,
}
use patch_harbor.Tests.Exchange.{base, manifest, digest}

abbrev next : GitObjectId
next = record { value = "89abcdef0123456789abcdef0123456789abcdef"; object_format = sha1 }

abbrev at : GitObjectId → RepositoryContext
at commit = record {
  repo_id = manifest.repo_id;
  repository_path = record { value = "/work/app" };
  base_commit = commit;
  dirty = false;
  state_fingerprint = "0123456789abcdef";
  fingerprint_algorithm = "patchharbor-state-v1";
}

-- A git whose repositories have a first commit and a next one. The base of two commits is the next
-- one if both are that, or else the first one.
abbrev are_next : List String → Bool
are_next (flag ∷ a ∷ b ∷ []) = a == next.value && b == next.value
are_next _ = false

abbrev merge_base : Bool → List ℕ
merge_base true = codes next.value ++ 10 ∷ []
merge_base false = codes base.value ++ 10 ∷ []

abbrev answer : String → List String → List ℕ
answer command rest =
    if command == "merge-base"
    then merge_base (are_next rest)
    else if command == "cat-file"
    then codes "commit" ++ 10 ∷ []
    else if command == "rev-parse"
    then codes "false" ++ 10 ∷ []
    else []

abbrev git : List String → RepositoryPath → GitRun
git (flag ∷ command ∷ rest) cwd = exited 0 (answer command rest)
git _ cwd = exited 1 []

abbrev host : GitHost
host = record {
  git = git;
  stripped_text = λ _. some ".git/info/grafts";
  is_missing = λ _. some true;
}

abbrev IsFirst : RepositoryPath → GitObjectId → GitObjectId → Type 0
IsFirst repository a b =
    (codes a.value ≡ codes base.value)
    ⊎ ((codes a.value ≡ codes next.value) × (codes b.value ≡ codes next.value))

-- What such a git says of the commit in a line.
abbrev Named : RepositoryPath → GitObjectId → GitObjectId → GitObjectId → List ℕ → Type 0
Named repository a b c output =
    contains (byte_lines output) (codes c.value) ≡ true
    → IsFirst repository c a × IsFirst repository c b

only_line : (x l : List ℕ) → (l == x || false) ≡ true → l ≡ x
only_line x l h = same-key l x (last_test (l == x) h)
  where
    last_test : (b : Bool) → (b || false) ≡ true → b ≡ true
    last_test b h = ground arith

both_next :
    (p q : String)
    → (p == next.value && q == next.value) ≡ true
    → (p ≡ next.value) × (q ≡ next.value)
both_next p q h = ground (arith, same-key p next.value, same-key q next.value, h)

merge_base-Named :
    (repository : RepositoryPath) (a b c : GitObjectId) (both : Bool)
    → (both ≡ true → (a.value ≡ next.value) × (b.value ≡ next.value))
    → Named repository a b c (merge_base both)
unfolding byte_lines
merge_base-Named repository a b c true are h =
    let is = only_line (codes next.value) (codes c.value) h in
    (inr (is, ap codes (are refl).0), inr (is, ap codes (are refl).1))
merge_base-Named repository a b c false are h =
    let is = only_line (codes base.value) (codes c.value) h in (inl is, inl is)

host-Named :
    (repository : RepositoryPath) (a b c : GitObjectId)
    → Answers
        (Named repository a b c)
        (run_git_bytes host (merge_base_arguments a b) (0 ∷ 1 ∷ []) repository)
unfolding run_git_bytes accepted_output string_eq nat_eq
host-Named repository a b c =
    merge_base-Named repository a b c (a.value == next.value && b.value == next.value)
      (both_next a.value b.value)

host-merge_bases :
    (repository : RepositoryPath) (a b c : GitObjectId) (output : List ℕ)
    → run_git_bytes host (merge_base_arguments a b) (0 ∷ 1 ∷ []) repository ≡ ok output
    → contains (byte_lines output) (codes c.value) ≡ true
    → IsFirst repository c a × IsFirst repository c b
host-merge_bases repository a b c output printed listed =
    Answers-answer (Named repository a b c)
      (run_git_bytes host (merge_base_arguments a b) (0 ∷ 1 ∷ []) repository) output
      (host-Named repository a b c) printed listed

completed_commit_for_context-IsCompletion_example :
    (completed_commit_for_context host (at base) (at next) ≡ ok (some next))
    ↔ IsCompletion host IsFirst host-merge_bases (at base) (at next) next
completed_commit_for_context-IsCompletion_example =
    completed_commit_for_context-IsCompletion host IsFirst host-merge_bases (at base) (at next) next

completes : completed_commit_for_context host (at base) (at next) ≡ ok (some next)
unfolding completed_commit_for_context require_original_history repository_id_eq repository_path_eq
    git_object_id_eq git_object_format_eq string_eq nat_eq text_eq is_absolute child
completes = refl

abbrev evidence : ArchiveEvidence
evidence = record {
  kind = "patch_package";
  selection = record {
    repo_id = manifest.repo_id;
    base_commit = base;
    state_fingerprint = "0123456789abcdef";
    fingerprint_algorithm = "patchharbor-state-v1";
  };
  base_entries = [];
}

abbrev entry : ExchangeStateRecord
entry = record {
  identity = record { path = "/exchange/a.zip"; sha256 = digest };
  kind = "patch_package";
  manifest = some evidence.selection;
  apply_status = some succeeded;
  completed_commit = some next;
  attempt_run_id = none;
  result_sha256 = none;
}

is_obsolete :
    is_proven_obsolete host (λ b. some b) (λ t. t) evidence (at next) (some entry) ≡ ok true
unfolding is_proven_obsolete is_obsolete_package is_completed is_between is_applied
    require_original_history is_ancestor repository_id_eq repository_path_eq git_object_id_eq
    git_object_format_eq string_eq nat_eq text_eq is_absolute child option_eq selection_eq
    apply_status_eq
is_obsolete = refl
