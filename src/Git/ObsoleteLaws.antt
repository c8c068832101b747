-- ===== src/Git/ObsoleteLaws.antt =====
-- src/patchharbor/archive_git.py: what a proof that a bundle is obsolete has shown.
use patch_harbor.Base.{
  ℕ, ◌≡◌, ◌≢◌, refl, ap, inl, inr, Bool, true, false, ◌||◌, not, Option, none, some, List, [], ◌∷◌,
  arith, codes, ok, Answers, Answers-then, Answers-implies, ◌==◌, contains, same-key, string_eq,
  option_eq,
}
use patch_harbor.Models.{GitObjectId, repository_id_eq, git_object_id_eq}
use patch_harbor.Registry.Mapping.{RepositoryPath}
use patch_harbor.ExchangeState.Record.{ExchangeStateRecord, apply_status_eq, selection_eq}
use patch_harbor.Bundle.Member.{Text, text_eq}
use patch_harbor.Exchange.Select.{RepositoryContext}
use patch_harbor.Git.History.{
  GitHost, byte_lines, merge_base_arguments, run_git_bytes, require_original_history, is_ancestor,
}
use patch_harbor.Git.Original.{IsOriginal, original-IsOriginal}
use patch_harbor.Git.HistoryLaws.{IsProven, is_ancestor-IsProven, distinct_commits-ne}
use patch_harbor.Git.Obsolete.{
  ArchiveEvidence, may_be_result_state, is_applied, is_observed, is_proven_result_state, is_between,
  is_completed, is_obsolete_package, is_obsolete_result, is_proven_obsolete,
}
use patch_harbor.Git.Evidence.{
  Proves, never, Proves-and, Proves-if, is_applied-same, IsListed, is_observed-IsListed,
  IsObsoleteResult, IsObsoletePackage, IsObsolete,
}

-- The relation of ancestry and what git documents are as for the completed commits.
module _ (s : GitHost) (IsAncestor : RepositoryPath → GitObjectId → GitObjectId → Type 0)
    (merge_bases : (repository : RepositoryPath) (a b c : GitObjectId) (output : List ℕ)
      → run_git_bytes s (merge_base_arguments a b) (0 ∷ 1 ∷ []) repository ≡ ok output
      → contains (byte_lines output) (codes c.value) ≡ true
      → IsAncestor repository c a × IsAncestor repository c b)
    (decode : List ℕ → Option Text) (casefold : Text → Text) where
  abbrev Before : RepositoryPath → GitObjectId → GitObjectId → Type 0
  Before = IsProven s IsAncestor merge_bases

  -- A completed commit that is not the base, with the two proofs of ancestry
  abbrev IsBetween : ArchiveEvidence → RepositoryContext → GitObjectId → Type 0
  IsBetween evidence context c =
      (evidence.selection.base_commit ≢ c)
      × (IsOriginal s context.repository_path)
      × Before context.repository_path evidence.selection.base_commit c
      × Before context.repository_path c context.base_commit

  is_between-Before :
      (repository : RepositoryPath) (a b c : GitObjectId)
      → Proves
          (Before repository a b × Before repository b c)
          (is_between s decode casefold repository a b c)
  unfolding is_between
  is_between-Before repository a b c =
      Proves-and (Before repository a b) (Before repository b c) (is_ancestor s repository a b)
        (is_ancestor s repository b c)
        (is_ancestor-IsProven s IsAncestor merge_bases repository a b)
        (is_ancestor-IsProven s IsAncestor merge_bases repository b c)

  is_completed-IsBetween :
      (evidence : ArchiveEvidence) (context : RepositoryContext) (c : GitObjectId)
      → Proves (IsBetween evidence context c) (is_completed s decode casefold evidence context c)
  unfolding is_completed
  is_completed-IsBetween evidence context c =
      Proves-if (IsBetween evidence context c) (evidence.selection.base_commit == c) (ok false) _
        (λ same. never (IsBetween evidence context c))
        λ other.
          Answers-then (λ _. IsOriginal s context.repository_path)
            (λ b. b ≡ true → IsBetween evidence context c)
            (require_original_history s context.repository_path) _
            (original-IsOriginal s context.repository_path)
            λ u original.
              Answers-implies
                (λ b.
                  b ≡ true
                  → Before context.repository_path evidence.selection.base_commit c
                    × Before context.repository_path c context.base_commit)
                (λ b. b ≡ true → IsBetween evidence context c)
                (is_between s decode casefold context.repository_path evidence.selection.base_commit
                  c context.base_commit)
                (is_between-Before context.repository_path evidence.selection.base_commit c
                  context.base_commit)
                λ b h is. (
                  distinct_commits-ne evidence.selection.base_commit c (ap not other),
                  original,
                  (h is).0,
                  (h is).1,
                )

  abbrev Package : ArchiveEvidence → RepositoryContext → ExchangeStateRecord → Type 0
  Package evidence context r =
      IsObsoletePackage s IsAncestor merge_bases decode casefold evidence r context

  recorded-Package :
      (evidence : ArchiveEvidence) (context : RepositoryContext) (r : ExchangeStateRecord)
      (o : Option GitObjectId)
      → r.completed_commit ≡ o
      → is_applied evidence r ≡ true
      → Proves
          (Package evidence context r)
          (elim o [ none ↦ ok false | some c ↦ is_completed s decode casefold evidence context c ])
  recorded-Package evidence context r none recorded applied = never (Package evidence context r)
  recorded-Package evidence context r (some c) recorded applied =
      Answers-implies (λ b. b ≡ true → IsBetween evidence context c)
        (λ b. b ≡ true → Package evidence context r)
        (is_completed s decode casefold evidence context c)
        (is_completed-IsBetween evidence context c)
        λ b h is.
          let same = is_applied-same evidence r applied in
          let between = h is in
          record {
            same_kind = same.0;
            same_binding = same.1;
            status = same.2;
            commit = c;
            recorded = recorded;
            moved = between.0;
            original = between.1;
            before = between.2;
            after = between.3;
          }

  -- The record of the ledger for a package
  abbrev Applied : ArchiveEvidence → RepositoryContext → Option ExchangeStateRecord → Type 0
  Applied evidence context entry =
      (r : ExchangeStateRecord) × (entry ≡ some r)
      × IsObsoletePackage s IsAncestor merge_bases decode casefold evidence r context

  is_obsolete_package-Applied :
      (evidence : ArchiveEvidence) (context : RepositoryContext)
      (entry : Option ExchangeStateRecord)
      → Proves
          (Applied evidence context entry)
          (is_obsolete_package s decode casefold evidence context entry)
  unfolding is_obsolete_package
  is_obsolete_package-Applied evidence context none = never (Applied evidence context none)
  is_obsolete_package-Applied evidence context (some r) =
      Proves-if (Applied evidence context (some r)) (is_applied evidence r) _ (ok false)
        (λ applied.
          Answers-implies (λ b. b ≡ true → Package evidence context r)
            (λ b. b ≡ true → Applied evidence context (some r)) _
            (recorded-Package evidence context r r.completed_commit refl applied)
            λ b h is. (r, refl, h is))
        λ other. never (Applied evidence context (some r))

  -- The part of `IsObsoleteResult` that `is_proven_result_state` shows.
  abbrev IsResultState : ArchiveEvidence → RepositoryContext → Type 0
  IsResultState evidence context =
      (IsOriginal s context.repository_path)
      × Before context.repository_path evidence.selection.base_commit context.base_commit
      × IsListed s IsAncestor merge_bases decode casefold context.repository_path evidence

  is_proven_result_state-IsResultState :
      (evidence : ArchiveEvidence) (context : RepositoryContext)
      → Proves
          (IsResultState evidence context)
          (is_proven_result_state s decode casefold evidence context)
  unfolding is_proven_result_state
  is_proven_result_state-IsResultState evidence context =
      Proves-if (IsResultState evidence context) (may_be_result_state evidence context) _ (ok false)
        (λ may.
          Answers-then (λ _. IsOriginal s context.repository_path)
            (λ b. b ≡ true → IsResultState evidence context)
            (require_original_history s context.repository_path) _
            (original-IsOriginal s context.repository_path)
            λ u original.
              Answers-implies
                (λ b.
                  b ≡ true
                  → Before context.repository_path evidence.selection.base_commit
                      context.base_commit
                    × IsListed s IsAncestor merge_bases decode casefold context.repository_path
                        evidence)
                (λ b. b ≡ true → IsResultState evidence context) _
                (Proves-and _ _
                  (is_ancestor s context.repository_path evidence.selection.base_commit
                    context.base_commit)
                  (is_observed s decode casefold context.repository_path evidence)
                  (is_ancestor-IsProven s IsAncestor merge_bases context.repository_path
                    evidence.selection.base_commit context.base_commit)
                  (is_observed-IsListed s IsAncestor merge_bases decode casefold
                    context.repository_path evidence))
                λ b h is. (original, (h is).0, (h is).1))
        λ other. never (IsResultState evidence context)

  moved_result :
      (evidence : ArchiveEvidence) (context : RepositoryContext) (p q : Bool)
      → (not p || q) ≡ false
      → (p ≡ true) × (not q ≡ true)
  moved_result evidence context p q h = ground (arith, h)

  is_obsolete_result-IsObsoleteResult :
      (evidence : ArchiveEvidence) (context : RepositoryContext)
      → Proves
          (IsObsoleteResult s IsAncestor merge_bases decode casefold evidence context)
          (is_obsolete_result s decode casefold evidence context)
  unfolding is_obsolete_result
  is_obsolete_result-IsObsoleteResult evidence context =
      Proves-if (IsObsoleteResult s IsAncestor merge_bases decode casefold evidence context)
        (not (evidence.kind == "result_bundle")
          || evidence.selection.base_commit == context.base_commit)
        (ok false) (is_proven_result_state s decode casefold evidence context)
        (λ other.
          never (IsObsoleteResult s IsAncestor merge_bases decode casefold evidence context))
        λ may.
          Answers-implies (λ b. b ≡ true → IsResultState evidence context)
            (λ b.
              b ≡ true → IsObsoleteResult s IsAncestor merge_bases decode casefold evidence context)
            (is_proven_result_state s decode casefold evidence context)
            (is_proven_result_state-IsResultState evidence context)
            λ b h is.
              let tests =
                moved_result evidence context (evidence.kind == "result_bundle")
                  (evidence.selection.base_commit == context.base_commit) may in
              record {
                is_result = same-key evidence.kind "result_bundle" tests.0;
                moved =
                    distinct_commits-ne evidence.selection.base_commit context.base_commit tests.1;
                original = (h is).0;
                before = (h is).1;
                contents = (h is).2;
              }

  in_scope_tests : (p q : Bool) → (p || not q) ≡ false → (p ≡ false) × (q ≡ true)
  in_scope_tests p q h = ground (arith, h)

  pub is_proven_obsolete-Proves :
      (evidence : ArchiveEvidence) (context : RepositoryContext)
      (entry : Option ExchangeStateRecord)
      → Answers
          (λ obsolete.
            obsolete ≡ true
            → IsObsolete s IsAncestor merge_bases decode casefold evidence entry context)
          (is_proven_obsolete s decode casefold evidence context entry)
  unfolding is_proven_obsolete
  is_proven_obsolete-Proves evidence context entry =
      Proves-if (IsObsolete s IsAncestor merge_bases decode casefold evidence entry context)
        (context.dirty || not (evidence.selection.repo_id == context.repo_id)) (ok false) _
        (λ other.
          never (IsObsolete s IsAncestor merge_bases decode casefold evidence entry context))
        λ scoped.
          let tests =
            in_scope_tests context.dirty (evidence.selection.repo_id == context.repo_id) scoped in
          let repository = same-key evidence.selection.repo_id context.repo_id tests.1 in
          Proves-if (IsObsolete s IsAncestor merge_bases decode casefold evidence entry context)
            (evidence.kind == "patch_package") _ _
            (λ kind.
              Answers-implies (λ b. b ≡ true → Applied evidence context entry)
                (λ b.
                  b ≡ true
                  → IsObsolete s IsAncestor merge_bases decode casefold evidence entry context)
                _ (is_obsolete_package-Applied evidence context entry)
                λ b h is. record {
                  clean = tests.0;
                  repository = repository;
                  reason =
                      inl
                        ((h is).0, (h is).1, same-key evidence.kind "patch_package" kind, (h is).2);
                })
            λ other.
              Answers-implies
                (λ b.
                  b ≡ true
                  → IsObsoleteResult s IsAncestor merge_bases decode casefold evidence context)
                (λ b.
                  b ≡ true
                  → IsObsolete s IsAncestor merge_bases decode casefold evidence entry context)
                _ (is_obsolete_result-IsObsoleteResult evidence context)
                λ b h is. record { clean = tests.0; repository = repository; reason = inr (h is) }
