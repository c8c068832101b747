-- ===== src/Git/HistoryLaws.antt =====
-- src/patchharbor/archive_git.py: which commit a context is said to have completed.
use mathlib.Core.Path.{subst}
use patch_harbor.Base.{
  ◌↔◌, ◌∙◌, sym, Answers-with, Answers-answer, ℕ, ◌≡◌, ◌≢◌, refl, ap, ◌⊎◌, inl, inr, nat_eq,
  bind_ok, Bool, true, false, ◌&&◌, not, Option, none, some, List, [], ◌∷◌, arith, codes,
  if◌then◌else◌, ok, Answers, Answers-after, Answers-then, Answers-implies, Bool-cases, ◌==◌,
  contains, same-key, same-key_refl, equal_test, unequal_test,
}
use patch_harbor.Models.{GitObjectId, repository_id_eq, git_object_id_eq, git_object_format_eq}
use patch_harbor.Registry.Mapping.{RepositoryPath, repository_path_eq}
use patch_harbor.Bundle.Member.{text_eq}
use patch_harbor.Exchange.Select.{RepositoryContext}
use patch_harbor.Git.History.{
  GitHost, exited, byte_lines, is_only, merge_base_arguments, distinct_commits, may_complete,
  run_git_bytes, require_original_history, are_commits, has_base, is_ancestor,
  completed_commit_for_context,
}
use patch_harbor.Git.Original.{
  run-exited, exited-run, IsOriginal, original-IsOriginal, IsOriginal-original, IsKnown,
  are_commits-AreKnown, AreKnown-are_commits,
}

is_only-eq : (bases : List (List ℕ)) (line : List ℕ) → is_only bases line ≡ true → bases ≡ line ∷ []
unfolding is_only
is_only-eq [] line h = cc
is_only-eq (base ∷ []) line h = ap (λ x. x ∷ []) (same-key base line h)
is_only-eq (base ∷ b ∷ bases) line h = cc

eq-is_only : (bases : List (List ℕ)) (line : List ℕ) → bases ≡ line ∷ [] → is_only bases line ≡ true
unfolding is_only
eq-is_only bases line h = ap (λ x. is_only x line) h ∙ same-key_refl line

accepted_base : (code : ℕ) → contains (0 ∷ 1 ∷ []) code ≡ true → (code ≡ 0) ⊎ (code ≡ 1)
unfolding nat_eq
accepted_base code h = ground (arith, h)

base_accepted : (code : ℕ) → (code ≡ 0) ⊎ (code ≡ 1) → contains (0 ∷ 1 ∷ []) code ≡ true
unfolding nat_eq
base_accepted code (inl h) = ground (arith, h)
base_accepted code (inr h) = ground (arith, h)

is_only-contains :
    (bases : List (List ℕ)) (line : List ℕ) → is_only bases line ≡ true → contains bases line ≡ true
unfolding is_only
is_only-contains [] line h = cc
is_only-contains (base ∷ []) line h = ground (arith, h)
is_only-contains (base ∷ b ∷ bases) line h = cc

all_four :
    (p q r t : Bool) → (p && q && r && t) ≡ true → (p ≡ true) × (q ≡ true) × (r ≡ true) × (t ≡ true)
all_four p q r t h = ground (arith, h)

pub distinct_commits-ne : (a b : GitObjectId) → not (a == b) ≡ true → a ≢ b
distinct_commits-ne a b h e = ground (arith, same-key_refl a, ap (λ c. not (a == c)) e, h)

may_complete-same :
    (before after : RepositoryContext)
    → may_complete before after ≡ true
    → (before.repo_id ≡ after.repo_id)
      × (before.repository_path ≡ after.repository_path)
      × (before.base_commit ≢ after.base_commit)
      × (after.dirty ≡ false)
unfolding may_complete
may_complete-same before after h =
    let parts =
      all_four (before.repo_id == after.repo_id) (before.repository_path == after.repository_path)
        (not (before.base_commit == after.base_commit)) (not after.dirty) h in
    (
      same-key before.repo_id after.repo_id parts.0,
      same-key before.repository_path after.repository_path parts.1,
      distinct_commits-ne before.base_commit after.base_commit parts.2,
      ground (arith, parts.3),
    )

-- Git is not modelled. `IsAncestor` is its relation between the commits of a repository, and
-- `merge_bases` what git documents of `merge-base --all`: each line of its output is the name of a
-- common ancestor of the two commits.
module _ (s : GitHost) (IsAncestor : RepositoryPath → GitObjectId → GitObjectId → Type 0)
    (merge_bases : (repository : RepositoryPath) (a b c : GitObjectId) (output : List ℕ)
      → run_git_bytes s (merge_base_arguments a b) (0 ∷ 1 ∷ []) repository ≡ ok output
      → contains (byte_lines output) (codes c.value) ≡ true
      → IsAncestor repository c a × IsAncestor repository c b) where
  has_base-IsAncestor :
      (repository : RepositoryPath) (a b : GitObjectId)
      → Answers (λ proven. proven ≡ true → IsAncestor repository a b) (has_base s repository a b)
  unfolding has_base
  has_base-IsAncestor repository a b =
      Answers-after (λ proven. proven ≡ true → IsAncestor repository a b)
        (run_git_bytes s (merge_base_arguments a b) (0 ∷ 1 ∷ []) repository) _
        λ output is only.
          (merge_bases repository a b a output is
            (is_only-contains (byte_lines output) (codes a.value) only)).1

  -- Git prints the first commit, and nothing else, as the merge bases of the two.
  pub record IsOnlyBase (repository : RepositoryPath) (a b : GitObjectId) : Type 0 where
    pub code : ℕ
    pub output : List ℕ
    pub printed :
        s.git ("--no-replace-objects" ∷ "merge-base" ∷ "--all" ∷ a.value ∷ b.value ∷ []) repository
        ≡ exited code output
    pub accepted : (code ≡ 0) ⊎ (code ≡ 1)
    pub only : byte_lines output ≡ codes a.value ∷ []

  has_base-IsOnlyBase :
      (repository : RepositoryPath) (a b : GitObjectId)
      → Answers (λ proven. proven ≡ true → IsOnlyBase repository a b) (has_base s repository a b)
  unfolding has_base
  has_base-IsOnlyBase repository a b =
      Answers-after (λ proven. proven ≡ true → IsOnlyBase repository a b)
        (run_git_bytes s (merge_base_arguments a b) (0 ∷ 1 ∷ []) repository) _
        λ output is only.
          let (code, printed, accepts) =
            run-exited s (merge_base_arguments a b) (0 ∷ 1 ∷ []) repository output is in
          record {
            code = code;
            output = output;
            printed = printed;
            accepted = accepted_base code accepts;
            only = is_only-eq (byte_lines output) (codes a.value) only;
          }

  IsOnlyBase-has_base :
      (repository : RepositoryPath) (a b : GitObjectId)
      → IsOnlyBase repository a b
      → has_base s repository a b ≡ ok true
  unfolding has_base
  IsOnlyBase-has_base repository a b h =
      bind_ok (run_git_bytes s (merge_base_arguments a b) (0 ∷ 1 ∷ []) repository) h.output _ (
        exited-run s (merge_base_arguments a b) (0 ∷ 1 ∷ []) repository h.code h.output h.printed
          (base_accepted h.code h.accepted))
      ∙ ap (λ (p : Bool). ok p) (eq-is_only (byte_lines h.output) (codes a.value) h.only)

  -- What a proof of ancestry has shown.
  pub record IsProven (repository : RepositoryPath) (a b : GitObjectId) : Type 0 where
    pub same_format : a.object_format ≡ b.object_format
    pub known_ancestor : IsKnown s repository a
    pub known_descendant : IsKnown s repository b
    pub base : IsOnlyBase repository a b
    pub ancestor : IsAncestor repository a b

  known-IsProven :
      (repository : RepositoryPath) (a b : GitObjectId) (known : Bool)
      → a.object_format ≡ b.object_format
      → are_commits s repository (distinct_commits a b) ≡ ok known
      → Answers
          (λ proven. proven ≡ true → IsProven repository a b)
          (if known then has_base s repository a b else ok false)
  known-IsProven repository a b false same is = λ h. cc
  known-IsProven repository a b true same is =
      Answers-implies _ (λ proven. proven ≡ true → IsProven repository a b)
        (has_base s repository a b)
        (Answers-with (λ proven. proven ≡ true → IsAncestor repository a b)
          (has_base s repository a b) (has_base-IsAncestor repository a b))
        λ proven h is_proven. record {
          same_format = same;
          known_ancestor = (are_commits-AreKnown s repository a b is).0;
          known_descendant = (are_commits-AreKnown s repository a b is).1;
          base =
              Answers-answer _ (has_base s repository a b) true (has_base-IsOnlyBase repository a b)
                (h.1 ∙ ap ok is_proven) refl;
          ancestor = h.0 is_proven;
        }

  pub is_ancestor-IsProven :
      (repository : RepositoryPath) (a b : GitObjectId)
      → Answers (λ proven. proven ≡ true → IsProven repository a b) (is_ancestor s repository a b)
  unfolding is_ancestor
  is_ancestor-IsProven repository a b = elim (Bool-cases (a.object_format == b.object_format)) [
    | inr other ↦ rw (other, is_ancestor) (λ h. cc)
    | inl same ↦
        rw (same, is_ancestor)
          (Answers-after (λ proven. proven ≡ true → IsProven repository a b)
            (are_commits s repository (distinct_commits a b)) _
            λ known is.
              known-IsProven repository a b known (same-key a.object_format b.object_format same)
                is)
  ]

  -- Such a proof is found.
  pub IsProven-is_ancestor :
      (repository : RepositoryPath) (a b : GitObjectId)
      → IsProven repository a b
      → is_ancestor s repository a b ≡ ok true
  unfolding is_ancestor
  IsProven-is_ancestor repository a b h =
      rw
        (
          equal_test a.object_format b.object_format h.same_format,
          AreKnown-are_commits s repository a b (h.known_ancestor, h.known_descendant),
          is_ancestor,
        )
        (IsOnlyBase-has_base repository a b h.base)

  -- A commit that was completed from one context to another.
  pub record IsCompletion (before after : RepositoryContext) (c : GitObjectId) : Type 0 where
    pub repository : before.repo_id ≡ after.repo_id
    pub path : before.repository_path ≡ after.repository_path
    pub moved : before.base_commit ≢ c
    pub clean : after.dirty ≡ false
    pub head : c ≡ after.base_commit
    pub original : IsOriginal s after.repository_path
    pub proven : IsProven after.repository_path before.base_commit c

  abbrev pub Completed : RepositoryContext → RepositoryContext → Option GitObjectId → Type 0
  Completed before after none = Unit
  Completed before after (some c) = IsCompletion before after c

  completed :
      (before after : RepositoryContext) (proven : Bool)
      → may_complete before after ≡ true
      → IsOriginal s after.repository_path
      → (proven ≡ true → IsProven after.repository_path before.base_commit after.base_commit)
      → Completed before after (if proven then some after.base_commit else none)
  completed before after false may original h = tt
  completed before after true may original h =
      let same = may_complete-same before after may in
      record {
        repository = same.0;
        path = same.1;
        moved = same.2;
        clean = same.3;
        head = refl;
        original = original;
        proven = h refl;
      }

  completed_commit_for_context-Completed :
      (before after : RepositoryContext)
      → Answers (Completed before after) (completed_commit_for_context s before after)
  unfolding completed_commit_for_context
  completed_commit_for_context-Completed before after =
      elim (Bool-cases (may_complete before after)) [
        | inr other ↦ rw (other, completed_commit_for_context) tt
        | inl may ↦
            rw (may, completed_commit_for_context)
              (Answers-then (λ _. IsOriginal s after.repository_path) (Completed before after)
                (require_original_history s after.repository_path) _
                (original-IsOriginal s after.repository_path)
                λ u original.
                  Answers-then _ (Completed before after)
                    (is_ancestor s after.repository_path before.base_commit after.base_commit) _
                    (is_ancestor-IsProven after.repository_path before.base_commit
                      after.base_commit)
                    λ proven h. completed before after proven may original h)
      ]

  may_complete-all :
      (before after : RepositoryContext)
      → before.repo_id ≡ after.repo_id
      → before.repository_path ≡ after.repository_path
      → before.base_commit ≢ after.base_commit
      → after.dirty ≡ false
      → may_complete before after ≡ true
  unfolding may_complete
  may_complete-all before after same path moved clean = ground (
    arith,
    equal_test before.repo_id after.repo_id same,
    equal_test before.repository_path after.repository_path path,
    unequal_test before.base_commit after.base_commit moved,
    clean,
  )

  completes :
      (before after : RepositoryContext) (c : GitObjectId)
      → IsCompletion before after c
      → completed_commit_for_context s before after ≡ ok (some c)
  unfolding completed_commit_for_context
  completes before after c h =
      let head = λ (P : GitObjectId → Type 0) (p : P c). subst P h.head p in
      rw
        (
          may_complete-all before after h.repository h.path
              (head (λ d. before.base_commit ≢ d) h.moved) h.clean,
          IsOriginal-original s after.repository_path h.original,
          IsProven-is_ancestor after.repository_path before.base_commit after.base_commit
              (head (IsProven after.repository_path before.base_commit) h.proven),
          completed_commit_for_context,
        )
        (ap (λ (d : GitObjectId). ok (some d)) (sym h.head))

  -- If each line that git prints for `merge-base --all` names a common ancestor of the two commits, a
  -- commit is recorded as completed exactly when it is the one the repository is at, in a clean state, and
  -- another than the one before; both contexts are of one repository at one path; git says that its
  -- history is not shallow and lists no replaced object, and the file that it names for the grafts is
  -- missing; git says of both names, which are in one format, that they are commits, and prints the
  -- commit before as their only merge base, so that it is an ancestor of it.
  pub completed_commit_for_context-IsCompletion :
      (before after : RepositoryContext) (c : GitObjectId)
      → (completed_commit_for_context s before after ≡ ok (some c)) ↔ IsCompletion before after c
  completed_commit_for_context-IsCompletion before after c = (
    Answers-answer (Completed before after) (completed_commit_for_context s before after) (some c)
        (completed_commit_for_context-Completed before after),
    completes before after c,
  )
