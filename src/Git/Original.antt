-- ===== src/Git/Original.antt =====
-- src/patchharbor/archive_git.py: what git and the file system have said when the history of a
-- repository is taken for its original one, and when a name is taken for that of a commit.
use mathlib.Core.Path.{subst}
use patch_harbor.Base.{
  All, Answers, Answers-after, Answers-require, Answers-all, Answers-implies, Answers-answer, ℕ,
  String, none, ◌≡◌, ◌⊎◌, inl, inr, Bool, true, false, Option, some, List, [], ◌∷◌, arith, codes,
  if◌then◌else◌, Result, ok, require, require-ok, Bool-cases, ◌==◌, contains, same-key, equal_test,
  nat_eq, ◌∙◌, refl, ap, sym,
}
use patch_harbor.Models.{GitObjectId, git_object_id_eq}
use patch_harbor.Paths.{is_absolute, child}
use patch_harbor.Registry.Mapping.{RepositoryPath}
use patch_harbor.Bundle.Member.{text_eq}
use patch_harbor.Git.History.{
  GitHost, GitRun, not_started, exited, HistoryError, not_original, undecodable, uninspectable,
  accepted_output, strip, has_none, graft_path, distinct_commits, present_or_raise, run_git_bytes,
  require_original_history, are_commits,
}

accepted_output-exited :
    (accepted : List ℕ) (r : GitRun) (o : List ℕ)
    → accepted_output accepted r ≡ ok o
    → (code : ℕ) × (r ≡ exited code o) × (contains accepted code ≡ true)
unfolding accepted_output
accepted_output-exited accepted not_started o h = cc
accepted_output-exited accepted (exited code stdout) o h =
    (code, ground (arith, h), ground (arith, h))

exited-accepted_output :
    (accepted : List ℕ) (r : GitRun) (code : ℕ) (o : List ℕ)
    → r ≡ exited code o
    → contains accepted code ≡ true
    → accepted_output accepted r ≡ ok o
unfolding accepted_output
exited-accepted_output accepted r code o is accepts =
    ap (accepted_output accepted) is ∙ rw accepts refl

-- The path that git printed for the grafts, in the repository unless it is absolute.
abbrev pub IsLocated : RepositoryPath → String → String → Type 0
IsLocated repository text path =
    ((is_absolute text ≡ true) × (path ≡ text))
    ⊎ ((is_absolute text ≡ false) × (path ≡ child repository.value text))

graft_path-IsLocated :
    (repository : RepositoryPath) (text : String)
    → IsLocated repository text (graft_path repository text)
unfolding graft_path
graft_path-IsLocated repository text = elim (Bool-cases (is_absolute text)) [
  | inl absolute ↦ inl (absolute, rw (absolute, graft_path) refl)
  | inr relative ↦ inr (relative, rw (relative, graft_path) refl)
]

IsLocated-graft_path :
    (repository : RepositoryPath) (text path : String)
    → IsLocated repository text path
    → graft_path repository text ≡ path
unfolding graft_path
IsLocated-graft_path repository text path (inl (absolute, is)) = rw (absolute, graft_path) (sym is)
IsLocated-graft_path repository text path (inr (relative, is)) = rw (relative, graft_path) (sym is)

has_none-eq : (cs : List ℕ) → has_none cs ≡ true → cs ≡ []
has_none-eq [] h = refl
has_none-eq (c ∷ cs) h = cc

pub present_or_raise-some :
    {A : Type 0} (e : HistoryError) (o : Option A) (a : A)
    → present_or_raise e o ≡ ok a
    → o ≡ some a
present_or_raise-some e none a h = cc
present_or_raise-some e (some b) a h = ground (arith, h)

module _ (s : GitHost) where
  -- The command exited with 0 and this output.
  abbrev pub Prints : List String → RepositoryPath → List ℕ → Type 0
  Prints arguments repository output = s.git arguments repository ≡ exited 0 output

  pub run-exited :
      (arguments : List String) (accepted : List ℕ) (repository : RepositoryPath) (o : List ℕ)
      → run_git_bytes s arguments accepted repository ≡ ok o
      → (code : ℕ) × (s.git arguments repository ≡ exited code o) × (contains accepted code ≡ true)
  unfolding run_git_bytes
  run-exited arguments accepted repository o =
      accepted_output-exited accepted (s.git arguments repository) o

  pub exited-run :
      (arguments : List String) (accepted : List ℕ) (repository : RepositoryPath) (code : ℕ)
      (o : List ℕ)
      → s.git arguments repository ≡ exited code o
      → contains accepted code ≡ true
      → run_git_bytes s arguments accepted repository ≡ ok o
  unfolding run_git_bytes
  exited-run arguments accepted repository =
      exited-accepted_output accepted (s.git arguments repository)

  pub run-Prints :
      (arguments : List String) (repository : RepositoryPath) (o : List ℕ)
      → run_git_bytes s arguments (0 ∷ []) repository ≡ ok o
      → Prints arguments repository o
  unfolding nat_eq
  run-Prints arguments repository o h =
      let (code, is, accepts) = run-exited arguments (0 ∷ []) repository o h in
      let zero_code : code ≡ 0 = ground (arith, accepts) in is ∙ ap (λ c. exited c o) zero_code

  pub Prints-run :
      (arguments : List String) (repository : RepositoryPath) (o : List ℕ)
      → Prints arguments repository o
      → run_git_bytes s arguments (0 ∷ []) repository ≡ ok o
  unfolding nat_eq
  Prints-run arguments repository o h = exited-run arguments (0 ∷ []) repository 0 o h refl

  -- The history of a repository is its original one: git says that it is not shallow, and lists no
  -- replaced object, and the file that it names for the grafts is missing.
  pub record IsOriginal (repository : RepositoryPath) : Type 0 where
    pub shallow : List ℕ
    pub asked_shallow :
        Prints
          ("--no-replace-objects" ∷ "rev-parse" ∷ "--is-shallow-repository" ∷ [])
          repository
          shallow
    pub not_shallow : strip shallow ≡ codes "false"
    pub replaced : List ℕ
    pub asked_replaced :
        Prints
          ("--no-replace-objects" ∷ "for-each-ref" ∷ "--format=%(refname)" ∷ "refs/replace/" ∷ [])
          repository
          replaced
    pub none_replaced : strip replaced ≡ []
    pub grafts : List ℕ
    pub asked_grafts :
        Prints
          ("--no-replace-objects" ∷ "rev-parse" ∷ "--git-path" ∷ "info/grafts" ∷ [])
          repository
          grafts
    pub text : String
    pub decoded : s.stripped_text grafts ≡ some text
    pub path : String
    pub located : IsLocated repository text path
    pub missing : s.is_missing path ≡ some true

  -- Git knows the name as that of a commit.
  pub record IsKnown (repository : RepositoryPath) (c : GitObjectId) : Type 0 where
    pub kind : List ℕ
    pub asked : Prints ("--no-replace-objects" ∷ "cat-file" ∷ "-t" ∷ c.value ∷ []) repository kind
    pub is_commit : strip kind ≡ codes "commit"

  pub original-IsOriginal :
      (repository : RepositoryPath)
      → Answers (λ _. IsOriginal repository) (require_original_history s repository)
  unfolding require_original_history
  original-IsOriginal repository =
      Answers-after (λ _. IsOriginal repository) (run_git_bytes s _ (0 ∷ []) repository) _
        λ shallow asked_shallow.
          Answers-require (λ _. IsOriginal repository) (strip shallow == codes "false") not_original
            _
            λ not_shallow.
              Answers-after (λ _. IsOriginal repository) (run_git_bytes s _ (0 ∷ []) repository) _
                λ replaced asked_replaced.
                  Answers-require (λ _. IsOriginal repository) (has_none (strip replaced))
                    not_original _
                    λ none_replaced.
                      Answers-after (λ _. IsOriginal repository)
                        (run_git_bytes s _ (0 ∷ []) repository) _
                        λ grafts asked_grafts.
                          Answers-after (λ _. IsOriginal repository)
                            (present_or_raise undecodable (s.stripped_text grafts)) _
                            λ text decoded.
                              Answers-after (λ _. IsOriginal repository)
                                (present_or_raise uninspectable
                                  (s.is_missing (graft_path repository text)))
                                _
                                λ missing inspected.
                                  Answers-all (λ _. IsOriginal repository)
                                    (require missing not_original)
                                    λ u is. record {
                                      shallow = shallow;
                                      asked_shallow = run-Prints _ repository shallow asked_shallow;
                                      not_shallow = same-key _ _ not_shallow;
                                      replaced = replaced;
                                      asked_replaced =
                                          run-Prints _ repository replaced asked_replaced;
                                      none_replaced = has_none-eq _ none_replaced;
                                      grafts = grafts;
                                      asked_grafts = run-Prints _ repository grafts asked_grafts;
                                      text = text;
                                      decoded = present_or_raise-some undecodable _ text decoded;
                                      path = graft_path repository text;
                                      located = graft_path-IsLocated repository text;
                                      missing =
                                          present_or_raise-some uninspectable _ missing inspected
                                          ∙ ap some (require-ok missing not_original u is);
                                    }

  pub IsOriginal-original :
      (repository : RepositoryPath)
      → IsOriginal repository
      → require_original_history s repository ≡ ok tt
  unfolding require_original_history
  IsOriginal-original repository h =
      rw
        (
          Prints-run _ repository h.shallow h.asked_shallow,
          equal_test (strip h.shallow) (codes "false") h.not_shallow,
          Prints-run _ repository h.replaced h.asked_replaced,
          h.none_replaced,
          Prints-run _ repository h.grafts h.asked_grafts,
          h.decoded,
          IsLocated-graft_path repository h.text h.path h.located,
          h.missing,
        )
        refl

  abbrev Commits : RepositoryPath → List GitObjectId → Type 0
  Commits repository = All (IsKnown repository)

  known_kind :
      (repository : RepositoryPath) (c : GitObjectId) (kind : List ℕ) (commits : List GitObjectId)
      (b : Bool) (rest : Result HistoryError Bool)
      → run_git_bytes s
          ("--no-replace-objects" ∷ "cat-file" ∷ "-t" ∷ c.value ∷ [])
          (0 ∷ [])
          repository
        ≡ ok kind
      → (b ≡ true → strip kind ≡ codes "commit")
      → Answers (λ known. known ≡ true → Commits repository commits) rest
      → Answers
          (λ known. known ≡ true → Commits repository (c ∷ commits))
          (if b then rest else ok false)
  known_kind repository c kind commits false rest asked is h = λ no. cc
  known_kind repository c kind commits true rest asked is h =
      Answers-implies _ (λ known. known ≡ true → Commits repository (c ∷ commits)) rest h
        λ known all yes. (
          record { kind = kind; asked = run-Prints _ repository kind asked; is_commit = is refl },
          all yes,
        )

  are_commits-Commits :
      (repository : RepositoryPath) (commits : List GitObjectId)
      → Answers
          (λ known. known ≡ true → Commits repository commits)
          (are_commits s repository commits)
  unfolding are_commits
  are_commits-Commits repository [] = λ _. tt
  are_commits-Commits repository (c ∷ commits) =
      Answers-after (λ known. known ≡ true → Commits repository (c ∷ commits))
        (run_git_bytes s ("--no-replace-objects" ∷ "cat-file" ∷ "-t" ∷ c.value ∷ []) (0 ∷ [])
          repository)
        _
        λ kind asked.
          known_kind repository c kind commits (strip kind == codes "commit")
            (are_commits s repository commits) asked (same-key (strip kind) (codes "commit"))
            (are_commits-Commits repository commits)

  Commits-are_commits :
      (repository : RepositoryPath) (commits : List GitObjectId)
      → Commits repository commits
      → are_commits s repository commits ≡ ok true
  unfolding are_commits
  Commits-are_commits repository [] h = refl
  Commits-are_commits repository (c ∷ commits) h =
      rw
        (
          Prints-run _ repository h.0.kind h.0.asked,
          equal_test (strip h.0.kind) (codes "commit") h.0.is_commit,
        )
        (Commits-are_commits repository commits h.1)

  -- The two commits, of which only one is asked for if they are the same.
  abbrev pub AreKnown : RepositoryPath → GitObjectId → GitObjectId → Type 0
  AreKnown repository a b = IsKnown repository a × IsKnown repository b

  pub are_commits-AreKnown :
      (repository : RepositoryPath) (a b : GitObjectId)
      → are_commits s repository (distinct_commits a b) ≡ ok true
      → AreKnown repository a b
  unfolding distinct_commits
  are_commits-AreKnown repository a b h = spread (a == b) (same-key a b) (
      Answers-answer _ (are_commits s repository (distinct_commits a b)) true
        (are_commits-Commits repository (distinct_commits a b)) h refl)
    where
      spread :
          (t : Bool)
          → (t ≡ true → a ≡ b)
          → Commits repository (if t then a ∷ [] else a ∷ b ∷ [])
          → AreKnown repository a b
      spread true same h = (h.0, subst (IsKnown repository) (same refl) h.0)
      spread false same h = (h.0, h.1.0)

  pub AreKnown-are_commits :
      (repository : RepositoryPath) (a b : GitObjectId)
      → AreKnown repository a b
      → are_commits s repository (distinct_commits a b) ≡ ok true
  unfolding distinct_commits
  AreKnown-are_commits repository a b h =
      Commits-are_commits repository (distinct_commits a b) (gather (a == b))
    where
      gather : (t : Bool) → Commits repository (if t then a ∷ [] else a ∷ b ∷ [])
      gather true = (h.0, tt)
      gather false = (h.0, (h.1, tt))
