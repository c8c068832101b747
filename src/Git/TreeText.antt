-- ===== src/Git/TreeText.antt =====
-- src/patchharbor/git_objects.py: how the output of `ls-tree` is taken apart, and put together again.
use mathlib.Core.List.{append_assoc}
use mathlib.Core.Path.{subst⁻¹}
use patch_harbor.Base.{
  ℕ, ◌≡◌, refl, sym, ap, ◌∙◌, inl, inr, Bool, true, false, not, some, List, [], ◌∷◌, ◌++◌, arith,
  ◌=ℕ◌, if◌then◌else◌, ok, Answers, Answers-require, Bool-cases, Option-cases, contains, nat_eq,
}
use patch_harbor.Bundle.Member.{text_eq, ends_with, add_to_first, without_last}
use patch_harbor.Git.History.{malformed_tree}
use patch_harbor.Git.Tree.{split_on, split_once, nul_records}

-- The parts with a separator between them, and the lines with an end behind each.
unfoldable pub joined_by : ℕ → List (List ℕ) → List ℕ
joined_by separator [] = []
joined_by separator (s ∷ []) = s
joined_by separator (s ∷ t ∷ rest) = s ++ separator ∷ joined_by separator (t ∷ rest)

unfoldable pub terminated : List (List ℕ) → List ℕ
terminated [] = []
terminated (line ∷ lines) = line ++ 0 ∷ terminated lines

joined_by-add :
    (separator c : ℕ) (ss : List (List ℕ))
    → joined_by separator (add_to_first c ss) ≡ c ∷ joined_by separator ss
unfolding joined_by
joined_by-add separator c [] = refl
joined_by-add separator c (s ∷ []) = refl
joined_by-add separator c (s ∷ t ∷ rest) = refl

-- A text that was split has a first part.
split_on-cons :
    (separator : ℕ) (xs : List ℕ)
    → (s : List ℕ) × (ss : List (List ℕ)) × (split_on separator xs ≡ s ∷ ss)
unfolding split_on
split_on-cons separator [] = ([], [], refl)
split_on-cons separator (c ∷ cs) = by_rest (c =ℕ separator) (split_on separator cs)
  where
    by_rest :
        (b : Bool) (rest : List (List ℕ))
        → (s : List ℕ) × (ss : List (List ℕ)) × ((if b then [] ∷ rest else add_to_first c rest)
            ≡ s ∷ ss)
    by_rest true rest = ([], rest, refl)
    by_rest false [] = (c ∷ [], [], refl)
    by_rest false (s ∷ ss) = (c ∷ s, ss, refl)

joined_by-empty :
    (separator : ℕ) (s : List ℕ) (ss rest : List (List ℕ))
    → rest ≡ s ∷ ss
    → joined_by separator ([] ∷ rest) ≡ separator ∷ joined_by separator rest
unfolding joined_by
joined_by-empty separator s ss rest h =
    subst⁻¹ (λ r. joined_by separator ([] ∷ r) ≡ separator ∷ joined_by separator r) h refl

pub joined_by-split_on :
    (separator : ℕ) (xs : List ℕ) → joined_by separator (split_on separator xs) ≡ xs
unfolding split_on joined_by
joined_by-split_on separator [] = refl
joined_by-split_on separator (c ∷ cs) = elim (Bool-cases (c =ℕ separator)) [
  | inl same ↦
      let (s, ss, is) = split_on-cons separator cs in
      let is_same : c ≡ separator = ground (arith, same) in
      rw (same, split_on)
        (joined_by-empty separator s ss (split_on separator cs) is
          ∙ ap (λ x. x ∷ joined_by separator (split_on separator cs)) (sym is_same)
          ∙ ap (λ t. c ∷ t) (joined_by-split_on separator cs))
  | inr other ↦
      rw (other, split_on)
        (joined_by-add separator c (split_on separator cs)
          ∙ ap (λ t. c ∷ t) (joined_by-split_on separator cs))
]

terminated-joined_by :
    (s : List ℕ) (ss : List (List ℕ)) → terminated (s ∷ ss) ≡ joined_by 0 (s ∷ ss) ++ 0 ∷ []
unfolding terminated joined_by
terminated-joined_by s [] = refl
terminated-joined_by s (t ∷ rest) =
    ap (λ x. s ++ 0 ∷ x) (terminated-joined_by t rest)
    ∙ sym (append_assoc s (0 ∷ joined_by 0 (t ∷ rest)) (0 ∷ []))

ends_with-last : (c : ℕ) (xs : List ℕ) → ends_with c xs ≡ true → xs ≡ without_last xs ++ c ∷ []
unfolding ends_with without_last
ends_with-last c [] h = cc
ends_with-last c (d ∷ []) h = ground (arith, h)
ends_with-last c (d ∷ e ∷ rest) h = ap (λ t. d ∷ t) (ends_with-last c (e ∷ rest) h)

pub nul_records-terminated :
    (raw : List ℕ) → Answers (λ lines. raw ≡ terminated lines) (nul_records raw)
unfolding nul_records terminated
nul_records-terminated [] = refl
nul_records-terminated (c ∷ cs) =
    Answers-require (λ lines. c ∷ cs ≡ terminated lines) (ends_with 0 (c ∷ cs)) malformed_tree _
      λ ends.
        Answers-require (λ lines. c ∷ cs ≡ terminated lines)
          (not (contains (split_on 0 (without_last (c ∷ cs))) [])) malformed_tree
          (ok (split_on 0 (without_last (c ∷ cs))))
          λ _.
            let (s, ss, is) = split_on-cons 0 (without_last (c ∷ cs)) in
            ends_with-last 0 (c ∷ cs) ends
            ∙ ap (λ t. t ++ 0 ∷ []) (sym (joined_by-split_on 0 (without_last (c ∷ cs))))
            ∙ ap (λ t. joined_by 0 t ++ 0 ∷ []) is
            ∙ sym (terminated-joined_by s ss)
            ∙ ap terminated (sym is)

pub split_once-split :
    (separator : ℕ) (xs : List ℕ) (r : List ℕ × List ℕ)
    → split_once separator xs ≡ some r
    → xs ≡ r.0 ++ separator ∷ r.1
unfolding split_once
split_once-split separator [] r h = cc
split_once-split separator (c ∷ cs) r h = elim (Bool-cases (c =ℕ separator)) [
  | inl same ↦ ground (arith, h, same)
  | inr other ↦ elim (Option-cases (split_once separator cs)) [
    | inl absent ↦ ground (arith, h, other, absent)
    | inr (o, found) ↦ ground (arith, h, other, found, split_once-split separator cs o found)
  ]
]
