-- ===== src/Git/TreeLines.antt =====
-- src/patchharbor/git_objects.py: the lines of the output of `ls-tree` and the entries that they print.
use mathlib.Core.List.{append-nil, append_assoc}
use patch_harbor.Base.{
  ℕ, ◌≡◌, refl, sym, ap, ◌∙◌, ◌⊎◌, inl, inr, Bool, true, false, ◌&&◌, ◌||◌, not, is_some, List, [],
  ◌∷◌, ◌++◌, arith, ◌=ℕ◌, codes, length, all, All, map, ok, Answers, Answers-after, Answers-require,
  Answers-then, Answers-implies, Bool-cases, ◌==◌, contains, same-key, lookup, insert, nat_eq,
}
use patch_harbor.Models.{GitObjectFormat, object_id_hex_length, is_hex}
use patch_harbor.Bundle.Member.{text_eq}
use patch_harbor.Git.History.{malformed_tree, present_or_raise}
use patch_harbor.Git.Original.{present_or_raise-some}
use patch_harbor.Git.Tree.{split_on, split_once, object_id, ByPath, added_entry, tree_loop}
use patch_harbor.Git.TreeText.{joined_by, terminated, joined_by-split_on, split_once-split}

-- How git prints an entry of a tree, each one ended by a null byte.
pub printed : ByPath → List ℕ
printed [] = []
printed ((path, (mode, object)) ∷ entries) =
    (mode ++ 32 ∷ (codes "blob" ++ 32 ∷ object) ++ 9 ∷ path) ++ 0 ∷ printed entries

-- A file, executable or not, with the name of an object in the format.
abbrev pub IsSupported : GitObjectFormat → List ℕ × (List ℕ × List ℕ) → Type 0
IsSupported format (path, (mode, object)) =
    ((mode ≡ codes "100644") ⊎ (mode ≡ codes "100755"))
    × (length object ≡ object_id_hex_length format)
    × (all is_hex object ≡ true)

insert-append :
    (k : List ℕ) (v : List ℕ × List ℕ) (d : ByPath)
    → is_some (lookup k d) ≡ false
    → insert k v d ≡ d ++ (k, v) ∷ []
unfolding insert lookup
insert-append k v [] h = refl
insert-append k v ((j, w) ∷ d) h = elim (Bool-cases (j == k)) [
  | inl same ↦ ground (arith, h, same)
  | inr other ↦
      rw (other, insert) (ap (λ x. (j, w) ∷ x) (insert-append k v d (ground (arith, h, other))))
]

supported_mode :
    (mode : List ℕ)
    → contains (map codes ("100644" ∷ "100755" ∷ [])) mode ≡ true
    → (mode ≡ codes "100644") ⊎ (mode ≡ codes "100755")
supported_mode mode h = elim (Bool-cases (mode == codes "100644")) [
  | inl a ↦ inl (same-key mode (codes "100644") a)
  | inr a ↦ inr (
      same-key mode (codes "100755")
        (last_of (mode == codes "100644") (mode == codes "100755") a h))
]
  where
    last_of : (p q : Bool) → p ≡ false → (p || (q || false)) ≡ true → q ≡ true
    last_of p q a h = ground (arith, a, h)

-- One line added its entry behind the others.
record IsAdded (format : GitObjectFormat) (by_path : ByPath) (raw_path : List ℕ)
    (fields : List (List ℕ)) (next : ByPath) : Type 0 where
  mode : List ℕ
  object : List ℕ
  three : fields ≡ mode ∷ codes "blob" ∷ object ∷ []
  added : next ≡ by_path ++ (raw_path, (mode, object)) ∷ []
  supported : IsSupported format (raw_path, (mode, object))

both_tests : (p q : Bool) → (p && q) ≡ true → (p ≡ true) × (q ≡ true)
both_tests p q h = ground (arith, h)

not-eq_true : (p : Bool) → not p ≡ true → p ≡ false
not-eq_true p h = ground (arith, h)

length_test : (n m : ℕ) → n =ℕ m ≡ true → n ≡ m
length_test n m h = ground (arith, h)

object_id-fits :
    (raw : List ℕ) (format : GitObjectFormat)
    → Answers
        (λ o. (raw ≡ o) × (length raw ≡ object_id_hex_length format) × (all is_hex raw ≡ true))
        (object_id raw format)
unfolding object_id
object_id-fits raw format =
    Answers-require
      (λ o. (raw ≡ o) × (length raw ≡ object_id_hex_length format) × (all is_hex raw ≡ true))
      (length raw =ℕ object_id_hex_length format && all is_hex raw) malformed_tree (ok raw)
      λ tests.
        let (size, hexes) = both_tests _ _ tests in
        (refl, length_test (length raw) (object_id_hex_length format) size, hexes)

added_entry-IsAdded :
    (format : GitObjectFormat) (by_path : ByPath) (raw_path : List ℕ) (fields : List (List ℕ))
    → Answers (IsAdded format by_path raw_path fields) (added_entry format by_path raw_path fields)
unfolding added_entry
added_entry-IsAdded format by_path raw_path [] = tt
added_entry-IsAdded format by_path raw_path (a ∷ []) = tt
added_entry-IsAdded format by_path raw_path (a ∷ b ∷ []) = tt
added_entry-IsAdded format by_path raw_path (a ∷ b ∷ c ∷ d ∷ rest) = tt
added_entry-IsAdded format by_path raw_path (mode ∷ kind ∷ object ∷ []) =
    let P = IsAdded format by_path raw_path (mode ∷ kind ∷ object ∷ []) in
    Answers-require P (contains (map codes ("100644" ∷ "100755" ∷ [])) mode && kind == codes "blob")
      malformed_tree _
      λ tests. Answers-require P (not (is_some (lookup raw_path by_path))) malformed_tree _ λ fresh.
        Answers-then
          (λ o.
            (object ≡ o)
            × (length object ≡ object_id_hex_length format)
            × (all is_hex object ≡ true))
          P (object_id object format) _ (object_id-fits object format)
          λ o fits.
            let (in_modes, is_blob) = both_tests _ _ tests in
            record {
              mode = mode;
              object = object;
              three = ap (λ k. mode ∷ k ∷ object ∷ []) (same-key kind (codes "blob") is_blob);
              added =
                  ap (λ x. insert raw_path (mode, x) by_path) (sym fits.0)
                  ∙ insert-append raw_path (mode, object) by_path
                      (not-eq_true (is_some (lookup raw_path by_path)) fresh);
              supported = (supported_mode mode in_modes, fits.1, fits.2);
            }

-- What the loop read behind the entries that it had.
pub record AreAdded (format : GitObjectFormat) (by_path : ByPath) (lines : List (List ℕ))
    (out : ByPath) : Type 0 where
  pub entries : ByPath
  pub added : out ≡ by_path ++ entries
  pub spelled : terminated lines ≡ printed entries
  pub supported : All (IsSupported format) entries

pub tree_loop-AreAdded :
    (format : GitObjectFormat) (lines : List (List ℕ)) (by_path : ByPath)
    → Answers (AreAdded format by_path lines) (tree_loop format lines by_path)
unfolding tree_loop printed terminated joined_by
tree_loop-AreAdded format [] by_path = record {
  entries = [];
  added = sym (append-nil by_path);
  spelled = refl;
  supported = tt;
}
tree_loop-AreAdded format (line ∷ lines) by_path =
    Answers-after (AreAdded format by_path (line ∷ lines))
      (present_or_raise malformed_tree (split_once 9 line)) _
      λ parts cut.
        Answers-then (IsAdded format by_path parts.1 (split_on 32 parts.0))
          (AreAdded format by_path (line ∷ lines))
          (added_entry format by_path parts.1 (split_on 32 parts.0)) _
          (added_entry-IsAdded format by_path parts.1 (split_on 32 parts.0))
          λ next one.
            Answers-implies (AreAdded format next lines) (AreAdded format by_path (line ∷ lines))
              (tree_loop format lines next) (tree_loop-AreAdded format lines next)
              λ out more. record {
                entries = (parts.1, (one.mode, one.object)) ∷ more.entries;
                added =
                    more.added
                    ∙ ap (λ x. x ++ more.entries) one.added
                    ∙ append_assoc by_path ((parts.1, (one.mode, one.object)) ∷ []) more.entries;
                spelled =
                    ap (λ x. x ++ 0 ∷ terminated lines)
                      (split_once-split 9 line parts
                          (present_or_raise-some malformed_tree (split_once 9 line) parts cut)
                        ∙ ap (λ m. m ++ 9 ∷ parts.1)
                            (sym (joined_by-split_on 32 parts.0) ∙ ap (joined_by 32) one.three))
                    ∙ ap
                        (λ x.
                          (one.mode ++ 32 ∷ (codes "blob" ++ 32 ∷ one.object) ++ 9 ∷ parts.1)
                          ++ 0 ∷ x)
                        more.spelled;
                supported = (one.supported, more.supported);
              }
