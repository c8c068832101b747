-- ===== src/Package/ScriptLines.antt =====
-- src/patchharbor/parser.py: what the patterns match on lines that were written for them.
use patch_harbor.Base.{
  ℕ, ◌≡◌, ◌≢◌, refl, ap, ◌∙◌, true, false, none, some, List, [], ◌∷◌, ◌++◌, arith, length,
  length-append, all, All, codes, Bool-cases, inl, inr, ◌==◌, same-key, same-key_refl,
}
use patch_harbor.Bundle.Member.{Text, text_eq}
use patch_harbor.Package.Script.{
  after_prefix, before_suffix, between, non_empty, is_name, is_name_char, at_equals, named_value,
  metadata_behind, metadata_match, message_start, message_end, meta_prefix, message_prefix,
  start_suffix, end_suffix, comment_content, splitlines, is_line_break,
}

longer : (suffix name : Text) (c : ℕ) → suffix ≢ c ∷ (name ++ suffix)
longer suffix name c h =
    let lengths = ap length h in omega (arith, lengths, length-append name suffix)

pub before_suffix-append : (suffix name : Text) → before_suffix suffix (name ++ suffix) ≡ some name
unfolding before_suffix
before_suffix-append [] [] = refl
before_suffix-append (s ∷ suffix) [] = rw (same-key_refl (s ∷ suffix)) refl
before_suffix-append suffix (c ∷ name) = elim (Bool-cases (suffix == c ∷ (name ++ suffix))) [
  | inl same ↦ absurd (longer suffix name c (same-key suffix (c ∷ (name ++ suffix)) same))
  | inr other ↦ rw (other, before_suffix-append suffix name) refl
]

pub is_name-cons : (name : Text) → is_name name ≡ true → non_empty (some name) ≡ some name
unfolding is_name
is_name-cons [] h = cc
is_name-cons (c ∷ cs) h = refl

abbrev pub start_line : Text → Text
start_line name = message_prefix ++ (name ++ start_suffix)

abbrev pub end_line : Text → Text
end_line name = message_prefix ++ (name ++ end_suffix)

abbrev pub meta_line : Text → Text → Text
meta_line name value = meta_prefix ++ (name ++ b'=' ∷ value)

abbrev pub comment_line : Text → Text
comment_line content = codes "# " ++ content

pub message_start-start_line :
    (name : Text) → is_name name ≡ true → message_start (start_line name) ≡ some name
unfolding message_start between
message_start-start_line name h =
    ap non_empty (before_suffix-append start_suffix name) ∙ is_name-cons name h

pub message_end-end_line :
    (name : Text) → is_name name ≡ true → message_end (end_line name) ≡ some name
unfolding message_end between
message_end-end_line name h =
    ap non_empty (before_suffix-append end_suffix name) ∙ is_name-cons name h

at_equals-append :
    (name value : Text)
    → all is_name_char name ≡ true
    → at_equals (name ++ b'=' ∷ value) ≡ some (name, value)
unfolding at_equals is_name_char
at_equals-append [] value h = refl
at_equals-append (c ∷ name) value h = ground (arith, at_equals-append name value)

all-is_name_char : (name : Text) → is_name name ≡ true → all is_name_char name ≡ true
unfolding is_name
all-is_name_char [] h = refl
all-is_name_char (c ∷ cs) h = h

named :
    (name value : Text)
    → is_name name ≡ true
    → named_value (some (name, value)) ≡ some (record { name = name; value = value })
unfolding named_value
named name value h = rw h refl

pub metadata_match-meta_line :
    (name value : Text)
    → is_name name ≡ true
    → metadata_match (meta_line name value) ≡ some (record { name = name; value = value })
unfolding metadata_match metadata_behind named_value
metadata_match-meta_line name value h =
    ap named_value (at_equals-append name value (all-is_name_char name h)) ∙ named name value h

pub metadata_match-start_line : (name : Text) → metadata_match (start_line name) ≡ none
unfolding metadata_match metadata_behind after_prefix
metadata_match-start_line name = refl

pub after_prefix-start_line : (name : Text) → after_prefix meta_prefix (start_line name) ≡ none
unfolding after_prefix
after_prefix-start_line name = refl

pub comment_content-comment_line :
    (content : Text) → comment_content (comment_line content) ≡ some content
unfolding comment_content after_prefix
comment_content-comment_line content = refl

-- Lines that are each ended by a line feed, and hold no other boundary.
abbrev pub HasNoBreak : Text → Type 0
HasNoBreak = All (λ c. is_line_break c ≡ false)

abbrev pub ended : List Text → Text
ended [] = []
ended (l ∷ ls) = l ++ 10 ∷ ended ls

splitlines-line : (l rest : Text) → HasNoBreak l → splitlines (l ++ 10 ∷ rest) ≡ l ∷ splitlines rest
unfolding splitlines is_line_break
splitlines-line [] rest h = refl
splitlines-line (c ∷ l) rest h = ground (arith, splitlines-line l rest h.1, h.0)

pub splitlines-ended : (ls : List Text) → All HasNoBreak ls → splitlines (ended ls) ≡ ls
unfolding splitlines
splitlines-ended [] h = refl
splitlines-ended (l ∷ ls) h =
    splitlines-line l (ended ls) h.0 ∙ ap (◌∷◌ l) (splitlines-ended ls h.1)
