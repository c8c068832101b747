-- ===== src/Package/ScriptLaws.antt =====
-- src/patchharbor/parser.py: a script that is written from directives is read back.
use mathlib.Core.List.{append_assoc, append-nil}
use patch_harbor.Base.{
  ◌≡◌, refl, ap, ◌∙◌, true, false, none, some, List, [], ◌∷◌, ◌++◌, map, All, contains, ok,
  same-key_refl,
}
use patch_harbor.Bundle.Member.{Text, text_eq}
use patch_harbor.Package.Script.{
  Metadata, Message, warning_eq, ParserState, initial, step, run, finish, active, outside,
  in_message, at_start, open_message, close_message, keep_content, parse_script,
  validate_required_marker, joined_lines, required_marker, meta_prefix, message_start, message_end,
  metadata_match, after_prefix, invalid_message_start, is_name,
}
use patch_harbor.Package.ScriptLines.{
  start_line, end_line, meta_line, comment_line, message_start-start_line, message_end-end_line,
  metadata_match-meta_line, HasNoBreak, ended, splitlines-ended,
}

-- What a script is written from.
pub data Directive : Type 0 where
  meta : Text → Text → Directive
  block : Text → List Text → Directive
  other : Text → Directive

abbrev pub lines_of : Directive → List Text
lines_of (meta name value) = meta_line name value ∷ []
lines_of (block name content) = start_line name ∷ (map comment_line content ++ end_line name ∷ [])
lines_of (other line) = line ∷ []

abbrev pub all_lines : List Directive → List Text
all_lines [] = []
all_lines (d ∷ ds) = lines_of d ++ all_lines ds

-- A line that the parser passes over outside a block.
abbrev pub IsOther : Text → Type 0
IsOther line =
    (metadata_match line ≡ none)
    × (after_prefix meta_prefix line ≡ none)
    × (message_start line ≡ none)
    × (invalid_message_start line ≡ false)

abbrev pub IsDirective : Directive → Type 0
IsDirective (meta name value) = is_name name ≡ true
IsDirective (block name content) =
    (is_name name ≡ true) × All (λ c. message_end (comment_line c) ≡ none) content
IsDirective (other line) = IsOther line

abbrev pub metadata_of : List Directive → List Metadata
metadata_of [] = []
metadata_of (meta name value ∷ ds) = (record { name = name; value = value }) ∷ metadata_of ds
metadata_of (block _ _ ∷ ds) = metadata_of ds
metadata_of (other _ ∷ ds) = metadata_of ds

abbrev pub messages_of : List Directive → List Message
messages_of [] = []
messages_of (meta _ _ ∷ ds) = messages_of ds
messages_of (block name content ∷ ds) =
    (record { name = name; message_text = joined_lines content }) ∷ messages_of ds
messages_of (other _ ∷ ds) = messages_of ds

-- The parser between two directives, and inside a block.
abbrev between_directives : List Metadata → List Message → ParserState
between_directives ms bs = record initial { metadata = ms; messages = bs }

abbrev inside : List Metadata → List Message → Text → List Text → ParserState
inside ms bs name content = record (between_directives ms bs) {
  active_name = some name;
  active_content = content;
}

module _ (ms : List Metadata) (bs : List Message) where
  step_meta :
      (name value : Text)
      → is_name name ≡ true
      → step (meta_line name value) (between_directives ms bs)
        ≡ between_directives (ms ++ (record { name = name; value = value }) ∷ []) bs
  unfolding step active outside
  step_meta name value h = rw (metadata_match-meta_line name value h, outside) refl

  step_start :
      (name : Text)
      → is_name name ≡ true
      → step (start_line name) (between_directives ms bs) ≡ inside ms bs name []
  unfolding step active outside at_start open_message
  step_start name h = rw (message_start-start_line name h, h, at_start) refl

  step_comment :
      (name content : Text) (kept : List Text)
      → message_end (comment_line content) ≡ none
      → step (comment_line content) (inside ms bs name kept)
        ≡ inside ms bs name (kept ++ content ∷ [])
  unfolding step active in_message keep_content
  step_comment name content kept h = rw (h, in_message) refl

  step_end :
      (name : Text) (kept : List Text)
      → is_name name ≡ true
      → step (end_line name) (inside ms bs name kept)
        ≡ between_directives ms
            (bs ++ (record { name = name; message_text = joined_lines kept }) ∷ [])
  unfolding step active in_message close_message
  step_end name kept h = rw (message_end-end_line name h, same-key_refl name, in_message) refl

  step_other :
      (line : Text) → IsOther line → step line (between_directives ms bs) ≡ between_directives ms bs
  unfolding step active outside at_start
  step_other line h = rw (h.0, h.1, h.2, h.3, outside, at_start) refl

  run-content :
      (name : Text) (content : List Text) (kept : List Text) (rest : List Text)
      → is_name name ≡ true
      → All (λ c. message_end (comment_line c) ≡ none) content
      → run (map comment_line content ++ end_line name ∷ rest) (inside ms bs name kept)
        ≡ run rest (
            between_directives ms
              (bs ++ (record { name = name; message_text = joined_lines (kept ++ content) }) ∷ []))
  unfolding run
  run-content name [] kept rest h plain =
      ap (run rest) (step_end name kept h) ∙ rw (append-nil kept) refl
  run-content name (c ∷ content) kept rest h plain =
      ap (run (map comment_line content ++ end_line name ∷ rest)) (step_comment name c kept plain.0)
      ∙ run-content name content (kept ++ c ∷ []) rest h plain.1
      ∙ rw (append_assoc kept (c ∷ []) content) refl

run-directives :
    (ds : List Directive) (ms : List Metadata) (bs : List Message)
    → All IsDirective ds
    → run (all_lines ds) (between_directives ms bs)
      ≡ between_directives (ms ++ metadata_of ds) (bs ++ messages_of ds)
unfolding run
run-directives [] ms bs h = rw (append-nil ms, append-nil bs) refl
run-directives (meta name value ∷ ds) ms bs h =
    ap (run (all_lines ds)) (step_meta ms bs name value h.0)
    ∙ run-directives ds (ms ++ (record { name = name; value = value }) ∷ []) bs h.1
    ∙ rw (append_assoc ms ((record { name = name; value = value }) ∷ []) (metadata_of ds)) refl
run-directives (block name content ∷ ds) ms bs h =
    let m : Message = record { name = name; message_text = joined_lines content } in
    ap (run ((map comment_line content ++ end_line name ∷ []) ++ all_lines ds))
      (step_start ms bs name h.0.0)
    ∙ ap (λ ls. run ls (inside ms bs name []))
        (append_assoc (map comment_line content) (end_line name ∷ []) (all_lines ds))
    ∙ run-content ms bs name content [] (all_lines ds) h.0.0 h.0.1
    ∙ run-directives ds ms (bs ++ m ∷ []) h.1
    ∙ rw (append_assoc bs (m ∷ []) (messages_of ds)) refl
run-directives (other line ∷ ds) ms bs h =
    ap (run (all_lines ds)) (step_other ms bs line h.0) ∙ run-directives ds ms bs h.1

-- A script that is written from directives, with the marker as one of its lines, is parsed to the
-- metadata and the messages that were written, in their order, with no warning, whatever other lines
-- stand between the directives. The names have the characters of a name, no content line spells an end,
-- the other lines are no directives, and a line holds no line boundary.
pub parse_script-ended :
    (ds : List Directive)
    → All IsDirective ds
    → All HasNoBreak (all_lines ds)
    → contains (all_lines ds) required_marker ≡ true
    → parse_script (ended (all_lines ds))
      ≡ ok (record {
        script_text = ended (all_lines ds);
        metadata = metadata_of ds;
        messages = messages_of ds;
        warnings = [];
      })
unfolding parse_script validate_required_marker
parse_script-ended ds h unbroken marked =
    rw (splitlines-ended (all_lines ds) unbroken, marked)
      (rw (run-directives ds [] [] h) (unfold finish in refl))
