-- ===== src/Package/ScriptWarnings.antt =====
-- src/patchharbor/parser.py: no warning is given twice.
use patch_harbor.Base.{
  ◌≡◌, refl, false, Option, none, some, List, [], ◌∷◌, ◌++◌, arith, contains, Bool-cases, inl, inr,
  ◌==◌, Option-cases, Answers, Answers-bind,
}
use patch_harbor.Bundle.Member.{Text, text_eq}
use patch_harbor.Package.Script.{
  Warning, warning_eq, ParserState, initial, step, run, finish, active, outside, in_message,
  at_start, open_message, close_message, keep_content, warn, parse_script, validate_required_marker,
  splitlines, message_end,
}

-- No warning twice.
abbrev pub AreDistinct : List Warning → Type 0
AreDistinct [] = Unit
AreDistinct (w ∷ ws) = (contains ws w ≡ false) × AreDistinct ws

contains-append :
    (ws : List Warning) (w x : Warning)
    → contains ws x ≡ false
    → (x == w) ≡ false
    → contains (ws ++ w ∷ []) x ≡ false
contains-append [] w x h differs = ground arith
contains-append (v ∷ ws) w x h differs = ground (arith, contains-append ws w x)

differs_sym : (w x : Warning) → (w == x) ≡ false → (x == w) ≡ false
differs_sym w x h = ground arith

AreDistinct-append :
    (ws : List Warning) (w : Warning)
    → AreDistinct ws
    → contains ws w ≡ false
    → AreDistinct (ws ++ w ∷ [])
AreDistinct-append [] w h fresh = (refl, tt)
AreDistinct-append (v ∷ ws) w h fresh = (
  contains-append ws w v h.0 (differs_sym w v (ground arith)),
  AreDistinct-append ws w h.1 (ground arith),
)

-- A predicate that only looks at the warnings and is kept by `warn` is kept by every line.
abbrev HasDistinct : ParserState → Type 0
HasDistinct s = AreDistinct s.warnings

warn-HasDistinct : (w : Warning) (s : ParserState) → HasDistinct s → HasDistinct (warn w s)
unfolding warn
warn-HasDistinct w s h = elim (Bool-cases (contains s.warnings w)) [
  | inl seen ↦ rw seen h
  | inr new ↦ rw new (AreDistinct-append s.warnings w h new)
]

close_message-HasDistinct :
    (name end_name : Text) (s : ParserState)
    → HasDistinct s
    → HasDistinct (close_message name end_name s)
unfolding close_message
close_message-HasDistinct name end_name s h = ground (
  arith,
  warn-HasDistinct (Warning.end_name_differs name end_name) s h,
  warn-HasDistinct (Warning.not_fully_commented name) s h,
)

in_message-HasDistinct :
    (name line : Text) (s : ParserState) → HasDistinct s → HasDistinct (in_message name line s)
unfolding in_message keep_content
in_message-HasDistinct name line s h = elim (Option-cases (message_end line)) [
  | inl none_there ↦ ground (arith, none_there)
  | inr (e, is) ↦ ground (arith, is, close_message-HasDistinct name e s h)
]

outside-HasDistinct : (line : Text) (s : ParserState) → HasDistinct s → HasDistinct (outside line s)
unfolding outside at_start open_message
outside-HasDistinct line s h =
    ground (
      arith,
      warn-HasDistinct Warning.invalid_meta s h,
      warn-HasDistinct Warning.invalid_message s h,
    )

active-HasDistinct :
    (name : Option Text) (line : Text) (s : ParserState)
    → HasDistinct s
    → HasDistinct (active name line s)
unfolding active
active-HasDistinct none line s h = outside-HasDistinct line s h
active-HasDistinct (some name) line s h = in_message-HasDistinct name line s h

run-HasDistinct : (lines : List Text) (s : ParserState) → HasDistinct s → HasDistinct (run lines s)
unfolding run step
run-HasDistinct [] s h = h
run-HasDistinct (line ∷ lines) s h =
    run-HasDistinct lines (step line s) (ground (arith, active-HasDistinct s.active_name line s h))

finish-HasDistinct :
    (name : Option Text) (s : ParserState) → HasDistinct s → HasDistinct (finish name s)
unfolding finish
finish-HasDistinct none s h = h
finish-HasDistinct (some name) s h = warn-HasDistinct (Warning.missing_end name) s h

-- Whatever the text, a parsed script carries the text itself and no warning twice.
pub parse_script-AreDistinct :
    (script_text : Text)
    → Answers
        (λ p. (p.script_text ≡ script_text) × AreDistinct p.warnings)
        (parse_script script_text)
unfolding parse_script
parse_script-AreDistinct script_text =
    Answers-bind _ (validate_required_marker script_text) _
      λ _. (refl, finish-HasDistinct _ _ (run-HasDistinct (splitlines script_text) initial tt))
