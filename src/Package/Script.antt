-- ===== src/Package/Script.antt =====
-- src/patchharbor/parser.py: the PatchHarbor script format. A text is the list of its code points.
use patch_harbor.Base.{
  ℕ, Bool, true, false, ◌&&◌, ◌||◌, not, Option, none, some, List, [], ◌∷◌, ◌++◌, ◌=ℕ◌, leb,
  if◌then◌else◌, is_some, all, codes, contains, Result, ok, ◌>>◌, require, ◌==◌, Eq, option_eq,
  nat_eq,
}
use patch_harbor.Bundle.Member.{Text, Text-discrete, text_eq}

pub record Metadata : Type 0 where
  pub name : Text
  pub value : Text

pub record Message : Type 0 where
  pub name : Text
  pub message_text : Text

-- The texts of the warnings, which show the names by their `repr`.
pub data Warning : Type 0 where
  end_name_differs : Text → Text → Warning
  not_fully_commented missing_end : Text → Warning
  invalid_meta invalid_message : Warning

unfoldable pub Warning-discrete : Discrete Warning
Warning-discrete = hlevel Text-discrete

instance unfoldable pub warning_eq : Eq Warning
unfolding Warning-discrete
warning_eq = record { dec = Warning-discrete }

pub record ParsedScript : Type 0 where
  pub script_text : Text
  pub metadata : List Metadata
  pub messages : List Message
  pub warnings : List Warning

pub data ScriptFormatError : Type 0 where
  missing_marker : ScriptFormatError

-- A line boundary of `str.splitlines`, of one character.
unfoldable pub is_line_break : ℕ → Bool
is_line_break c = leb 10 c && leb c 13 || leb 28 c && leb c 30 || c =ℕ 133 || c =ℕ 8232 || c =ℕ 8233

abbrev pub add_to_line : ℕ → List Text → List Text
add_to_line c [] = (c ∷ []) ∷ []
add_to_line c (line ∷ rest) = (c ∷ line) ∷ rest

abbrev pub follows_return : Text → Bool
follows_return [] = false
follows_return (d ∷ ds) = d =ℕ 10

-- `text.splitlines()`: a return and a line feed are one boundary, at the line feed.
unfoldable pub splitlines : Text → List Text
unfolding is_line_break
splitlines [] = []
splitlines (c ∷ cs) =
    let rest = splitlines cs in
    if c =ℕ 13 && follows_return cs
    then rest
    else if is_line_break c
    then [] ∷ rest
    else add_to_line c rest

-- `"\n".join(lines)`
unfoldable pub joined_lines : List Text → Text
joined_lines [] = []
joined_lines (l ∷ []) = l
joined_lines (l ∷ m ∷ rest) = l ++ 10 ∷ joined_lines (m ∷ rest)

-- What follows a prefix, if the text starts with it.
unfoldable pub after_prefix : Text → Text → Option Text
after_prefix [] line = some line
after_prefix (p ∷ ps) [] = none
after_prefix (p ∷ ps) (c ∷ cs) = let rest = after_prefix ps cs in if p =ℕ c then rest else none

abbrev pub add_to_some : ℕ → Option Text → Option Text
add_to_some c none = none
add_to_some c (some cs) = some (c ∷ cs)

-- What stands before a suffix, if the text ends with it.
unfoldable pub before_suffix : Text → Text → Option Text
unfolding text_eq
before_suffix suffix [] = if suffix == [] then some [] else none
before_suffix suffix (c ∷ cs) =
    let rest = before_suffix suffix cs in if suffix == c ∷ cs then some [] else add_to_some c rest

abbrev pub required_marker : Text
required_marker = codes "# PATCHHARBOR"

abbrev pub meta_prefix : Text
meta_prefix = codes "# PATCHHARBOR META "

abbrev pub message_prefix : Text
message_prefix = codes "# PATCHHARBOR MESSAGE "

abbrev pub start_suffix : Text
start_suffix = codes " START"

abbrev pub end_suffix : Text
end_suffix = codes " END"

-- `validate_required_marker`
unfoldable pub validate_required_marker : Text → Result ScriptFormatError (Unit {0})
unfolding splitlines text_eq
validate_required_marker script_text =
    require (contains (splitlines script_text) required_marker) missing_marker

-- `[A-Za-z0-9.]`
unfoldable pub is_name_char : ℕ → Bool
is_name_char c =
    leb b'A' c && leb c b'Z' || leb b'a' c && leb c b'z' || leb b'0' c && leb c b'9' || c =ℕ b'.'

abbrev pub non_empty : Option Text → Option Text
non_empty none = none
non_empty (some []) = none
non_empty (some (c ∷ cs)) = some (c ∷ cs)

-- `re.fullmatch(_NAME, name)`
unfoldable pub is_name : Text → Bool
unfolding is_name_char
is_name [] = false
is_name (c ∷ cs) = all is_name_char (c ∷ cs)

unfoldable pub between : Text → Option Text → Option Text
unfolding before_suffix
between suffix none = none
between suffix (some rest) = non_empty (before_suffix suffix rest)

-- The group of `_MESSAGE_START_PATTERN` and `_MESSAGE_END_PATTERN`. A line has no line feed.
unfoldable pub message_start : Text → Option Text
unfolding between after_prefix
message_start line = between start_suffix (after_prefix message_prefix line)

unfoldable pub message_end : Text → Option Text
unfolding between after_prefix
message_end line = between end_suffix (after_prefix message_prefix line)

-- A text before its first `=`, and the text behind it.
unfoldable pub at_equals : Text → Option (Text × Text)
at_equals [] = none
at_equals (c ∷ cs) =
    let rest = at_equals cs in
    if c =ℕ b'='
    then some ([], cs)
    else elim rest [ none ↦ none | some (name, value) ↦ some (c ∷ name, value) ]

unfoldable pub named_value : Option (Text × Text) → Option Metadata
unfolding is_name
named_value none = none
named_value (some (name, value)) =
    if is_name name then some (record { name = name; value = value }) else none

unfoldable pub metadata_behind : Option Text → Option Metadata
unfolding named_value at_equals
metadata_behind none = none
metadata_behind (some rest) = named_value (at_equals rest)

-- `_META_PATTERN`. No character of a name is `=`.
unfoldable pub metadata_match : Text → Option Metadata
unfolding metadata_behind after_prefix
metadata_match line = metadata_behind (after_prefix meta_prefix line)

-- `_comment_content`
unfoldable pub comment_content : Text → Option Text
unfolding after_prefix text_eq
comment_content line = if line == codes "#" then some [] else after_prefix (codes "# ") line

-- `_invalid_message_start`
unfoldable pub invalid_message_start : Text → Bool
unfolding after_prefix before_suffix
invalid_message_start line =
    is_some (after_prefix message_prefix line) && is_some (before_suffix start_suffix line)

-- The variables of `parse_script`. `warnings` and `seen_warnings` hold the same texts.
pub record ParserState : Type 0 where
  pub metadata : List Metadata
  pub messages : List Message
  pub warnings : List Warning
  pub active_name : Option Text
  pub active_content : List Text
  pub active_content_is_valid : Bool
  pub discarding_message : Bool

abbrev pub initial : ParserState
initial = record {
  metadata = [];
  messages = [];
  warnings = [];
  active_name = none;
  active_content = [];
  active_content_is_valid = true;
  discarding_message = false;
}

-- `warn`
unfoldable pub warn : Warning → ParserState → ParserState
unfolding warning_eq
warn w s = if contains s.warnings w then s else record s { warnings = s.warnings ++ w ∷ [] }

-- `reset_active_message`
abbrev pub reset_active_message : ParserState → ParserState
reset_active_message s = record s {
  active_name = none;
  active_content = [];
  active_content_is_valid = true;
}

-- An `END` line in an active block
unfoldable pub close_message : Text → Text → ParserState → ParserState
unfolding warn text_eq joined_lines
close_message name end_name s = reset_active_message (
    if not (end_name == name)
    then warn (end_name_differs name end_name) s
    else if not s.active_content_is_valid
    then warn (not_fully_commented name) s
    else record s {
      messages =
          s.messages ++ (record { name = name; message_text = joined_lines s.active_content }) ∷ [];
    })

unfoldable pub keep_content : Option Text → ParserState → ParserState
keep_content none s = record s { active_content_is_valid = false }
keep_content (some content) s = record s { active_content = s.active_content ++ content ∷ [] }

unfoldable pub in_message : Text → Text → ParserState → ParserState
unfolding close_message message_end comment_content keep_content
in_message name line s = elim (message_end line) [
  | some end_name ↦ close_message name end_name s
  | none ↦ keep_content (comment_content line) s
]

unfoldable pub open_message : Text → ParserState → ParserState
unfolding is_name warn
open_message name s =
    if is_name name
    then record s { active_name = some name }
    else record (warn invalid_message s) { discarding_message = true }

unfoldable pub at_start : Text → ParserState → ParserState
unfolding message_start open_message invalid_message_start warn
at_start line s = elim (message_start line) [
  | some name ↦ open_message name s
  | none ↦
      if invalid_message_start line
      then record (warn invalid_message s) { discarding_message = true }
      else s
]

unfoldable pub outside : Text → ParserState → ParserState
unfolding metadata_match after_prefix at_start warn
outside line s = elim (metadata_match line) [
  | some m ↦ record s { metadata = s.metadata ++ m ∷ [] }
  | none ↦ if is_some (after_prefix meta_prefix line) then warn invalid_meta s else at_start line s
]

unfoldable pub active : Option Text → Text → ParserState → ParserState
unfolding in_message outside
active none line s = outside line s
active (some name) line s = in_message name line s

-- One round of the loop
unfoldable pub step : Text → ParserState → ParserState
unfolding message_end active
step line s =
    if s.discarding_message
    then (if is_some (message_end line) then record s { discarding_message = false } else s)
    else active s.active_name line s

unfoldable pub run : List Text → ParserState → ParserState
run [] s = s
run (line ∷ lines) s = run lines (step line s)

unfoldable pub finish : Option Text → ParserState → ParserState
unfolding warn
finish none s = s
finish (some name) s = warn (missing_end name) s

-- `parse_script`
unfoldable pub parse_script : Text → Result ScriptFormatError ParsedScript
unfolding validate_required_marker splitlines run step finish
parse_script script_text = do
  validate_required_marker script_text
  let last = run (splitlines script_text) initial
  let s = finish last.active_name last
  ok (record {
    script_text = script_text;
    metadata = s.metadata;
    messages = s.messages;
    warnings = s.warnings;
  })
