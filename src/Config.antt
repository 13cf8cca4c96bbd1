-- ===== src/Config.antt =====
-- Configuration files: yat::CfgFile (src/file/FileName.cpp, include/yat/file/FileName.h). The maps of
-- the class are functions here: their order is not modelled. `none` stands for a read before the
-- beginning of a text.
use yat.Common.{
  ℕ, zero, suc, ◌+◌, ◌-◌, Bool, true, false, not, ◌&&◌, ◌||◌, List, [], ◌∷◌, ◌++◌, Option, none,
  some, ◌==◌, if◌then◌else◌, length, take, drop,
}
use yat.Text.Maps.{same, Map, no_keys, insert, same_self}
use yat.Text.{Bytes, is_empty, find_char, find, extract_token}
use yat.Text.Trim.{trim}
use yat.Text.Match.{Matched, matches, differs, reads_outside, match}
pub mod Lines
pub mod Entries
pub mod Choice
pub mod Marks
pub mod Turns
pub mod Loads
pub mod Queries
mod Tests

abbrev pub Parameters : Type 0
Parameters = Map Bytes

pub record Section : Type 0 where
  pub single_values : List Bytes
  pub parameters : Parameters
  pub objects : Map (List Parameters)

abbrev pub no_section : Section
no_section = record { single_values = []; parameters = no_keys; objects = no_keys }

pub record CfgFile : Type 0 where
  pub sections : Map Section
  pub section : Bytes

abbrev pub or_new : Option Section → Section
or_new none = no_section
or_new (some s) = s

-- `m_dictSection[name]`.
abbrev pub section_of : Bytes → CfgFile → Section
section_of name f = or_new (f.sections name)

abbrev pub current : CfgFile → Section
current f = section_of f.section f

abbrev pub put_section : Section → CfgFile → CfgFile
put_section s f = record f { sections = insert f.section s f.sections }

-- `default`.
abbrev pub default_section : Bytes
default_section = 100 ∷ 101 ∷ 102 ∷ 97 ∷ 117 ∷ 108 ∷ 116 ∷ []

-- The variables of `load_from_string`, with `line` where it is read again; the object that takes the parameters is the last one of its
-- type, if there is one.
pub record Loading : Type 0 where
  pub file : CfgFile
  pub object : Option Bytes
  pub is_multiline : Bool
  pub param_name : Bytes
  pub param_value : Bytes
  pub line : Bytes

abbrev pub set_last : Bytes → Bytes → List Parameters → List Parameters
set_last name v [] = []
set_last name v (o ∷ []) = insert name v o ∷ []
set_last name v (o ∷ p ∷ os) = o ∷ set_last name v (p ∷ os)

abbrev pub or_none : Option (List Parameters) → List Parameters
or_none none = []
or_none (some os) = os

abbrev pub set_parameter : Option Bytes → Bytes → Bytes → Section → Section
set_parameter none name v s = record s { parameters = insert name v s.parameters }
set_parameter (some type) name v s = record s {
  objects = insert type (set_last name v (or_none (s.objects type))) s.objects;
}

-- A parameter goes to the section or to the object.
abbrev pub store : Bytes → Bytes → Loading → Loading
store name v l = record l {
  file = put_section (set_parameter l.object name v (current l.file)) l.file;
}

-- The overload of `extract_token` for a text between two characters, without an escape character.
abbrev pub between : ℕ → Bytes → Option ℕ → Option Bytes
between left s none = none
between left s (some right) = some (take (right - left - 1) (drop (left + 1) s))

abbrev pub enclosed_from : ℕ → Bytes → Option ℕ → Option Bytes
enclosed_from right s none = none
enclosed_from right s (some left) = between left s (find right s (left + 1))

unfoldable pub extract_enclosed : ℕ → ℕ → Bytes → Option Bytes
unfolding find_char find
extract_enclosed left right s = enclosed_from right s (find_char left s)

abbrev pub is_match : Matched → Bool
is_match matches = true
is_match m = false

-- `match(line, "<c>*")`, `match(line, "*\\")`, `match(line, "[*]")`, `match(line, "*=*")` and
-- `match(line, "*:")`; `*` is 42, `\` 92, `[` 91, `]` 93, `=` 61, `:` 58.
abbrev pub begins : ℕ → Bytes → Bool
begins c line = is_match (match line (c ∷ 42 ∷ []))

abbrev pub continues : Bytes → Matched
continues line = match line (42 ∷ 92 ∷ [])

abbrev pub declares_section : Bytes → Bool
declares_section line = is_match (match line (91 ∷ 42 ∷ 93 ∷ []))

abbrev pub sets_parameter : Bytes → Bool
sets_parameter line = is_match (match line (42 ∷ 61 ∷ 42 ∷ []))

abbrev pub opens_object : Bytes → Matched
opens_object line = match line (42 ∷ 58 ∷ [])

-- `start_with(line, '\'')`.
abbrev pub is_quoted : Bytes → Bool
is_quoted [] = false
is_quoted (x ∷ s) = x == 39

abbrev pub without_last : Bytes → Bytes
without_last s = take (length s - 1) s

-- A line of a value that goes on over several lines.
abbrev pub add_line : Bytes → Loading → Loading
add_line line l = record l { param_value = l.param_value ++ 10 ∷ line }

unfoldable pub multiline_turn : Bytes → Matched → Loading → Option Loading
unfolding trim
multiline_turn line reads_outside l = none
multiline_turn line matches l =
    let line = without_last line in some (record (add_line line l) { line = line })
multiline_turn line differs l =
    let l1 = add_line line l in
    let value = trim l1.param_value in
    some (store l.param_name value (record l1 { param_value = value; is_multiline = false }))

abbrev pub text_of : Option Bytes → Bytes
text_of none = []
text_of (some s) = s

unfoldable pub section_turn : Bytes → Loading → Loading
unfolding trim extract_enclosed
section_turn line l =
    let name = trim (text_of (extract_enclosed 91 93 line)) in
    record l { file = put_section no_section (record (l.file) { section = name }); object = none }

-- Whether the value goes on in the next line.
unfoldable pub value_turn : Bytes → Bytes → Matched → Loading → Option Loading
value_turn name value reads_outside l = none
value_turn name value matches l =
    some (record l { param_name = name; param_value = without_last value; is_multiline = true })
value_turn name value differs l =
    some (store name value (record l { param_name = name; param_value = value }))

unfoldable pub parameter_turn : Bytes → Loading → Option Loading
unfolding trim extract_token value_turn match
parameter_turn line l =
    let e = extract_token 61 0 line in
    let value = trim e.rest in
    value_turn (trim e.token) value (continues value) (record l { line = e.rest })

abbrev pub add_object : Bytes → Section → Section
add_object type s = record s {
  objects = insert type (or_none (s.objects type) ++ no_keys ∷ []) s.objects;
}

unfoldable pub object_turn : Bytes → Loading → Loading
unfolding trim extract_token
object_turn line l =
    let type = trim (extract_token 58 0 line).token in
    record l { file = put_section (add_object type (current l.file)) l.file; object = some type }

abbrev pub add_value : Bytes → Section → Section
add_value v s = record s { single_values = s.single_values ++ v ∷ [] }

unfoldable pub value_line : Bytes → Loading → Loading
value_line line l = record l {
  file =
      put_section (add_value (if is_quoted line then drop 1 line else line) (current l.file))
        l.file;
  object = none;
}

-- The last tests of a line, on whether it opens an object.
abbrev pub object_or_value : Bytes → Matched → Loading → Option Loading
object_or_value line reads_outside l = none
object_or_value line m l =
    some (if is_match m && not (is_quoted line) then object_turn line l else value_line line l)

-- A line that is trimmed and begins something new, by the answers to the tests in their order.
unfoldable pub choose : Bool → Bool → Bool → Bool → Matched → Bytes → Loading → Option Loading
unfolding section_turn parameter_turn object_turn value_line
choose skipped ends_object section parameter object line l =
    if skipped
    then some l
    else if ends_object
    then some (record l { object = none })
    else if section
    then some (section_turn line l)
    else if parameter
    then parameter_turn line l
    else object_or_value line object l

abbrev pub is_skipped : Bytes → Bool
is_skipped line = is_empty line || (begins 35 line || begins 59 line)

unfoldable pub single_turn : Bytes → Loading → Option Loading
unfolding match choose
single_turn line l =
    choose (is_skipped line) (begins 45 line) (declares_section line)
      (sets_parameter line && not (is_quoted line)) (opens_object line) line l

unfoldable pub line_turn : Bytes → Loading → Option Loading
unfolding match single_turn multiline_turn
line_turn line l =
    if l.is_multiline then multiline_turn line (continues line) l else single_turn line l

-- Behind the loop: a value that would go on is replaced by the last line.
unfoldable pub finish : Loading → CfgFile
finish l =
    let l1 = if l.is_multiline then store l.param_name l.line l else l in
    record (l1.file) { section = default_section }

abbrev pub and_then : Option Loading → (Loading → Option CfgFile) → Option CfgFile
and_then none next = none
and_then (some l) next = next l

-- The loop over the lines, with the length of the text as fuel.
unfoldable pub load_loop : ℕ → Bytes → Loading → Option CfgFile
unfolding line_turn finish extract_token trim
load_loop fuel [] l = some (finish l)
load_loop zero (x ∷ content) l = none
load_loop (suc fuel) (x ∷ content) l =
    let e = extract_token 10 0 (x ∷ content) in
    let line = trim e.token in
    and_then (line_turn line (record l { line = line })) (λ next. load_loop fuel e.rest next)

abbrev pub loading : CfgFile → Loading
loading f = record {
  file = put_section no_section (record f { section = default_section });
  object = none;
  is_multiline = false;
  param_name = [];
  param_value = [];
  line = [];
}

unfoldable pub load_from_string : Bytes → CfgFile → Option CfgFile
unfolding load_loop
load_from_string content f = load_loop (length content) content (loading f)
