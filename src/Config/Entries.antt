-- ===== src/Config/Entries.antt =====
-- The lines of a configuration file by what they say, and what they mean.
use yat.Common.{
  ℕ, ◌<◌, ◌≡◌, Bool, true, false, not, ◌||◌, [], ◌∷◌, ◌++◌, Option, none, some, ◌==◌, length,
}
use yat.Text.{Bytes}
use yat.Text.Find.{Free}
use yat.Text.Trim.{White, is_trimmed}
use yat.Config.{
  CfgFile, Loading, no_section, current, put_section, set_parameter, add_object, add_value,
}
use yat.Config.Lines.{ends_with}

-- `v` and `w` stand around the `=`.
pub data Entry : Type 0 where
  blank : Entry
  comment : (mark : ℕ) (s : Bytes) → Entry
  section_line : (name : Bytes) → Entry
  parameter_line : (name v w value : Bytes) → Entry
  value_text quoted : (s : Bytes) → Entry
  object_line : (type : Bytes) → Entry
  end_line : (s : Bytes) → Entry

abbrev pub written : Entry → Bytes
written blank = []
written (comment mark s) = mark ∷ s
written (section_line name) = 91 ∷ (name ++ 93 ∷ [])
written (parameter_line name v w value) = (name ++ v) ++ 61 ∷ (w ++ value)
written (value_text s) = s
written (quoted s) = 39 ∷ s
written (object_line type) = type ++ 58 ∷ []
written (end_line s) = 45 ∷ s

-- `#`, `;`, `-`, `[` and `'` have a meaning at the beginning of a line.
abbrev pub is_special : ℕ → Bool
is_special x = ((x == 35) || (x == 59)) || ((x == 45) || ((x == 91) || (x == 39)))

abbrev pub has_plain_start : Bytes → Bool
has_plain_start [] = false
has_plain_start (x ∷ s) = not (is_special x)

abbrev pub Wellformed : Entry → Type 0
Wellformed blank = Unit {0}
Wellformed (comment mark s) = ((mark == 35) || (mark == 59)) ≡ true
Wellformed (section_line name) = Free 93 name × (is_trimmed name ≡ true)
Wellformed (parameter_line name v w value) =
    (has_plain_start name ≡ true)
    × (is_trimmed name ≡ true)
    × Free 61 (name ++ v)
    × White v
    × White w
    × (is_trimmed value ≡ true)
    × (0 < length value)
    × (ends_with 92 value ≡ false)
Wellformed (value_text s) = (has_plain_start s ≡ true) × Free 61 s × (ends_with 58 s ≡ false)
Wellformed (quoted s) = Unit {0}
Wellformed (object_line type) =
    (has_plain_start type ≡ true)
    × (is_trimmed type ≡ true)
    × Free 58 type
    × Free 61 (type ++ 58 ∷ [])
Wellformed (end_line s) = Unit {0}

-- An entry on one line without white space around it.
abbrev pub IsLine : Entry → Type 0
IsLine e = Free 10 (written e) × (is_trimmed (written e) ≡ true) × Wellformed e

-- What is read so far: the file, and the object that takes the parameters.
pub record Reading : Type 0 where
  pub file : CfgFile
  pub object : Option Bytes

abbrev pub add_single : Bytes → Reading → Reading
add_single s r = record { file = put_section (add_value s (current r.file)) r.file; object = none }

abbrev pub meaning : Entry → Reading → Reading
meaning blank r = r
meaning (comment mark s) r = r
meaning (section_line name) r = record {
  file = put_section no_section (record (r.file) { section = name });
  object = none;
}
meaning (parameter_line name v w value) r = record r {
  file = put_section (set_parameter r.object name value (current r.file)) r.file;
}
meaning (value_text s) r = add_single s r
meaning (quoted s) r = add_single s r
meaning (object_line type) r = record {
  file = put_section (add_object type (current r.file)) r.file;
  object = some type;
}
meaning (end_line s) r = record r { object = none }

abbrev pub reading_of : Loading → Reading
reading_of l = record { file = l.file; object = l.object }

-- A turn leads from `l` to what the entry means.
abbrev pub Reads : Entry → Loading → Option Loading → Type 0
Reads e l o =
    (next : Loading) × (o ≡ some next)
    × (reading_of next ≡ meaning e (reading_of l))
    × (next.is_multiline ≡ l.is_multiline)
