-- ===== src/Config/Queries.antt =====
-- What CfgFile answers (src/file/FileName.cpp). `m_dictSection[name]` makes an empty section of a
-- name that there is none of, and the map is mutable: the queries give the file back.
use yat.Common.{◌≡◌, ap, ◌∙◌, Bool, true, false, List, [], Option, none, some, if◌then◌else◌}
use yat.Text.Maps.{same, insert, same_self}
use yat.Text.{Bytes, is_empty}
use yat.Config.{
  Parameters, Section, CfgFile, or_new, section_of, set_parameter, put_section, current,
}

abbrev pub touch : Bytes → CfgFile → CfgFile
touch name f = record f { sections = insert name (section_of name f) f.sections }

-- An answer or the exception NO_DATA, and the file.
pub record Answer (A : Type 0) : Type 0 where
  pub answer : Option A
  pub file : CfgFile

abbrev pub here : {A : Type 0} → (Section → Option A) → CfgFile → Answer A
here query f = record { answer = query (current f); file = touch f.section f }

unfoldable pub get_values : Bytes → CfgFile → Answer (List Bytes)
get_values name f =
    if is_empty name
    then here (λ s. some s.single_values) f
    else record { answer = some (section_of name f).single_values; file = touch name f }

abbrev pub is_there : {A : Type 0} → Option A → Bool
is_there none = false
is_there (some a) = true

unfoldable pub has_object : Bytes → CfgFile → Answer Bool
has_object type f = here (λ s. some (is_there (s.objects type))) f

unfoldable pub get_objects : Bytes → CfgFile → Answer (List Parameters)
get_objects type f = here (λ s. s.objects type) f

unfoldable pub get_parameters : CfgFile → Answer Parameters
get_parameters f = here (λ s. some s.parameters) f

-- The text that stands for a missing parameter is empty.
abbrev pub or_empty : Bool → Option Bytes → Option Bytes
or_empty throw_exception none = if throw_exception then none else some []
or_empty throw_exception (some v) = some v

unfoldable pub get_param_value : Bytes → Bool → CfgFile → Answer Bytes
get_param_value param throw_exception f =
    here (λ s. or_empty throw_exception (s.parameters param)) f

unfoldable pub has_parameter : Bytes → CfgFile → Answer Bool
has_parameter param f = here (λ s. some (is_there (s.parameters param))) f

abbrev pub set_if : Bool → Bytes → Bool → CfgFile → Answer Bool
set_if true name throw_exception f = record {
  answer = some true;
  file = record f { section = name };
}
set_if false name throw_exception f = record {
  answer = if throw_exception then none else some false;
  file = f;
}

unfoldable pub set_section : Bytes → Bool → CfgFile → Answer Bool
set_section name throw_exception f = set_if (is_there (f.sections name)) name throw_exception f

current_put : (s : Section) (f : CfgFile) → current (put_section s f) ≡ s
current_put s f =
    ap (λ (b : Bool). or_new (if b then some s else f.sections f.section)) (same_self f.section)

-- A parameter that is stored in the section under the cursor is the one that is answered, and the
-- others are answered as before.
pub get_param_value-stored :
    (name other v : Bytes) (f : CfgFile) (throw_exception : Bool)
    → same other name ≡ false
    → let stored = put_section (set_parameter none name v (current f)) f in
      ((get_param_value name throw_exception stored).answer ≡ some v)
      × ((get_param_value other throw_exception stored).answer
          ≡ (get_param_value other throw_exception f).answer)
unfolding get_param_value
get_param_value-stored name other v f throw_exception differ =
    let section = set_parameter none name v (current f) in
    let stored = current_put section f in
    (
      ap (λ (c : Section). or_empty throw_exception (c.parameters name)) stored
          ∙ ap
              (λ (b : Bool).
                or_empty throw_exception (if b then some v else (current f).parameters name))
              (same_self name),
      ap (λ (c : Section). or_empty throw_exception (c.parameters other)) stored
          ∙ ap
              (λ (b : Bool).
                or_empty throw_exception (if b then some v else (current f).parameters other))
              differ,
    )
