-- ===== src/Config/Tests.antt =====
-- A file with a section, and the theorems at concrete inputs.
use yat.Common.{◌≡◌, refl, true, false, List, [], ◌∷◌, some, arith, All}
use yat.Text.{Bytes}
use yat.Text.Maps.{no_keys}
use yat.Config.{CfgFile, default_section, load_from_string, load_loop, loading}
use yat.Config.Entries.{
  Entry, section_line, parameter_line, value_text, object_line, end_line, IsLine, reading_of,
}
use yat.Config.Loads.{text_of_entries, meanings, closed, load_from_string-means}
use yat.Config.Queries.{
  get_values, has_object, get_objects, get_parameters, get_param_value, has_parameter, set_section,
}

methods : Unit {0}
unfolding load_from_string load_loop set_section get_values get_param_value has_object get_objects
    get_parameters has_parameter
methods = tt

abbrev no_file : CfgFile
no_file = record { sections = no_keys; section = default_section }

-- `[s]`, `a=b`, `t:`, `c = d`, `-` and `v`.
abbrev lines : List Entry
lines =
    (section_line (115 ∷ []))
    ∷ (parameter_line (97 ∷ []) [] [] (98 ∷ []))
    ∷ (object_line (116 ∷ []))
    ∷ (parameter_line (99 ∷ []) (32 ∷ []) (32 ∷ []) (100 ∷ []))
    ∷ (end_line [])
    ∷ (value_text (118 ∷ []))
    ∷ []

lines-IsLine : All IsLine lines
lines-IsLine = (
  (
    ((λ h. omega (arith, h)), ((λ h. omega (arith, h)), ((λ h. omega (arith, h)), tt))),
    refl,
    (((λ h. omega (arith, h)), tt), refl),
  ),
  (
    (
      ((λ h. omega (arith, h)), ((λ h. omega (arith, h)), ((λ h. omega (arith, h)), tt))),
      refl,
      (refl, refl, ((λ h. omega (arith, h)), tt), tt, tt, refl, omega arith, refl),
    ),
    (
      (
        ((λ h. omega (arith, h)), ((λ h. omega (arith, h)), tt)),
        refl,
        (
          refl,
          refl,
          ((λ h. omega (arith, h)), tt),
          ((λ h. omega (arith, h)), ((λ h. omega (arith, h)), tt)),
        ),
      ),
      (
        (
          (
            (λ h. omega (arith, h)),
            (
              (λ h. omega (arith, h)),
              ((λ h. omega (arith, h)), ((λ h. omega (arith, h)), ((λ h. omega (arith, h)), tt))),
            ),
          ),
          refl,
          (
            refl,
            refl,
            ((λ h. omega (arith, h)), ((λ h. omega (arith, h)), tt)),
            (refl, tt),
            (refl, tt),
            refl,
            omega arith,
            refl,
          ),
        ),
        (
          (((λ h. omega (arith, h)), tt), refl, tt),
          ((((λ h. omega (arith, h)), tt), refl, (refl, ((λ h. omega (arith, h)), tt), refl)), tt),
        ),
      ),
    ),
  ),
)

abbrev loaded : CfgFile
loaded = closed (meanings lines (reading_of (loading no_file)))

load_from_string-means_example : load_from_string (text_of_entries lines) no_file ≡ some loaded
load_from_string-means_example = load_from_string-means lines no_file lines-IsLine

abbrev in_section : CfgFile
in_section = (set_section (115 ∷ []) true loaded).file

value_of_a : (get_param_value (97 ∷ []) true in_section).answer ≡ some (98 ∷ [])
unfolding methods
value_of_a = refl

no_value_of_c : (has_parameter (99 ∷ []) in_section).answer ≡ some false
unfolding methods
no_value_of_c = refl

object_of_t : (has_object (116 ∷ []) in_section).answer ≡ some true
unfolding methods
object_of_t = refl

one_value : (get_values (115 ∷ []) loaded).answer ≡ some ((118 ∷ []) ∷ [])
unfolding methods
one_value = refl

abbrev other_name : Bytes
other_name = 120 ∷ []
