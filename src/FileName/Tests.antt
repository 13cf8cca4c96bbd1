-- ===== src/FileName/Tests.antt =====
-- The parts of `/a.b/c.d`, and of names at the edges.
use yat.Common.{◌≡◌, refl, false, [], ◌∷◌, ◌++◌, Option, some, arith}
use yat.Text.{Bytes}
use yat.FileName.{sep_path, is_null, find_last_of, is_path_name, path, name, ext, name_ext}
use yat.FileName.Parts.{dotted, extension, parts}

methods : Unit {0}
unfolding is_null find_last_of is_path_name path name ext name_ext
methods = tt

abbrev folder : Bytes
folder = 47 ∷ 97 ∷ 46 ∷ 98 ∷ []

abbrev stem : Bytes
stem = 99 ∷ []

abbrev suffix : Option Bytes
suffix = some (100 ∷ [])

abbrev whole : Bytes
whole = folder ++ sep_path ∷ dotted stem suffix

not_null : is_null whole ≡ false
unfolding methods
not_null = refl

parts_example :
    (path whole ≡ folder ++ sep_path ∷ [])
    × (name whole ≡ stem)
    × (ext whole ≡ extension suffix)
    × (name_ext whole ≡ dotted stem suffix)
    × (path whole ++ name_ext whole ≡ whole)
parts_example =
    parts folder stem suffix
      ((λ h. omega (arith, h)), ((λ h. omega (arith, h)), ((λ h. omega (arith, h)), tt)))
      (((λ h. omega (arith, h)), tt), omega arith) (omega arith) not_null

-- `/a.b/c` has no extension, and the dot at the end of `/c.` is in none of the parts.
dot_in_path :
    (name (47 ∷ 97 ∷ 46 ∷ 98 ∷ 47 ∷ 99 ∷ []) ≡ 99 ∷ [])
    × (ext (47 ∷ 97 ∷ 46 ∷ 98 ∷ 47 ∷ 99 ∷ []) ≡ [])
unfolding methods
dot_in_path = (refl, refl)

dot_at_end : name_ext (47 ∷ 99 ∷ 46 ∷ []) ≡ 99 ∷ []
unfolding methods
dot_at_end = refl
