-- ===== src/FileName/Parts.antt =====
-- A file's name is made of its parts.
use mathlib.Core.List.{append_assoc}
use yat.Common.{
  ℕ, ◌+◌, ◌≤◌, ◌<◌, ◌^◌, ◌≡◌, refl, sym, ap, ap₂, ◌∙◌, Bool, true, false, not, ◌&&◌, [], ◌∷◌, ◌++◌,
  Option, none, some, ltb, if◌then◌else◌, length, take, drop, sub64, arith, length-append,
  take-append, take-append_add, take-of_length_le,
}
use yat.Text.{Bytes}
use yat.Text.Find.{Free}
use yat.Text.Token.{drop-append_suc, is_empty-append}
use yat.FileName.{
  sep_path, sep_ext, null_path, null_file_name, is_null, is_valid, find_last_of, up_to, path,
  name_between, name, ext_behind, ext, with_ext, name_ext,
}
use yat.FileName.Last.{find_last_of-before, find_last_of-here, find_last_of-small}

-- What stands behind the last separator: a name without a dot, or one with an extension.
abbrev pub dotted : Bytes → Option Bytes → Bytes
dotted n none = n
dotted n (some e) = n ++ sep_ext ∷ e

abbrev pub extension : Option Bytes → Bytes
extension none = []
extension (some e) = e

abbrev pub IsStem : Bytes → Option Bytes → Type 0
IsStem n none = Free sep_ext n
IsStem n (some e) = Free sep_ext e × (0 < length e)

module _ (d n : Bytes) (o : Option Bytes) (h : Free sep_path (dotted n o)) where
  abbrev file : Bytes
  file = d ++ sep_path ∷ dotted n o

  path-part : up_to file (find_last_of sep_path file) ≡ d ++ sep_path ∷ []
  path-part =
      ap (up_to file) (find_last_of-here sep_path d (dotted n o) h)
      ∙ take-append_add (length d) 1 d (sep_path ∷ dotted n o) refl

-- The last dot of the whole text stands behind the name, or before the last separator.
dot_of :
    (d n e : Bytes)
    → Free sep_ext e
    → find_last_of sep_ext (d ++ sep_path ∷ (n ++ sep_ext ∷ e)) ≡ some (length d + (length n + 1))
dot_of d n e h =
    ap (find_last_of sep_ext) (sym (append_assoc d (sep_path ∷ n) (sep_ext ∷ e)))
    ∙ find_last_of-here sep_ext (d ++ sep_path ∷ n) e h
    ∙ ap some (omega (arith, length-append d (sep_path ∷ n)))

no_dot_of :
    (d n : Bytes)
    → Free sep_ext n
    → find_last_of sep_ext (d ++ sep_path ∷ n) ≡ find_last_of sep_ext d
no_dot_of d n h = find_last_of-before sep_ext d (sep_path ∷ n) ((λ e. omega (arith, e)), h)

name-dotted :
    (d n e : Bytes)
    → length (d ++ sep_path ∷ (n ++ sep_ext ∷ e)) < 2 ^ 63
    → name_between
        (d ++ sep_path ∷ (n ++ sep_ext ∷ e))
        (some (length d))
        (some (length d + (length n + 1)))
      ≡ n
name-dotted d n e small =
    let room = length-append d (sep_path ∷ (n ++ sep_ext ∷ e)) in
    let count : sub64 (sub64 (length d + (length n + 1)) (length d)) 1 ≡ length n =
      omega (arith, small, room, length-append n (sep_ext ∷ e)) in
    ap₂ take count (drop-append_suc d sep_path (n ++ sep_ext ∷ e)) ∙ take-append n (sep_ext ∷ e)

name-plain :
    (d n : Bytes) (o : Option ℕ)
    → length (d ++ sep_path ∷ n) < 2 ^ 63
    → ((k : ℕ) → o ≡ some k → k < length d)
    → name_between (d ++ sep_path ∷ n) (some (length d)) o ≡ n
name-plain d n none small before =
    let count : length n ≤ sub64 (sub64 (length (d ++ sep_path ∷ n)) (length d)) 1 =
      omega (arith, small, length-append d (sep_path ∷ n)) in
    ap (take (sub64 (sub64 (length (d ++ sep_path ∷ n)) (length d)) 1))
      (drop-append_suc d sep_path n)
    ∙ take-of_length_le (sub64 (sub64 (length (d ++ sep_path ∷ n)) (length d)) 1) n count
name-plain d n (some k) small before =
    let count : length n ≤ sub64 (sub64 k (length d)) 1 =
      omega (arith, small, before k refl, length-append d (sep_path ∷ n)) in
    ap (take (sub64 (sub64 k (length d)) 1)) (drop-append_suc d sep_path n)
    ∙ take-of_length_le (sub64 (sub64 k (length d)) 1) n count

ext-dotted :
    (d n e : Bytes)
    → ext_behind
        (d ++ sep_path ∷ (n ++ sep_ext ∷ e))
        (some (length d))
        (some (length d + (length n + 1)))
      ≡ e
ext-dotted d n e =
    let f = d ++ sep_path ∷ (n ++ sep_ext ∷ e) in
    let behind : ltb (length d) (length d + (length n + 1)) ≡ true = ground arith in
    let place : length d + (length n + 1) ≡ length (d ++ sep_path ∷ n) =
      omega (arith, length-append d (sep_path ∷ n)) in
    ap (λ (b : Bool). if b then drop (length d + (length n + 1) + 1) f else []) behind
    ∙ ap₂ (λ (i : ℕ) (s : Bytes). drop (i + 1) s) place
        (sym (append_assoc d (sep_path ∷ n) (sep_ext ∷ e)))
    ∙ drop-append_suc (d ++ sep_path ∷ n) sep_ext e

ext-plain :
    (d s : Bytes) (o : Option ℕ)
    → ((k : ℕ) → o ≡ some k → k < length d)
    → ext_behind s (some (length d)) o ≡ []
ext-plain d s none before = refl
ext-plain d s (some k) before =
    let near = before k refl in
    let e : ltb (length d) k ≡ false = ground arith in
    ap (λ (b : Bool). if b then drop (k + 1) s else []) e

name_part :
    (d n : Bytes) (o : Option Bytes)
    → Free sep_path (dotted n o)
    → IsStem n o
    → length (d ++ sep_path ∷ dotted n o) < 2 ^ 63
    → let f = d ++ sep_path ∷ dotted n o in
      (name_between f (find_last_of sep_path f) (find_last_of sep_ext f) ≡ n)
      × (ext_behind f (find_last_of sep_path f) (find_last_of sep_ext f) ≡ extension o)
name_part d n none free stem small =
    let f = d ++ sep_path ∷ n in
    let sep = find_last_of-here sep_path d n free in
    let dot = no_dot_of d n stem in
    let before = find_last_of-small sep_ext d in
    (
      ap₂ (name_between f) sep dot ∙ name-plain d n (find_last_of sep_ext d) small before,
      ap₂ (ext_behind f) sep dot ∙ ext-plain d f (find_last_of sep_ext d) before,
    )
name_part d n (some e) free stem small =
    let f = d ++ sep_path ∷ (n ++ sep_ext ∷ e) in
    let sep = find_last_of-here sep_path d (n ++ sep_ext ∷ e) free in
    let dot = dot_of d n e stem.0 in
    (
      ap₂ (name_between f) sep dot ∙ name-dotted d n e small,
      ap₂ (ext_behind f) sep dot ∙ ext-dotted d n e,
    )

with_ext-dotted :
    (n : Bytes) (o : Option Bytes) → IsStem n o → with_ext n (extension o) ≡ dotted n o
with_ext-dotted n none h = refl
with_ext-dotted n (some e) h =
    let long = h.1 in
    let some_ext : ltb 0 (length e) ≡ true = ground arith in
    ap (λ (b : Bool). if b then n ++ sep_ext ∷ e else n) some_ext

-- A full name, not `/dev/null` and shorter than 2^63: a path that ends in the last separator, a name,
-- and either no dot behind the path or, behind the last dot there, an extension that is not empty. The queries answer these
-- parts, whatever dots the path holds, and the path and the name with its extension make the full
-- name again.
pub parts :
    (d n : Bytes) (o : Option Bytes)
    → Free sep_path (dotted n o)
    → IsStem n o
    → length (d ++ sep_path ∷ dotted n o) < 2 ^ 63
    → is_null (d ++ sep_path ∷ dotted n o) ≡ false
    → let f = d ++ sep_path ∷ dotted n o in
      (path f ≡ d ++ sep_path ∷ [])
      × (name f ≡ n)
      × (ext f ≡ extension o)
      × (name_ext f ≡ dotted n o)
      × (path f ++ name_ext f ≡ f)
unfolding path name ext name_ext
parts d n o free stem small real =
    let f = d ++ sep_path ∷ dotted n o in
    let found = name_part d n o free stem small in
    let valid : is_valid f ≡ true =
      ap₂ (λ (a b : Bool). not a && not b) (is_empty-append d sep_path (dotted n o)) real in
    let is_path : path f ≡ d ++ sep_path ∷ [] =
      ap (λ (b : Bool). if b then null_path else up_to f (find_last_of sep_path f)) real
      ∙ path-part d n o free in
    let is_name : name f ≡ n =
      ap
        (λ (b : Bool).
          if b
          then null_file_name
          else (if not (is_valid f)
              then []
              else name_between f (find_last_of sep_path f) (find_last_of sep_ext f)))
        real
      ∙ ap
          (λ (b : Bool).
            if not b then [] else name_between f (find_last_of sep_path f) (find_last_of sep_ext f))
          valid
      ∙ found.0 in
    let is_ext : ext f ≡ extension o =
      ap
        (λ (b : Bool).
          if not b then [] else ext_behind f (find_last_of sep_path f) (find_last_of sep_ext f))
        valid
      ∙ found.1 in
    let is_name_ext : name_ext f ≡ dotted n o =
      ap
        (λ (b : Bool).
          if b
          then null_file_name
          else (if not (is_valid f) then [] else with_ext (name f) (ext f)))
        real
      ∙ ap (λ (b : Bool). if not b then [] else with_ext (name f) (ext f)) valid
      ∙ ap₂ with_ext is_name is_ext
      ∙ with_ext-dotted n o stem in
    (
      is_path,
      is_name,
      is_ext,
      is_name_ext,
      ap₂ ◌++◌ is_path is_name_ext ∙ append_assoc d (sep_path ∷ []) (dotted n o),
    )
