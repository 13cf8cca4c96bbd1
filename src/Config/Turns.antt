-- ===== src/Config/Turns.antt =====
-- One turn of the loop of CfgFile::load_from_string does what the line means.
use mathlib.Core.List.{append-nil}
use yat.Common.{
  ◌<◌, ◌≡◌, refl, sym, ap, ◌∙◌, Bool, true, false, not, ◌&&◌, [], ◌∷◌, ◌++◌, none, some,
  if◌then◌else◌, length, arith, drop,
}
use yat.Text.Maps.{same}
use yat.Text.{Bytes, Extracted}
use yat.Text.Find.{Free}
use yat.Text.Trim.{White, trim, is_trimmed, trim-padded}
use yat.Text.Match.{matches_if, matches, differs}
use yat.Config.{
  Loading, current, put_section, add_object, add_value, store, continues, sets_parameter,
  opens_object, is_quoted, value_turn, parameter_turn, object_turn, value_line, object_or_value,
  choose, single_turn,
}
use yat.Config.Lines.{
  ends_with, continues-last, opens_object-last, declares_section-ends, sets_parameter-contains,
  contains-Free, contains-append, ends_with-append, trim-trimmed, extract_token-plain,
}
use yat.Config.Entries.{
  Entry, blank, comment, section_line, parameter_line, value_text, quoted, object_line, end_line,
  written, is_special, Wellformed, Reads,
}
use yat.Config.Choice.{single-by, skipped-first, ends_object-first, plain-by}
use yat.Config.Marks.{comment-Reads, end_line-Reads, blank-Reads, section_line-Reads}

not-true : (b : Bool) → not b ≡ true → b ≡ false
not-true true h = cc
not-true false h = refl

parameter_turn-stores :
    (name v w value line : Bytes) (l : Loading)
    → line ≡ (name ++ v) ++ 61 ∷ (w ++ value)
    → Free 61 (name ++ v)
    → is_trimmed name ≡ true
    → White v
    → White w
    → is_trimmed value ≡ true
    → continues value ≡ differs
    → parameter_turn line l
      ≡ some (
          store name value (record l { param_name = name; param_value = value; line = w ++ value }))
unfolding parameter_turn value_turn
parameter_turn-stores name v w value line l same free tn hv hw tv done =
    let token : trim (name ++ v) ≡ name = trim-padded [] name v tt hv tn in
    let rest : trim (w ++ value) ≡ value =
      ap (λ (t : Bytes). trim (w ++ t)) (sym (append-nil value))
      ∙ trim-padded w value [] hw tt tv in
    ap (λ (s : Bytes). parameter_turn s l) same
    ∙ ap
        (λ (e : Extracted).
          value_turn (trim e.token) (trim e.rest) (continues (trim e.rest))
            (record l { line = e.rest }))
        (extract_token-plain 61 (name ++ v) (w ++ value) free)
    ∙ ap
        (λ (t : Bytes).
          value_turn t (trim (w ++ value)) (continues (trim (w ++ value)))
            (record l { line = w ++ value }))
        token
    ∙ ap (λ (t : Bytes). value_turn name t (continues t) (record l { line = w ++ value })) rest
    ∙ ap (λ m. value_turn name value m (record l { line = w ++ value })) done

no_continuation :
    (value : Bytes) → 0 < length value → ends_with 92 value ≡ false → continues value ≡ differs
no_continuation [] long h = absurd (omega arith)
no_continuation (x ∷ s) long h = continues-last x s ∙ ap matches_if h

parameter_line-Reads :
    (name v w value : Bytes) (l : Loading)
    → Wellformed (parameter_line name v w value)
    → Reads (parameter_line name v w value) l (single_turn ((name ++ v) ++ 61 ∷ (w ++ value)) l)
unfolding choose
parameter_line-Reads [] v w value l h = let start = h.0 in cc
parameter_line-Reads (x ∷ name) v w value l (start, tn, free, hv, hw, tv, long, last) =
    let s = (name ++ v) ++ 61 ∷ (w ++ value) in
    let by =
      plain-by x s l true (opens_object (x ∷ s)) (not-true (is_special x) start)
        (sets_parameter-contains (x ∷ s) ∙ contains-append 61 ((x ∷ name) ++ v) (w ++ value))
        refl in
    (
      store (x ∷ name) value
          (record l { param_name = x ∷ name; param_value = value; line = w ++ value }),
      by.0
          ∙ parameter_turn-stores (x ∷ name) v w value (x ∷ s) l refl free tn hv hw tv
              (no_continuation value long last),
      refl,
      refl,
    )

value_line-plain :
    (line : Bytes) (l : Loading)
    → is_quoted line ≡ false
    → value_line line l
      ≡ record l { file = put_section (add_value line (current l.file)) l.file; object = none }
unfolding value_line
value_line-plain line l h =
    ap
      (λ (b : Bool). record l {
        file = put_section (add_value (if b then drop 1 line else line) (current l.file)) l.file;
        object = none;
      })
      h

value_text-Reads :
    (s : Bytes) (l : Loading) → Wellformed (value_text s) → Reads (value_text s) l (single_turn s l)
unfolding choose
value_text-Reads [] l h = let start = h.0 in cc
value_text-Reads (x ∷ s) l (start, free, last) =
    let by =
      plain-by x s l false differs (not-true (is_special x) start)
        (sets_parameter-contains (x ∷ s) ∙ contains-Free 61 (x ∷ s) free)
        (opens_object-last x s ∙ ap matches_if last) in
    (
      record l { file = put_section (add_value (x ∷ s) (current l.file)) l.file; object = none },
      by.0 ∙ ap some (value_line-plain (x ∷ s) l by.1),
      refl,
      refl,
    )

object_turn-type :
    (type : Bytes) (l : Loading)
    → Free 58 type
    → is_trimmed type ≡ true
    → object_turn (type ++ 58 ∷ []) l ≡ record l {
      file = put_section (add_object type (current l.file)) l.file;
      object = some type;
    }
unfolding object_turn
object_turn-type type l free trimmed =
    ap
      (λ (t : Bytes). record l {
        file = put_section (add_object t (current l.file)) l.file;
        object = some t;
      })
      (ap (λ (e : Extracted). trim e.token) (extract_token-plain 58 type [] free)
        ∙ trim-trimmed type trimmed)

object_line-Reads :
    (type : Bytes) (l : Loading)
    → Wellformed (object_line type)
    → Reads (object_line type) l (single_turn (type ++ 58 ∷ []) l)
unfolding choose
object_line-Reads [] l h = let start = h.0 in cc
object_line-Reads (x ∷ type) l (start, trimmed, free, no_equals) =
    let s = type ++ 58 ∷ [] in
    let by =
      plain-by x s l false matches (not-true (is_special x) start)
        (sets_parameter-contains (x ∷ s) ∙ contains-Free 61 (x ∷ s) no_equals)
        (opens_object-last x s ∙ ap matches_if (ends_with-append 58 (x ∷ type))) in
    (
      record l {
        file = put_section (add_object (x ∷ type) (current l.file)) l.file;
        object = some (x ∷ type);
      },
      by.0
          ∙ ap (λ (b : Bool). some (if not b then object_turn (x ∷ s) l else value_line (x ∷ s) l))
              by.1
          ∙ ap some (object_turn-type (x ∷ type) l free trimmed),
      refl,
      refl,
    )

and_false : (b : Bool) → (b && false) ≡ false
and_false true = refl
and_false false = refl

quoted_value :
    (s : Bytes) (b : Bool) (l : Loading)
    → object_or_value (39 ∷ s) (matches_if b) l
      ≡ some (record l { file = put_section (add_value s (current l.file)) l.file; object = none })
unfolding value_line
quoted_value s true l = refl
quoted_value s false l = refl

quoted-Reads : (s : Bytes) (l : Loading) → Reads (quoted s) l (single_turn (39 ∷ s) l)
unfolding choose
quoted-Reads s l = (
  record l { file = put_section (add_value s (current l.file)) l.file; object = none },
  single-by (39 ∷ s) l false false false false (matches_if (ends_with 58 (39 ∷ s)))
        (skipped-first 39 s) (ends_object-first 39 s) (declares_section-ends 39 s)
        (and_false (sets_parameter (39 ∷ s))) (opens_object-last 39 s)
      ∙ quoted_value s (ends_with 58 (39 ∷ s)) l,
  refl,
  refl,
)

pub entry-Reads : (e : Entry) (l : Loading) → Wellformed e → Reads e l (single_turn (written e) l)
entry-Reads blank l h = blank-Reads l
entry-Reads (comment mark s) l h = comment-Reads mark s l h
entry-Reads (section_line name) l (free, trimmed) = section_line-Reads name l free trimmed
entry-Reads (parameter_line name v w value) l h = parameter_line-Reads name v w value l h
entry-Reads (value_text s) l h = value_text-Reads s l h
entry-Reads (quoted s) l h = quoted-Reads s l
entry-Reads (object_line type) l h = object_line-Reads type l h
entry-Reads (end_line s) l h = end_line-Reads s l
