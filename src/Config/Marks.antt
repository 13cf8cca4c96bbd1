-- ===== src/Config/Marks.antt =====
-- The lines that a mark at the beginning tells from the others, empty lines and the sections.
use yat.Common.{
  ℕ, ◌≡◌, refl, ap, ◌∙◌, true, false, not, ◌&&◌, ◌||◌, [], ◌∷◌, ◌++◌, Option, none, some, ◌==◌,
}
use yat.Text.{Bytes}
use yat.Text.Find.{Free}
use yat.Text.Trim.{trim, is_trimmed}
use yat.Config.{
  text_of, Loading, no_section, put_section, begins, declares_section, sets_parameter, opens_object,
  is_quoted, section_turn, choose, single_turn,
}
use yat.Config.Lines.{declares_section-ends, ends_with-append, trim-trimmed, extract_enclosed-name}
use yat.Config.Entries.{blank, comment, section_line, end_line, Reads}
use yat.Config.Choice.{single-by, skipped-first, ends_object-first}

pub comment-Reads :
    (mark : ℕ) (s : Bytes) (l : Loading)
    → ((mark == 35) || (mark == 59)) ≡ true
    → Reads (comment mark s) l (single_turn (mark ∷ s) l)
unfolding choose
comment-Reads mark s l h = (
  l,
  single-by (mark ∷ s) l true (begins 45 (mark ∷ s)) (declares_section (mark ∷ s))
      (sets_parameter (mark ∷ s) && not (is_quoted (mark ∷ s))) (opens_object (mark ∷ s))
      (skipped-first mark s ∙ h) refl refl refl refl,
  refl,
  refl,
)

pub end_line-Reads : (s : Bytes) (l : Loading) → Reads (end_line s) l (single_turn (45 ∷ s) l)
unfolding choose
end_line-Reads s l = (
  record l { object = none },
  single-by (45 ∷ s) l false true (declares_section (45 ∷ s))
      (sets_parameter (45 ∷ s) && not (is_quoted (45 ∷ s))) (opens_object (45 ∷ s))
      (skipped-first 45 s) (ends_object-first 45 s) refl refl refl,
  refl,
  refl,
)

pub blank-Reads : (l : Loading) → Reads blank l (single_turn [] l)
unfolding choose
blank-Reads l = (
  l,
  single-by [] l true (begins 45 []) (declares_section []) (sets_parameter [] && not (is_quoted []))
      (opens_object []) refl refl refl refl refl,
  refl,
  refl,
)

section_turn-name :
    (name : Bytes) (l : Loading)
    → Free 93 name
    → is_trimmed name ≡ true
    → section_turn (91 ∷ (name ++ 93 ∷ [])) l ≡ record l {
      file = put_section no_section (record (l.file) { section = name });
      object = none;
    }
unfolding section_turn
section_turn-name name l free trimmed =
    ap
      (λ (n : Bytes). record l {
        file = put_section no_section (record (l.file) { section = n });
        object = none;
      })
      (ap (λ (o : Option Bytes). trim (text_of o)) (extract_enclosed-name name free)
        ∙ trim-trimmed name trimmed)

pub section_line-Reads :
    (name : Bytes) (l : Loading)
    → Free 93 name
    → is_trimmed name ≡ true
    → Reads (section_line name) l (single_turn (91 ∷ (name ++ 93 ∷ [])) l)
unfolding choose
section_line-Reads name l free trimmed =
    let line = 91 ∷ (name ++ 93 ∷ []) in
    (
      record l {
        file = put_section no_section (record (l.file) { section = name });
        object = none;
      },
      single-by line l false false true (sets_parameter line && not (is_quoted line))
            (opens_object line) (skipped-first 91 (name ++ 93 ∷ []))
            (ends_object-first 91 (name ++ 93 ∷ []))
            (declares_section-ends 91 (name ++ 93 ∷ []) ∙ ends_with-append 93 (91 ∷ name)) refl refl
          ∙ ap some (section_turn-name name l free trimmed),
      refl,
      refl,
    )
