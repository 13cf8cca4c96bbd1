-- ===== src/Config/Choice.antt =====
-- Which test of CfgFile::load_from_string takes a line.
use yat.Common.{ℕ, ◌≡◌, refl, ap, ap₂, ◌∙◌, Bool, true, false, not, ◌&&◌, ◌||◌, ◌∷◌, ◌==◌, arith}
use yat.Text.{Bytes}
use yat.Text.Match.{Matched}
use yat.Config.{
  Loading, begins, declares_section, sets_parameter, opens_object, is_quoted, is_skipped, choose,
  single_turn,
}
use yat.Config.Lines.{ends_with, begins_first, declares_section-ends}
use yat.Config.Entries.{is_special}

pub single-by :
    (line : Bytes) (l : Loading) (a b c d : Bool) (m : Matched)
    → is_skipped line ≡ a
    → begins 45 line ≡ b
    → declares_section line ≡ c
    → (sets_parameter line && not (is_quoted line)) ≡ d
    → opens_object line ≡ m
    → single_turn line l ≡ choose a b c d m line l
unfolding single_turn
single-by line l a b c d m ha hb hc hd hm =
    ap
      (λ x.
        choose x (begins 45 line) (declares_section line)
          (sets_parameter line && not (is_quoted line)) (opens_object line) line l)
      ha
    ∙ ap
        (λ x.
          choose a x (declares_section line) (sets_parameter line && not (is_quoted line))
            (opens_object line) line l)
        hb
    ∙ ap
        (λ x. choose a b x (sets_parameter line && not (is_quoted line)) (opens_object line) line l)
        hc
    ∙ ap (λ x. choose a b c x (opens_object line) line l) hd
    ∙ ap (λ x. choose a b c d x line l) hm

pub skipped-first : (x : ℕ) (s : Bytes) → is_skipped (x ∷ s) ≡ ((x == 35) || (x == 59))
skipped-first x s =
    ap₂ ◌||◌
      (begins_first 35 x s
        ((λ h. omega (arith, h)), (λ h. omega (arith, h)), λ h. omega (arith, h)))
      (begins_first 59 x s
        ((λ h. omega (arith, h)), (λ h. omega (arith, h)), λ h. omega (arith, h)))

pub ends_object-first : (x : ℕ) (s : Bytes) → begins 45 (x ∷ s) ≡ (x == 45)
ends_object-first x s =
    begins_first 45 x s ((λ h. omega (arith, h)), (λ h. omega (arith, h)), λ h. omega (arith, h))

and_true : (b : Bool) → (b && true) ≡ b
and_true true = refl
and_true false = refl

neither : (a b : Bool) → (a || b) ≡ false → (a ≡ false) × (b ≡ false)
neither a b h = ground arith

-- A line whose first byte has no meaning gets to the last tests.
pub plain-by :
    (x : ℕ) (s : Bytes) (l : Loading) (d : Bool) (m : Matched)
    → is_special x ≡ false
    → sets_parameter (x ∷ s) ≡ d
    → opens_object (x ∷ s) ≡ m
    → (single_turn (x ∷ s) l ≡ choose false false false d m (x ∷ s) l) × (is_quoted (x ∷ s) ≡ false)
plain-by x s l d m plain sets opens =
    let (skipped, more) =
      neither ((x == 35) || (x == 59)) ((x == 45) || ((x == 91) || (x == 39))) plain in
    let (ended, more) = neither (x == 45) ((x == 91) || (x == 39)) more in
    let (bracket, quote) = neither (x == 91) (x == 39) more in
    (
      single-by (x ∷ s) l false false false d m (skipped-first x s ∙ skipped)
          (ends_object-first x s ∙ ended)
          (declares_section-ends x s ∙ ap (λ b. b && ends_with 93 (x ∷ s)) bracket)
          (ap₂ (λ a b. a && not b) sets quote ∙ and_true d) opens,
      quote,
    )
