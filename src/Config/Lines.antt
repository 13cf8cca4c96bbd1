-- ===== src/Config/Lines.antt =====
-- What the masks of CfgFile::load_from_string say of a line.
use mathlib.Core.List.{append-nil}
use yat.Common.{
  ℕ, zero, suc, ◌+◌, ◌-◌, ◌≡◌, ◌≢◌, refl, sym, ap, ap₂, ◌∙◌, Bool, true, false, ◌&&◌, [], ◌∷◌, ◌++◌,
  some, ◌==◌, length, take, drop, arith, Bool-cases, inl, inr, take-append,
}
use yat.Text.{Bytes, find, shift, extract_token, extracted_at, sep_found, skip_escaped}
use yat.Text.Find.{Free, ne→==, find_char-append}
use yat.Text.Token.{drop-append_suc, is_empty-append}
use yat.Text.Trim.{trim, is_trimmed, trim-padded}
use yat.Text.Match.{fits, match, matches_if}
use yat.Text.Match.Laws.{match-around, match-begins, match-contains, contains}
use yat.Config.{
  is_match, begins, continues, declares_section, sets_parameter, opens_object, extract_enclosed,
  between,
}

is_match-if : (b : Bool) → is_match (matches_if b) ≡ b
is_match-if true = refl
is_match-if false = refl

-- The last byte of a text.
abbrev pub ends_with : ℕ → Bytes → Bool
ends_with c [] = false
ends_with c (x ∷ []) = x == c
ends_with c (x ∷ y ∷ s) = ends_with c (y ∷ s)

one : (c x : ℕ) → c ≢ 63 → fits (c ∷ []) (x ∷ []) ≡ (x == c)
one c x h = rw (ne→== c 63 h) (elim (Bool-cases (x == c)) [ inl e ↦ rw e refl | inr e ↦ rw e refl ])

last-fits :
    (c x : ℕ) (s : Bytes)
    → c ≢ 63
    → fits (c ∷ []) (drop (length (x ∷ s) - 1) (x ∷ s)) ≡ ends_with c (x ∷ s)
last-fits c x [] h = one c x h
last-fits c x (y ∷ s) h =
    let e : length (x ∷ y ∷ s) - 1 ≡ suc (length (y ∷ s) - 1) = omega arith in
    ap (λ (n : ℕ). fits (c ∷ []) (drop n (x ∷ y ∷ s))) e ∙ last-fits c y s h

first-fits : (c x : ℕ) (s : Bytes) → c ≢ 63 → fits (c ∷ []) (x ∷ s) ≡ (x == c)
first-fits c x s h =
    rw (ne→== c 63 h) (elim (Bool-cases (x == c)) [ inl e ↦ rw e refl | inr e ↦ rw e refl ])

pub begins_first :
    (c x : ℕ) (s : Bytes) → (c ≢ 42) × (c ≢ 63) × (c ≢ 92) → begins c (x ∷ s) ≡ (x == c)
begins_first c x s h =
    ap is_match (match-begins (c ∷ []) (x ∷ s) (h, tt))
    ∙ is_match-if (fits (c ∷ []) (x ∷ s))
    ∙ first-fits c x s h.1

match_last :
    (c x : ℕ) (s : Bytes)
    → (c ≢ 42) × (c ≢ 63)
    → match (x ∷ s) (42 ∷ c ∷ []) ≡ matches_if (ends_with c (x ∷ s))
match_last c x s h =
    match-around [] (c ∷ []) (x ∷ s) tt (h, tt) (omega arith) (omega arith)
    ∙ ap matches_if (last-fits c x s h.1)

pub continues-last : (x : ℕ) (s : Bytes) → continues (x ∷ s) ≡ matches_if (ends_with 92 (x ∷ s))
continues-last x s = match_last 92 x s ((λ h. omega (arith, h)), λ h. omega (arith, h))

pub opens_object-last :
    (x : ℕ) (s : Bytes) → opens_object (x ∷ s) ≡ matches_if (ends_with 58 (x ∷ s))
opens_object-last x s = match_last 58 x s ((λ h. omega (arith, h)), λ h. omega (arith, h))

pub declares_section-ends :
    (x : ℕ) (s : Bytes) → declares_section (x ∷ s) ≡ ((x == 91) && ends_with 93 (x ∷ s))
declares_section-ends x s =
    ap is_match (
      match-around (91 ∷ []) (93 ∷ []) (x ∷ s)
        (((λ h. omega (arith, h)), (λ h. omega (arith, h)), λ h. omega (arith, h)), tt)
        (((λ h. omega (arith, h)), λ h. omega (arith, h)), tt) (omega arith) (omega arith))
    ∙ is_match-if (fits (91 ∷ []) (x ∷ s) && fits (93 ∷ []) (drop (length (x ∷ s) - 1) (x ∷ s)))
    ∙ ap₂ ◌&&◌ (first-fits 91 x s (λ h. omega (arith, h)))
        (last-fits 93 x s (λ h. omega (arith, h)))

pub sets_parameter-contains : (s : Bytes) → sets_parameter s ≡ contains 61 s
sets_parameter-contains s =
    ap is_match (match-contains 61 s (λ h. omega (arith, h)) (λ h. omega (arith, h)))
    ∙ is_match-if (contains 61 s)

pub contains-Free : (c : ℕ) (s : Bytes) → Free c s → contains c s ≡ false
contains-Free c [] h = refl
contains-Free c (x ∷ s) (d, h) = rw (ne→== x c d, contains-Free c s h) refl

pub contains-append : (c : ℕ) (s t : Bytes) → contains c (s ++ c ∷ t) ≡ true
contains-append c [] t = let e : (c == c) ≡ true = ground arith in rw e refl
contains-append c (x ∷ s) t =
    rw (contains-append c s t)
      (elim (Bool-cases (x == c)) [ inl e ↦ rw e refl | inr e ↦ rw e refl ])

pub ends_with-append : (c : ℕ) (s : Bytes) → ends_with c (s ++ c ∷ []) ≡ true
ends_with-append c [] = ground arith
ends_with-append c (x ∷ []) = ground arith
ends_with-append c (x ∷ y ∷ s) = ends_with-append c (y ∷ s)

-- A line is its own trimmed text.
pub trim-trimmed : (s : Bytes) → is_trimmed s ≡ true → trim s ≡ s
trim-trimmed s h = ap trim (sym (append-nil s)) ∙ trim-padded [] s [] tt tt h

find-first : (c : ℕ) (t r : Bytes) → Free c t → find c (t ++ c ∷ r) 0 ≡ some (length t)
unfolding find
find-first c t r h = ap (shift 0) (find_char-append c t r h) ∙ ap some (omega arith)

never_escaped : (f c pos : ℕ) (s : Bytes) → skip_escaped f c 0 s (some pos) ≡ some pos
unfolding skip_escaped
never_escaped zero c pos s = refl
never_escaped (suc f) c pos s = refl

-- `extract_token` without an escape character, before a separator.
pub extract_token-plain :
    (c : ℕ) (t r : Bytes)
    → Free c t
    → extract_token c 0 (t ++ c ∷ r) ≡ record { result = sep_found; token = t; rest = r }
unfolding extract_token
extract_token-plain c t r h =
    let s = t ++ c ∷ r in
    let token : take (length t) s ≡ t = take-append t (c ∷ r) in
    let rest : drop (length t + 1) s ≡ r = drop-append_suc t c r in
    rw (is_empty-append t c r, find-first c t r h)
      (ap (extracted_at c 0 s) (never_escaped (length s) c (length t) s)
        ∙ ap₂ (λ (u v : Bytes). record { result = sep_found; token = u; rest = v }) token rest)

find-behind : (t : Bytes) → Free 93 t → find 93 (91 ∷ (t ++ 93 ∷ [])) 1 ≡ some (length t + 1)
unfolding find
find-behind t h = ap (shift 1) (find_char-append 93 t [] h)

pub extract_enclosed-name :
    (t : Bytes) → Free 93 t → extract_enclosed 91 93 (91 ∷ (t ++ 93 ∷ [])) ≡ some t
unfolding extract_enclosed
extract_enclosed-name t h =
    let size : length t + 1 - 0 - 1 ≡ length t = omega arith in
    ap (between 0 (91 ∷ (t ++ 93 ∷ []))) (find-behind t h)
    ∙ ap some (ap (λ (n : ℕ). take n (t ++ 93 ∷ [])) size ∙ take-append t (93 ∷ []))
