-- ===== src/Text/Match/Laws.antt =====
-- What the masks match: bytes that stand for themselves around one joker `*`.
use yat.Common.{
  ℕ, suc, ◌+◌, ◌-◌, ◌≤◌, ◌<◌, ◌≡◌, ◌≢◌, refl, ap, ◌∙◌, Bool, true, false, ◌&&◌, ◌||◌, [], ◌∷◌, ◌++◌,
  Option, none, some, ltb, ◌==◌, if◌then◌else◌, length, drop, arith, All, Bool-cases, inl, inr,
  length-drop, length-append,
}
use yat.Text.{Bytes, find_char}
use yat.Text.Find.{ne→==}
use yat.Text.Match.{
  star, joker, fits, find_sub_str, Matched, matches, differs, mask_char, literal, skip_jokers,
  matches_if, was_found, match_end, ends, goes_on, compare_char, after_star, behind_block,
  match_many, turn, match_loop, match,
}

-- A mask of bytes that stand for themselves.
abbrev pub Literal : Bytes → Type 0
Literal mask = All (λ c. (c ≢ star) × (c ≢ joker) × (c ≢ 92)) mask

literal_char : (c : ℕ) → (c ≢ star) × (c ≢ joker) × (c ≢ 92) → mask_char c ≡ literal
literal_char c (s, j, e) =
    let a : (c == 92) ≡ false = ground arith in
    let b : (c == joker) ≡ false = ground arith in
    let d : (c == star) ≡ false = ground arith in rw (a, b, d) refl

loop-ends :
    (f c : ℕ) (mask s txt : Bytes) (m : Matched)
    → turn c mask s txt ≡ ends m
    → match_loop (suc f) (c ∷ mask) s txt ≡ m
unfolding match_loop
loop-ends f c mask s txt m h = rw (h, match_loop) refl

loop-goes_on :
    (f c : ℕ) (mask s txt mask' txt' : Bytes)
    → turn c mask s txt ≡ goes_on mask' txt'
    → match_loop (suc f) (c ∷ mask) s txt ≡ match_loop f mask' s txt'
unfolding match_loop
loop-goes_on f c mask s txt mask' txt' h = rw (h, match_loop) refl

turn-literal :
    (c : ℕ) (mask s txt : Bytes)
    → mask_char c ≡ literal
    → turn c mask s txt ≡ compare_char c mask txt
unfolding turn
turn-literal c mask s txt h = rw (h, turn) refl

-- Literal bytes before a mask.
match-prefix :
    (p mask s txt : Bytes) (f : ℕ)
    → Literal p
    → match_loop (length p + f) (p ++ mask) s txt
      ≡ (if fits p txt then match_loop f mask s (drop (length p) txt) else differs)
match-prefix [] mask s txt f h =
    let e : 0 + f ≡ f = omega arith in ap (λ (k : ℕ). match_loop k mask s txt) e
match-prefix (c ∷ p) mask s [] f (lit, h) =
    let e : suc (length p) + f ≡ suc (length p + f) = omega arith in
    ap (λ (k : ℕ). match_loop k (c ∷ (p ++ mask)) s []) e
    ∙ loop-ends (length p + f) c (p ++ mask) s [] differs
        (turn-literal c (p ++ mask) s [] (literal_char c lit))
match-prefix (c ∷ p) mask s (x ∷ txt) f (lit, h) =
    let e : suc (length p) + f ≡ suc (length p + f) = omega arith in
    let starts = turn-literal c (p ++ mask) s (x ∷ txt) (literal_char c lit) in
    let no_joker : (c == joker) ≡ false = ne→== c joker lit.1 in
    ap (λ (k : ℕ). match_loop k (c ∷ (p ++ mask)) s (x ∷ txt)) e ∙ (elim (Bool-cases (x == c)) [
      | inl y ↦
          loop-goes_on (length p + f) c (p ++ mask) s (x ∷ txt) (p ++ mask) txt (starts ∙ rw y refl)
          ∙ match-prefix p mask s txt f h
          ∙ rw (no_joker, y) refl
      | inr n ↦
          loop-ends (length p + f) c (p ++ mask) s (x ∷ txt) differs (starts ∙ rw n refl)
          ∙ rw (no_joker, n) refl
    ])

-- A mask of bytes other than the jokers.
abbrev pub Plain : Bytes → Type 0
Plain mask = All (λ c. (c ≢ star) × (c ≢ joker)) mask

fits-short : (mask t : Bytes) → length t < length mask → fits mask t ≡ false
fits-short [] t h = absurd (omega arith)
fits-short (c ∷ mask) [] h = refl
fits-short (c ∷ mask) (x ∷ t) h =
    let rest = fits-short mask t (omega arith) in
    rw rest (elim (Bool-cases ((c == joker) || (x == c))) [ inl e ↦ rw e refl | inr e ↦ rw e refl ])

find_sub_str-short : (mask t : Bytes) → length t < length mask → find_sub_str mask t ≡ none
unfolding find_sub_str
find_sub_str-short mask [] h = refl
find_sub_str-short mask (x ∷ t) h =
    rw (fits-short mask (x ∷ t) h, find_sub_str-short mask t (omega arith)) refl

find_sub_str-exact :
    (mask t : Bytes)
    → 0 < length mask
    → length t ≡ length mask
    → was_found (find_sub_str mask t) ≡ matches_if (fits mask t)
unfolding find_sub_str
find_sub_str-exact mask [] long h = absurd (omega arith)
find_sub_str-exact mask (x ∷ t) long h = elim (Bool-cases (fits mask (x ∷ t))) [
  | inl e ↦ rw e refl
  | inr e ↦ rw (e, find_sub_str-short mask t (omega arith)) refl
]

match_end-Fits :
    (q s : Bytes)
    → 0 < length q
    → length q ≤ length s
    → match_end q s ≡ matches_if (fits q (drop (length s - length q) s))
unfolding match_end
match_end-Fits q s long room =
    let inside : ltb (length s) (length q) ≡ false = ground arith in
    rw inside (
      find_sub_str-exact q (drop (length s - length q) s) long
        (length-drop (length s - length q) s ∙ omega arith))

skip_jokers-Plain : (q : Bytes) → Plain q → skip_jokers q ≡ q
skip_jokers-Plain [] h = refl
skip_jokers-Plain (c ∷ q) (p, h) = rw (ne→== c star p.0, ne→== c joker p.1) refl

find_star-Plain : (q : Bytes) → Plain q → find_char star q ≡ none
unfolding find_char
find_star-Plain [] h = refl
find_star-Plain (c ∷ q) (p, h) = rw (ne→== c star p.0, find_star-Plain q h) refl

turn-star : (mask s txt : Bytes) → turn star mask s txt ≡ match_many (skip_jokers mask) s txt
unfolding turn
turn-star mask s txt = refl

loop-last_star :
    (f : ℕ) (q s txt : Bytes)
    → Plain q
    → 0 < length q
    → match_loop (suc f) (star ∷ q) s txt ≡ match_end q s
loop-last_star f [] s txt h long = absurd (omega arith)
loop-last_star f (c ∷ q) s txt h long = loop-ends f star (c ∷ q) s txt (match_end (c ∷ q) s) (
    turn-star (c ∷ q) s txt
    ∙ ap (λ (m : Bytes). match_many m s txt) (skip_jokers-Plain (c ∷ q) h)
    ∙ ap (after_star (c ∷ q) s txt) (find_star-Plain (c ∷ q) h))

pick : (b c : Bool) → (if b then matches_if c else differs) ≡ matches_if (b && c)
pick true c = refl
pick false c = refl

-- A mask with one `*` and bytes without other meaning before and behind it matches a text that has
-- room for what is behind it if and only if the text begins and ends as the mask does, where the
-- two ends may overlap.
pub match-around :
    (p q s : Bytes)
    → Literal p
    → Plain q
    → 0 < length q
    → length q ≤ length s
    → match s (p ++ star ∷ q) ≡ matches_if (fits p s && fits q (drop (length s - length q) s))
unfolding match
match-around p q s hp hq long room =
    ap (λ (k : ℕ). match_loop k (p ++ star ∷ q) s s) (length-append p (star ∷ q))
    ∙ match-prefix p (star ∷ q) s s (suc (length q)) hp
    ∙ ap (λ (m : Matched). if fits p s then m else differs)
        (loop-last_star (length q) q s (drop (length p) s) hq long ∙ match_end-Fits q s long room)
    ∙ pick (fits p s) (fits q (drop (length s - length q) s))

-- A `*` at the end matches whatever follows.
pub match-begins : (p s : Bytes) → Literal p → match s (p ++ star ∷ []) ≡ matches_if (fits p s)
unfolding match
match-begins p s hp =
    ap (λ (k : ℕ). match_loop k (p ++ star ∷ []) s s) (length-append p (star ∷ []))
    ∙ match-prefix p (star ∷ []) s s 1 hp
    ∙ ap (λ (m : Matched). if fits p s then m else differs)
        (loop-ends 0 star [] s (drop (length p) s) matches (turn-star [] s (drop (length p) s)))

abbrev pub contains : ℕ → Bytes → Bool
contains c [] = false
contains c (x ∷ s) = let rest = contains c s in (x == c) || rest

find_byte :
    (c : ℕ) (s : Bytes)
    → c ≢ joker
    → was_found (find_sub_str (c ∷ []) s) ≡ matches_if (contains c s)
unfolding find_sub_str
find_byte c [] h = refl
find_byte c (x ∷ s) h =
    let no_joker = ne→== c joker h in
    elim (Bool-cases (x == c)) [
      | inl e ↦ rw (no_joker, e) refl
      | inr e ↦ rw (no_joker, e) (find_byte c s h)
    ]

star-block :
    (c : ℕ) (s txt : Bytes)
    → c ≢ star
    → c ≢ joker
    → turn star (c ∷ star ∷ []) s txt ≡ behind_block (star ∷ []) (find_sub_str (c ∷ []) txt)
unfolding find_char
star-block c s txt hs hj =
    let not_star = ne→== c star hs in
    let skipped : skip_jokers (c ∷ star ∷ []) ≡ c ∷ star ∷ [] =
      rw (not_star, ne→== c joker hj) refl in
    let next : find_char star (c ∷ star ∷ []) ≡ some 1 = rw not_star refl in
    turn-star (c ∷ star ∷ []) s txt
    ∙ ap (λ (m : Bytes). match_many m s txt) skipped
    ∙ ap (after_star (c ∷ star ∷ []) s txt) next

-- Between two stars one byte: the mask matches the texts that hold it.
pub match-contains :
    (c : ℕ) (s : Bytes)
    → c ≢ star
    → c ≢ joker
    → match s (star ∷ c ∷ star ∷ []) ≡ matches_if (contains c s)
unfolding match
match-contains c s hs hj = after_block (find_sub_str (c ∷ []) s) refl ∙ find_byte c s hj
  where
    after_block :
        (o : Option Bytes)
        → find_sub_str (c ∷ []) s ≡ o
        → match_loop 3 (star ∷ c ∷ star ∷ []) s s ≡ was_found (find_sub_str (c ∷ []) s)
    after_block none e =
        loop-ends 2 star (c ∷ star ∷ []) s s differs
          (star-block c s s hs hj ∙ ap (behind_block (star ∷ [])) e)
        ∙ rw e refl
    after_block (some txt) e =
        loop-goes_on 2 star (c ∷ star ∷ []) s s (star ∷ []) txt
          (star-block c s s hs hj ∙ ap (behind_block (star ∷ [])) e)
        ∙ loop-ends 1 star [] s txt matches (turn-star [] s txt)
        ∙ rw e refl
