-- ===== src/Text/Match.antt =====
-- Masks with jokers: StringUtil::match and find_sub_str_with_joker (src/utils/String.cpp), without
-- the tokens that they may collect. `*` is 42, `?` is 63 and `\` is 92.
use yat.Common.{
  ℕ, zero, suc, ◌+◌, ◌-◌, ◌≤◌, ◌<◌, ◌≡◌, ◌≢◌, refl, sym, ap, ◌∙◌, Bool, true, false, not, ◌&&◌,
  ◌||◌, List, [], ◌∷◌, ◌++◌, Option, none, some, ltb, ◌==◌, if◌then◌else◌, length, take, drop,
  arith, All, Bool-cases, inl, inr, length-drop, length-append,
}
use yat.Text.{Bytes, is_empty, find_char}
pub mod Laws

abbrev pub star : ℕ
star = 42

abbrev pub joker : ℕ
joker = 63

-- What the loop in `find_sub_str_with_joker` compares: a mask at one position.
abbrev pub fits : Bytes → Bytes → Bool
fits [] s = true
fits (c ∷ mask) [] = false
fits (c ∷ mask) (x ∷ s) = let rest = fits mask s in ((c == joker) || (x == c)) && rest

-- The text behind the first place where a mask that is not empty fits.
unfoldable pub find_sub_str : Bytes → Bytes → Option Bytes
find_sub_str mask [] = none
find_sub_str mask (x ∷ s) =
    let later = find_sub_str mask s in
    if fits mask (x ∷ s) then some (drop (length mask) (x ∷ s)) else later

-- The answer of `match`, or a read before the beginning of the text.
pub data Matched : Type 0 where
  matches differs reads_outside : Matched

pub data MaskChar : Type 0 where
  escape any_one any_many literal : MaskChar

abbrev pub mask_char : ℕ → MaskChar
mask_char c =
    if c == 92
    then escape
    else if c == joker
    then any_one
    else if c == star
    then any_many
    else literal

abbrev pub skip_jokers : Bytes → Bytes
skip_jokers [] = []
skip_jokers (c ∷ mask) =
    let rest = skip_jokers mask in if (c == star) || (c == joker) then rest else c ∷ mask

abbrev pub matches_if : Bool → Matched
matches_if b = if b then matches else differs

abbrev pub was_found : Option Bytes → Matched
was_found none = differs
was_found (some rest) = matches

-- Behind the last `*`: the mask is compared with the end of the whole text `s`.
unfoldable pub match_end : Bytes → Bytes → Matched
unfolding find_sub_str
match_end mask s =
    if ltb (length s) (length mask)
    then reads_outside
    else was_found (find_sub_str mask (drop (length s - length mask) s))

-- One turn of the loop ends the call, or leaves a shorter mask and a text.
pub data Turn : Type 0 where
  ends : Matched → Turn
  goes_on : (mask txt : Bytes) → Turn

abbrev pub compare_char : ℕ → Bytes → Bytes → Turn
compare_char c mask [] = ends differs
compare_char c mask (x ∷ txt) = if x == c then goes_on mask txt else ends differs

abbrev pub after_escape : Bytes → Bytes → Turn
after_escape [] txt = goes_on [] txt
after_escape (c ∷ mask) txt = compare_char c mask txt

-- `?` takes any byte; at the end of the text the answer is true.
abbrev pub after_joker : Bytes → Bytes → Turn
after_joker mask [] = ends matches
after_joker mask (x ∷ txt) = goes_on mask txt

abbrev pub behind_block : Bytes → Option Bytes → Turn
behind_block mask none = ends differs
behind_block mask (some txt) = goes_on mask txt

-- Behind `*`, with the position of the next one.
abbrev pub after_star : Bytes → Bytes → Bytes → Option ℕ → Turn
after_star mask s txt none = ends (match_end mask s)
after_star mask s txt (some n) = behind_block (drop n mask) (find_sub_str (take n mask) txt)

abbrev pub match_many : Bytes → Bytes → Bytes → Turn
match_many mask s txt =
    if is_empty mask then ends matches else after_star mask s txt (find_char star mask)

unfoldable pub turn : ℕ → Bytes → Bytes → Bytes → Turn
unfolding find_sub_str match_end find_char
turn c mask s txt = elim (mask_char c) [
  | escape ↦ after_escape mask txt
  | any_one ↦ after_joker mask txt
  | any_many ↦ match_many (skip_jokers mask) s txt
  | literal ↦ compare_char c mask txt
]

-- The loop, with what is left of the mask and of the text `s`. A turn takes a byte of the mask.
unfoldable pub match_loop : ℕ → Bytes → Bytes → Bytes → Matched
unfolding turn
match_loop fuel [] s txt = matches_if (is_empty txt)
match_loop zero (c ∷ mask) s txt = differs
match_loop (suc fuel) (c ∷ mask) s txt = elim (turn c mask s txt) [
  | ends m ↦ m
  | goes_on mask txt ↦ match_loop fuel mask s txt
]

unfoldable pub match : Bytes → Bytes → Matched
unfolding match_loop
match s mask = match_loop (length mask) mask s s
