-- ===== src/Text/Tests.antt =====
-- Runs of the functions on texts, and the theorems at concrete inputs. `,` is 44, `\` is 92.
use yat.Common.{◌&&◌, ◌++◌, ◌-◌, drop, false, ◌≡◌, ◌≢◌, refl, List, [], ◌∷◌, arith, All}
use yat.Text.{
  Bytes, find_char, find, skip_escaped, unescape, extract_token, split_loop, split, join, backslash,
}
use yat.Text.Find.{Free}
use yat.Text.Split.{joined, split-join, join-split}
use yat.Text.Trim.{trim, trim_right, trim-padded}
use yat.Text.Match.{star, fits, matches, matches_if, reads_outside, find_sub_str, match_loop, match}
use yat.Text.Match.Laws.{match-around}
use yat.Text.Items.{remove_item, erase_item, answer, holds, remove_item-takes}
use yat.Tokenizer.{find_str}
use yat.Text.Ends.{Skips, Unescapes, Splits, loops-End}

methods : Unit {0}
unfolding find_char find skip_escaped unescape extract_token split_loop split join trim_right
    find_sub_str match_loop match find_str erase_item remove_item
methods = tt

-- `a,b\,c,` and `ab,,c`.
abbrev list_text : Bytes
list_text = 97 ∷ 44 ∷ 98 ∷ 92 ∷ 44 ∷ 99 ∷ 44 ∷ []

abbrev plain_text : Bytes
plain_text = 97 ∷ 98 ∷ 44 ∷ 44 ∷ 99 ∷ []

splits : split 44 list_text ≡ (97 ∷ []) ∷ (98 ∷ 44 ∷ 99 ∷ []) ∷ [] ∷ []
unfolding methods
splits = refl

-- `\x\,`: the second escape character stays.
stays_escaped : unescape 4 44 92 (92 ∷ 120 ∷ 92 ∷ 44 ∷ []) ≡ 92 ∷ 120 ∷ 92 ∷ 44 ∷ []
unfolding methods
stays_escaped = refl

no_comma : 44 ≢ backslash
no_comma = λ h. omega (arith, h)

abbrev fields : List Bytes
fields = (97 ∷ []) ∷ (98 ∷ 44 ∷ 99 ∷ []) ∷ []

abbrev no_field : List Bytes
no_field = [] ∷ []

fields-Free : All (Free backslash) fields
fields-Free = (
  ((λ h. omega (arith, h)), tt),
  (((λ h. omega (arith, h)), ((λ h. omega (arith, h)), ((λ h. omega (arith, h)), tt))), tt),
)

two_fields : fields ≢ no_field
two_fields = λ h. cc

split-join_example : split 44 (joined 44 fields) ≡ fields
split-join_example =
    split-join 44 (97 ∷ []) ((98 ∷ 44 ∷ 99 ∷ []) ∷ []) no_comma fields-Free two_fields

plain-Free : Free backslash plain_text
plain-Free = (
  (λ h. omega (arith, h)),
  (
    (λ h. omega (arith, h)),
    ((λ h. omega (arith, h)), ((λ h. omega (arith, h)), ((λ h. omega (arith, h)), tt))),
  ),
)

join-split_example : join 44 (split 44 plain_text) ≡ plain_text
join-split_example = join-split 44 plain_text no_comma plain-Free

loops-End_example :
    Skips 44 92 list_text
      (find 44 list_text 0)
      (skip_escaped 7 44 92 list_text (find 44 list_text 0))
    × Unescapes 44 92 list_text (unescape 7 44 92 list_text)
    × Splits 44 false list_text (split 44 list_text)
loops-End_example = loops-End 44 92 list_text

-- White space around `a b`.
trim-padded_example : trim ((32 ∷ 9 ∷ []) ++ ((97 ∷ 32 ∷ 98 ∷ []) ++ (13 ∷ []))) ≡ 97 ∷ 32 ∷ 98 ∷ []
trim-padded_example =
    trim-padded (32 ∷ 9 ∷ []) (97 ∷ 32 ∷ 98 ∷ []) (13 ∷ []) (refl, (refl, tt)) (refl, tt) refl

-- One blank stays before a text that only trim_right takes off.
blank_stays : trim_right (32 ∷ []) ≡ 32 ∷ []
unfolding methods
blank_stays = refl

-- `ab` and the mask `ab*b`, whose ends overlap in it.
match-around_example :
    match (97 ∷ 98 ∷ []) ((97 ∷ 98 ∷ []) ++ star ∷ 98 ∷ [])
    ≡ matches_if
        (fits (97 ∷ 98 ∷ []) (97 ∷ 98 ∷ []) && fits (98 ∷ []) (drop (2 - 1) (97 ∷ 98 ∷ [])))
match-around_example =
    match-around (97 ∷ 98 ∷ []) (98 ∷ []) (97 ∷ 98 ∷ [])
      (
        ((λ h. omega (arith, h)), (λ h. omega (arith, h)), (λ h. omega (arith, h))),
        (((λ h. omega (arith, h)), (λ h. omega (arith, h)), (λ h. omega (arith, h))), tt),
      )
      (((λ h. omega (arith, h)), (λ h. omega (arith, h))), tt) (omega arith) (omega arith)

overlaps : match (97 ∷ 98 ∷ []) (97 ∷ 98 ∷ star ∷ 98 ∷ []) ≡ matches
unfolding methods
overlaps = refl

-- The mask `*ab` on `b`, and on nothing.
reads_before : match (98 ∷ []) (star ∷ 97 ∷ 98 ∷ []) ≡ reads_outside
unfolding methods
reads_before = refl

-- `a,bc,a` without `bc`, and `x\,yy` without `y`, which is no field.
three_fields : ((97 ∷ []) ∷ (98 ∷ 99 ∷ []) ∷ (97 ∷ []) ∷ []) ≢ no_field
three_fields = λ h. cc

remove_item-takes_example :
    remove_item (98 ∷ 99 ∷ []) 44 (join 44 ((97 ∷ []) ∷ (98 ∷ 99 ∷ []) ∷ (97 ∷ []) ∷ []))
    ≡ answer
        (holds (98 ∷ 99 ∷ []) ((97 ∷ []) ∷ (98 ∷ 99 ∷ []) ∷ (97 ∷ []) ∷ []))
        44
        (98 ∷ 99 ∷ [])
        ((97 ∷ []) ∷ (98 ∷ 99 ∷ []) ∷ (97 ∷ []) ∷ [])
remove_item-takes_example =
    remove_item-takes 44 (98 ∷ 99 ∷ []) (97 ∷ []) ((98 ∷ 99 ∷ []) ∷ (97 ∷ []) ∷ []) no_comma
      (
        ((λ h. omega (arith, h)), tt),
        (
          ((λ h. omega (arith, h)), ((λ h. omega (arith, h)), tt)),
          (((λ h. omega (arith, h)), tt), tt),
        ),
      )
      (
        ((λ h. omega (arith, h)), tt),
        (
          ((λ h. omega (arith, h)), ((λ h. omega (arith, h)), tt)),
          (((λ h. omega (arith, h)), tt), tt),
        ),
      )
      three_fields ((λ h. omega (arith, h)), ((λ h. omega (arith, h)), tt))

loses_escape :
    remove_item (121 ∷ []) 44 (120 ∷ 92 ∷ 44 ∷ 121 ∷ 121 ∷ [])
    ≡ record { text = 120 ∷ 44 ∷ 121 ∷ 121 ∷ []; was_there = false }
unfolding methods
loses_escape = refl
