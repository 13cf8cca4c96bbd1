-- ===== src/Tokenizer/Tests.antt =====
-- Runs of the tokenizer, and the theorems at concrete inputs. `,` is 44.
use yat.Common.{◌+◌, ◌≡◌, ◌≢◌, refl, false, [], ◌∷◌, none, some, arith, length, if◌then◌else◌}
use yat.Text.{Bytes}
use yat.Tokenizer.{
  find_str, find_from, rfind_str, erase_repeated, merge_loop, tokenizer, count_loop, count_tokens,
  next_token, filter_loop, filter_next_token,
}
use yat.Tokenizer.Tokens.{tokens, ends_delimited, joined, tokens-Counts, count_tokens-never_ends}

methods : Unit {0}
unfolding find_str find_from rfind_str erase_repeated merge_loop tokenizer count_loop count_tokens
    next_token filter_loop filter_next_token
methods = tt

abbrev comma : Bytes
comma = 44 ∷ []

-- `,a,,b,`, `a,b` and `a,b,`.
abbrev untidy : Bytes
untidy = 44 ∷ 97 ∷ 44 ∷ 44 ∷ 98 ∷ 44 ∷ []

abbrev tidy : Bytes
tidy = 97 ∷ 44 ∷ 98 ∷ []

abbrev open_ended : Bytes
open_ended = 97 ∷ 44 ∷ 98 ∷ 44 ∷ []

tidies : tokenizer untidy comma ≡ tidy
unfolding methods
tidies = refl

yields : tokens 4 comma open_ended ≡ (97 ∷ []) ∷ (98 ∷ []) ∷ []
unfolding methods
yields = refl

counts_open : count_tokens 5 comma open_ended ≡ some 3
unfolding methods
counts_open = refl

some_text : open_ended ≢ []
some_text = λ h. cc

tokens-Counts_example :
    (joined comma (ends_delimited 4 comma false open_ended) (tokens 4 comma open_ended)
      ≡ open_ended)
    × (count_tokens 5 comma open_ended
        ≡ some (
            length (tokens 4 comma open_ended)
            + (if ends_delimited 4 comma false open_ended then 1 else 0)))
tokens-Counts_example = tokens-Counts comma open_ended (omega arith) some_text

count_tokens-never_ends_example : count_tokens 100 [] open_ended ≡ none
count_tokens-never_ends_example = count_tokens-never_ends 100 open_ended some_text
