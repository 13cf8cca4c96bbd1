-- ===== src/Tokenizer.antt =====
-- The string tokenizer: yat::StringTokenizer (src/utils/StringTokenizer.cpp). Its state is the text
-- that is left; the delimiter does not change.
use yat.Common.{
  ℕ, zero, suc, ◌+◌, ◌-◌, Bool, true, false, ◌&&◌, List, [], ◌∷◌, ◌++◌, Option, none, some, ltb,
  ◌==◌, if◌then◌else◌, length, take, drop,
}
use yat.Text.{Bytes, is_empty, shift}
pub mod Find
pub mod Ends
pub mod Tokens
mod Tests

abbrev pub is_prefix : Bytes → Bytes → Bool
is_prefix [] s = true
is_prefix (c ∷ d) [] = false
is_prefix (c ∷ d) (x ∷ s) = (c == x) && is_prefix d s

-- `s.find(d)`: the first position; `none` is npos.
unfoldable pub find_str : Bytes → Bytes → Option ℕ
find_str d [] = if is_prefix d [] then some 0 else none
find_str d (x ∷ s) =
    let later = find_str d s in if is_prefix d (x ∷ s) then some 0 else shift 1 later

-- `s.find(d, pos)`.
unfoldable pub find_from : Bytes → Bytes → ℕ → Option ℕ
unfolding find_str
find_from d s pos = if ltb (length s) pos then none else shift pos (find_str d (drop pos s))

-- `s.rfind(d)`: the last position.
unfoldable pub rfind_str : Bytes → Bytes → Option ℕ
rfind_str d [] = if is_prefix d [] then some 0 else none
rfind_str d (x ∷ s) = elim (rfind_str d s) [
  | none ↦ if is_prefix d (x ∷ s) then some 0 else none
  | some i ↦ some (i + 1)
]

-- `s.erase(pos, n)`.
abbrev pub erase : Bytes → ℕ → ℕ → Bytes
erase s pos n = take pos s ++ drop (pos + n) s

abbrev pub is_at : Option ℕ → ℕ → Bool
is_at none pos = false
is_at (some i) pos = i == pos

-- The inner loop of the constructor: the delimiters that follow at once go.
unfoldable pub erase_repeated : ℕ → Bytes → Bytes → ℕ → Bytes
unfolding find_from
erase_repeated zero d s pos = s
erase_repeated (suc fuel) d s pos =
    let rest = erase_repeated fuel d (erase s pos (length d)) pos in
    if is_at (find_from d s pos) pos then rest else s

-- The outer loop, from `current_pos` on.
unfoldable pub merge_loop : ℕ → Bytes → Bytes → ℕ → Bytes
unfolding find_from erase_repeated
merge_loop zero d s pos = s
merge_loop (suc fuel) d s pos = elim (find_from d s pos) [
  | none ↦ s
  | some p ↦ merge_loop fuel d (erase_repeated (length s) d s (p + length d)) (p + length d)
]

abbrev pub erase_first : Bytes → Bytes → Bytes
erase_first d s = if is_at (find_str d s) 0 then drop (length d) s else s

abbrev pub erase_last : Bytes → Bytes → Bytes
erase_last d s =
    if is_at (rfind_str d s) (length s - length d) then take (length s - length d) s else s

-- The constructor, with the length of the text as fuel.
unfoldable pub tokenizer : Bytes → Bytes → Bytes
unfolding merge_loop find_str rfind_str
tokenizer s d =
    if is_empty s
    then s
    else if is_empty d
    then s
    else erase_last d (erase_first d (merge_loop (length s) d s 0))

-- `count_tokens` from `current_pos` on; `none` when the fuel is used up.
unfoldable pub count_loop : ℕ → Bytes → Bytes → ℕ → ℕ → Option ℕ
count_loop zero d s pos num_tokens = none
count_loop (suc fuel) d s pos num_tokens = elim (find_from d s pos) [
  | none ↦ some (num_tokens + 1)
  | some p ↦ count_loop fuel d s (p + length d) (num_tokens + 1)
]

unfoldable pub count_tokens : ℕ → Bytes → Bytes → Option ℕ
unfolding count_loop
count_tokens fuel d s = if is_empty s then some 0 else count_loop fuel d s 0 0

abbrev pub has_more_tokens : Bytes → Bool
has_more_tokens s = ltb 0 (length s)

-- A token, and the text that is left.
pub record Next : Type 0 where
  pub token : Bytes
  pub left : Bytes

abbrev pub cut_at : Bytes → Bytes → Option ℕ → Next
cut_at d s none = record { token = s; left = [] }
cut_at d s (some pos) = record { token = take pos s; left = drop (pos + length d) s }

unfoldable pub next_token : Bytes → Bytes → Next
unfolding find_str
next_token d s = if is_empty s then record { token = []; left = s } else cut_at d s (find_str d s)

-- `filter_next_token`: every occurrence of a text is erased from the token.
unfoldable pub filter_loop : ℕ → Bytes → Bytes → ℕ → Bytes
filter_loop zero d s pos = s
filter_loop (suc fuel) d s pos = elim (find_from d s pos) [
  | none ↦ s
  | some p ↦ filter_loop fuel d (erase s p (length d)) p
]

unfoldable pub filter_next_token : Bytes → Bytes → Bytes → Next
unfolding next_token filter_loop
filter_next_token filter d s =
    let n = next_token d s in
    record { token = filter_loop (length n.token + 1) filter n.token 0; left = n.left }
