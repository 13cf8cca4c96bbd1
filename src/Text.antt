-- ===== src/Text.antt =====
-- Texts as sequences of bytes: what the code uses of std::string, and the static functions of
-- StringUtil that take texts apart and put them together (src/utils/String.cpp). A byte 0 as the
-- escape character means that there is none.
use yat.Common.{
  ℕ, zero, suc, ◌+◌, ◌-◌, Bool, true, false, not, ◌&&◌, ◌||◌, List, [], ◌∷◌, ◌++◌, Option, none,
  some, ltb, leb, ◌==◌, if◌then◌else◌, length, get_or, take, drop,
}
pub mod Find
pub mod Scan
pub mod Token
pub mod Split
pub mod Ends
pub mod Trim
pub mod Match
pub mod Maps
pub mod Items
mod Tests

abbrev pub Bytes : Type 0
Bytes = List ℕ

-- `s.empty()`.
abbrev pub is_empty : Bytes → Bool
is_empty [] = true
is_empty (x ∷ s) = false

-- `isspace`.
abbrev pub is_space : ℕ → Bool
is_space c = (leb 9 c && leb c 13) || (c == 32)

-- `s[i]`; the byte behind the end is 0.
abbrev pub at : Bytes → ℕ → ℕ
at s i = get_or s i 0

abbrev pub shift : ℕ → Option ℕ → Option ℕ
shift n none = none
shift n (some i) = some (i + n)

-- The position of the first byte `c`; `none` is npos.
unfoldable pub find_char : ℕ → Bytes → Option ℕ
find_char c [] = none
find_char c (x ∷ s) = if x == c then some 0 else shift 1 (find_char c s)

-- `s.find(c, pos)`.
unfoldable pub find : ℕ → Bytes → ℕ → Option ℕ
unfolding find_char
find c s pos = shift pos (find_char c (drop pos s))

pub data ExtractTokenRes : Type 0 where
  empty_string sep_found sep_not_found : ExtractTokenRes

-- What `extract_token` returns, the token, and what is left in the source.
pub record Extracted : Type 0 where
  pub result : ExtractTokenRes
  pub token : Bytes
  pub rest : Bytes

abbrev pub is_escaped : ℕ → Bytes → ℕ → Bool
is_escaped esc s pos = not (esc == 0) && ltb 0 pos && (at s (pos - 1) == esc)

-- The first loop: from a separator that is escaped on to the next one.
unfoldable pub skip_escaped : ℕ → ℕ → ℕ → Bytes → Option ℕ → Option ℕ
skip_escaped fuel c esc s none = none
skip_escaped zero c esc s (some pos) = some pos
skip_escaped (suc fuel) c esc s (some pos) = elim (is_escaped esc s pos) [
  | true ↦ skip_escaped fuel c esc s (find c s (pos + 1))
  | false ↦ some pos
]

abbrev pub followed_by : ℕ → Bytes → ℕ → Bool
followed_by c t i = ltb i (length t - 1) && (at t (i + 1) == c)

-- The last loop: the first escape character goes if a separator follows it.
unfoldable pub unescape : ℕ → ℕ → ℕ → Bytes → Bytes
unescape zero c esc t = t
unescape (suc fuel) c esc t = elim (find_char esc t) [
  | none ↦ t
  | some i ↦ elim (followed_by c t i) [
    | true ↦ unescape fuel c esc (take i t ++ drop (i + 1) t)
    | false ↦ t
  ]
]

abbrev pub unescape_token : ℕ → ℕ → Bytes → Bytes
unescape_token c esc t = if esc == 0 then t else unescape (length t) c esc t

abbrev pub extracted_at : ℕ → ℕ → Bytes → Option ℕ → Extracted
extracted_at c esc s none = record {
  result = sep_not_found;
  token = unescape_token c esc s;
  rest = [];
}
extracted_at c esc s (some pos) = record {
  result = sep_found;
  token = unescape_token c esc (take pos s);
  rest = drop (pos + 1) s;
}

unfoldable pub extract_token : ℕ → ℕ → Bytes → Extracted
unfolding skip_escaped find unescape
extract_token c esc s =
    if is_empty s
    then record { result = empty_string; token = []; rest = s }
    else extracted_at c esc s (skip_escaped (length s) c esc s (find c s 0))

abbrev pub backslash : ℕ
backslash = 92

abbrev pub sep_was_found : ExtractTokenRes → Bool
sep_was_found sep_found = true
sep_was_found r = false

-- The loop of `split` pushes a token as long as something is left, and an empty one if the source
-- ended with a separator.
unfoldable pub split_loop : ℕ → ℕ → Bool → Bytes → List Bytes
split_loop fuel c found [] = if found then [] ∷ [] else []
split_loop zero c found (x ∷ s) = []
split_loop (suc fuel) c found (x ∷ s) =
    let e = extract_token c backslash (x ∷ s) in
    e.token ∷ split_loop fuel c (sep_was_found e.result) e.rest

unfoldable pub split : ℕ → Bytes → List Bytes
unfolding split_loop extract_token
split c s = split_loop (length s) c false s

unfoldable pub join : ℕ → List Bytes → Bytes
join c [] = []
join c (t ∷ []) = t
join c (t ∷ u ∷ ts) = t ++ c ∷ join c (u ∷ ts)
