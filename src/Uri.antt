-- ===== src/Uri.antt =====
-- Percent encoding and the parts of a URI: yat::URI (src/utils/URI.cpp). The patterns of the parts
-- are matched by Regex, which is a parameter here.
use yat.Common.{
  ℕ, zero, suc, ◌+◌, ◌-◌, ◌*◌, ◌/◌, ◌%◌, ◌^◌, Bool, true, false, not, ◌&&◌, ◌||◌, List, [], ◌∷◌,
  ◌++◌, Option, none, some, ltb, leb, ◌==◌, if◌then◌else◌, length, get_or, sub64,
}
use yat.Text.{Bytes, is_space, is_empty, find_char}
pub mod Percent
pub mod Parts
pub mod Checks
mod Tests

abbrev pub percent : ℕ
percent = 37

abbrev pub is_some : Option ℕ → Bool
is_some none = false
is_some (some i) = true

-- `reserved.find(c) != npos`.
unfoldable pub is_reserved : Bytes → ℕ → Bool
unfolding find_char
is_reserved reserved c = is_some (find_char c reserved)

-- A digit as `std::hex << std::uppercase` writes it, and a number below 2 ^ 32.
abbrev pub hex_digit : ℕ → ℕ
hex_digit n = if ltb n 10 then 48 + n else 55 + n

unfoldable pub hex_digits : ℕ → ℕ → Bytes
hex_digits zero n = []
hex_digits (suc k) n =
    if ltb n 16 then hex_digit n ∷ [] else hex_digits k (n / 16) ++ hex_digit (n % 16) ∷ []

-- `static_cast<int>` of a `char`, which is signed, as 32 bits.
abbrev pub char_to_int : ℕ → ℕ
char_to_int c = if ltb c 128 then c else c + 2 ^ 32 - 256

unfoldable pub encode_byte : Bytes → ℕ → Bytes
unfolding is_reserved hex_digits
encode_byte reserved c =
    if is_reserved reserved c then percent ∷ hex_digits 8 (char_to_int c) else c ∷ []

unfoldable pub pct_encode : Bytes → Bytes → Bytes
unfolding encode_byte
pct_encode reserved [] = []
pct_encode reserved (c ∷ s) = encode_byte reserved c ++ pct_encode reserved s

abbrev pub is_hex : ℕ → Bool
is_hex c = (leb 48 c && leb c 57) || (leb 65 c && leb c 70) || (leb 97 c && leb c 102)

abbrev pub hex_value : ℕ → ℕ
hex_value c = if leb c 57 then c - 48 else if leb c 70 then c - 55 else c - 87

-- `std::istringstream(s) >> std::hex >> n` on a text of one and of two bytes, and `char(n)`: white
-- space is skipped, a sign is read, and `n` is 0 if there is no digit.
abbrev pub scan_one : ℕ → ℕ
scan_one a = if is_hex a then hex_value a else 0

unfoldable pub scan_two : ℕ → ℕ → ℕ
scan_two a b =
    if is_hex a
    then (if is_hex b then 16 * hex_value a + hex_value b else hex_value a)
    else if is_space a || (a == 43)
    then scan_one b
    else if a == 45
    then (256 - scan_one b) % 256
    else 0

-- `i > size - 3`, where `left` bytes are left from position `i` on.
abbrev pub too_near_end : ℕ → ℕ → Bool
too_near_end size left = ltb (sub64 size 3) (size - left)

abbrev pub cons : ℕ → Option Bytes → Option Bytes
cons c none = none
cons c (some s) = some (c ∷ s)

-- The loop of `pct_decode` on what is left of a text of `size` bytes; `none` is the exception.
unfoldable pub decode_loop : ℕ → Bytes → Option Bytes
unfolding scan_two
decode_loop size [] = some []
decode_loop size (x ∷ []) =
    if x == percent then (if too_near_end size 1 then none else some (0 ∷ [])) else some (x ∷ [])
decode_loop size (x ∷ a ∷ []) = elim (x == percent) [
  | true ↦ if too_near_end size 2 then none else some (scan_one a ∷ [])
  | false ↦ cons x (decode_loop size (a ∷ []))
]
decode_loop size (x ∷ a ∷ b ∷ s) = elim (x == percent) [
  | true ↦
      if too_near_end size (3 + length s) then none else cons (scan_two a b) (decode_loop size s)
  | false ↦ cons x (decode_loop size (a ∷ b ∷ s))
]

unfoldable pub pct_decode : Bytes → Option Bytes
unfolding decode_loop
pct_decode s = decode_loop (length s) s
