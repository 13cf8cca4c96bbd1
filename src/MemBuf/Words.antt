-- ===== src/MemBuf/Words.antt =====
-- The stream operators of MemBuf for the integral types: `operator<<` and `operator>>` over `bool`,
-- `char`, `byte` and the signed and unsigned integers of 16, 32 and 64 bits, and for texts. A signed
-- value stands for itself modulo 2 ^ (8 * size), as its object bytes do.
-- A big-endian host is one that compiles with __MOTOROLA_ENDIAN__.
use mathlib.Core.List.{reverse}
use yat.Common.{
  ℕ, zero, suc, ◌+◌, ◌*◌, ◌/◌, ◌%◌, Bool, true, false, List, [], ◌∷◌, ◌++◌, Option, none, some, map,
  if◌then◌else◌, ◌==◌, drop,
}
use yat.MemBuf.{MemBuf, Cell, put_bloc, get_bloc, Got, returned_0, returned_1, ◌>>=◌}

-- `sizeof` of the type.
pub data Width : Type 0 where
  one two four eight : Width

abbrev pub size : Width → ℕ
size one = 1
size two = 2
size four = 4
size eight = 8

-- The lowest byte first.
unfoldable pub le_bytes : ℕ → ℕ → List ℕ
le_bytes zero v = []
le_bytes (suc n) v = (v % 256) ∷ le_bytes n (v / 256)

-- The bytes of an object in memory.
unfoldable pub object_bytes : Bool → Width → ℕ → List ℕ
unfolding le_bytes
object_bytes big w v = if big then reverse (le_bytes (size w) v) else le_bytes (size w) v

-- invert_short, invert_long, and invert_double, by which invert_int64 is defined: the swaps.
abbrev pub invert_short : List Cell → List Cell
invert_short (a ∷ b ∷ []) = b ∷ a ∷ []
invert_short l = l

abbrev pub invert_long : List Cell → List Cell
invert_long (a ∷ b ∷ c ∷ d ∷ []) = d ∷ c ∷ b ∷ a ∷ []
invert_long l = l

abbrev pub invert_int64 : List Cell → List Cell
invert_int64 (a ∷ b ∷ c ∷ d ∷ e ∷ f ∷ g ∷ h ∷ []) = h ∷ g ∷ f ∷ e ∷ d ∷ c ∷ b ∷ a ∷ []
invert_int64 l = l

abbrev pub invert : Width → List Cell → List Cell
invert one l = l
invert two l = invert_short l
invert four l = invert_long l
invert eight l = invert_int64 l

-- The bytes that `operator<<` puts into the buffer.
unfoldable pub out_bytes : Bool → Width → ℕ → List Cell
unfolding object_bytes
out_bytes big w v =
    if big then invert w (map some (object_bytes big w v)) else map some (object_bytes big w v)

unfoldable pub put_word : Bool → Width → ℕ → MemBuf → Option MemBuf
unfolding out_bytes
put_word big w v b = put_bloc (out_bytes big w v) b

-- A value over its lowest byte.
abbrev pub over_byte : ℕ → Option ℕ → Option ℕ
over_byte c none = none
over_byte c (some v) = some (c + 256 * v)

-- The value of an object of which all bytes are written.
unfoldable pub le_value : List Cell → Option ℕ
le_value [] = some 0
le_value (none ∷ l) = none
le_value (some c ∷ l) = over_byte c (le_value l)

unfoldable pub object_value : Bool → List Cell → Option ℕ
object_value big l = if big then le_value (reverse l) else le_value l

-- `operator>>` ignores the code that `get_bloc` returns: a refused read leaves the variable, here
-- `old`, as it was, but for the inversion on a big-endian host. `none` is a fault or an object with
-- unwritten bytes.
abbrev pub received : Bool → Width → List Cell → MemBuf → Option (ℕ × MemBuf)
received big w bytes r =
    object_value big (if big then invert w bytes else bytes) >>= λ v. some (v, r)

abbrev pub receive : Bool → Width → ℕ → Got → Option (ℕ × MemBuf)
receive big w old (returned_0 bytes r) = received big w bytes r
receive big w old (returned_1 r) = received big w (map some (object_bytes big w old)) r

unfoldable pub get_word : Bool → Width → ℕ → MemBuf → Option (ℕ × MemBuf)
get_word big w old b = get_bloc (size w) b >>= receive big w old

-- `operator<<` over a text puts its bytes and a zero byte.
unfoldable pub put_text : List ℕ → MemBuf → Option MemBuf
put_text t b = put_bloc (map some (t ++ 0 ∷ [])) b

-- `strlen` and the copy of `str.append`: the bytes up to the first zero; `none` where the block ends
-- first or a byte is unwritten.
unfoldable pub c_string : List Cell → Option (List ℕ)
c_string [] = none
c_string (none ∷ l) = none
c_string (some c ∷ l) = elim (c == 0) [ true ↦ some [] | false ↦ c_string l >>= λ t. some (c ∷ t) ]

-- `operator>>` over a text appends to it, and reads from the block at the position.
abbrev pub text_from : MemBuf → Option (List Cell) → List ℕ → Option (List ℕ × MemBuf)
text_from b none str = some (str, b)
text_from b (some cs) str = c_string (drop b.pos cs) >>= λ t. some (str ++ t, b)

unfoldable pub get_text : List ℕ → MemBuf → Option (List ℕ × MemBuf)
get_text str b = text_from b b.block str
