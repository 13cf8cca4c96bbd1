-- ===== src/Crc/Tests.antt =====
-- Checksums of known texts, and the theorems at concrete inputs.
use Prim.Native.Nat.{bit_xor}
use yat.Common.{ℕ, ◌<◌, ◌≡◌, refl, true, List, [], ◌∷◌, none, some, arith, All, replicate}
use yat.Crc.{crc, crc_loop, crc_round, crc_32_tab, get_crc, written_bytes}
use yat.Crc.Bits.{remainder, divide_bits, divide_bit, crc-eq-remainder, crc_chain}
use yat.MemBuf.{MemBuf, make, put_bloc, make_room}
use yat.MemBuf.Room.{IsValid}

methods : Unit {0}
unfolding crc crc_loop crc_round crc_32_tab get_crc written_bytes put_bloc remainder divide_bits
    divide_bit make make_room crc_chain
methods = tt

-- The check value of CRC-32: the text "123456789".
abbrev digits : List ℕ
digits = 49 ∷ 50 ∷ 51 ∷ 52 ∷ 53 ∷ 54 ∷ 55 ∷ 56 ∷ 57 ∷ []

crc_of_digits : crc digits none ≡ 0xcbf43926
unfolding methods
crc_of_digits = refl

crc_in_pieces :
    bit_xor (crc_chain 0xffffffff ((49 ∷ 50 ∷ []) ∷ [] ∷ (51 ∷ []) ∷ [])) 0xffffffff ≡ 0x884863d2
unfolding methods
crc_in_pieces = refl

digits_small : All (λ c. c < 256) digits
digits_small = ground arith

crc-eq-remainder_example : crc digits none ≡ bit_xor (remainder 0xffffffff digits) 0xffffffff
crc-eq-remainder_example = crc-eq-remainder digits digits_small

-- A buffer of 16 bytes that holds the first two digits.
abbrev two_digits : MemBuf
two_digits = record {
  pos = 0;
  len = 2;
  len_buf = 16;
  block = some (some 49 ∷ some 50 ∷ replicate 14 none);
  owner = true;
}

two_digits-IsValid : IsValid two_digits
two_digits-IsValid = record {
  sized = refl;
  within = omega arith;
  small = omega arith;
  placed = omega arith;
}

abbrev three_digits : MemBuf
three_digits = record {
  pos = 0;
  len = 3;
  len_buf = 16;
  block = some (some 49 ∷ some 50 ∷ some 51 ∷ replicate 13 none);
  owner = true;
}
