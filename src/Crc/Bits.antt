-- ===== src/Crc/Bits.antt =====
-- The checksum against its definition, the division of the message by a polynomial over two
-- elements, bit by bit; and the checksum of a message in pieces.
use Prim.Native.Nat.{bit_and, bit_xor}
use yat.Common.{
  ℕ, zero, suc, ◌+◌, ◌*◌, ◌/◌, ◌%◌, ◌^◌, ◌<◌, ◌≡◌, refl, sym, ◌∙◌, ap, Bool, true, ◌&&◌, List, [],
  ◌∷◌, ◌++◌, none, some, map, length, length-map, ◌≤◌, arith, ◌==◌, if◌then◌else◌, get_or, All,
}
use mathlib.Core.List.{flatten, map-append}
use mathlib.Core.Option.{some-injective}
use yat.Crc.{crc_32_tab, crc_round, crc_loop, crc, written_bytes, get_crc}
use yat.MemBuf.{MemBuf, Cell, cells, put_bloc}
use yat.MemBuf.Cells.{read_at-eq}
use yat.MemBuf.Grow.{put_bloc-Becomes}
use yat.MemBuf.Room.{IsValid, contents, max_total}
use yat.MemBuf.Stream.{put_bloc-IsValid}
use yat.Crc.Xor.{xor-lt, xor_right_comm, xor_sum, xor-double, xor_parity_low, and_low_byte}

-- One bit of the division: the polynomial of CRC-32, lowest bit first.
unfoldable pub divide_bit : ℕ → ℕ
divide_bit v = if v % 2 == 1 then bit_xor (v / 2) 0xedb88320 else v / 2

unfoldable pub divide_bits : ℕ → ℕ → ℕ
divide_bits zero v = v
divide_bits (suc k) v = divide_bits k (divide_bit v)

-- The remainder of a message: each byte joins the low bits, then eight bits are divided.
unfoldable pub remainder : ℕ → List ℕ → ℕ
remainder v [] = v
remainder v (c ∷ p) = remainder (divide_bits 8 (bit_xor v c)) p

-- The bits above the next `k` only move down.
divide_bits-high :
    (k low h : ℕ) → divide_bits k (bit_xor low (h * 2 ^ k)) ≡ bit_xor (divide_bits k low) h
unfolding divide_bits divide_bit
divide_bits-high zero low h = ap (bit_xor low) (omega arith)
divide_bits-high (suc k) low h = ground (
  arith,
  xor-double k low h,
  xor_parity_low k low h,
  xor_right_comm (low / 2) (h * 2 ^ k) 0xedb88320,
  divide_bits-high k (low / 2) h,
  divide_bits-high k (bit_xor (low / 2) 0xedb88320) h,
)

-- Whether the entries of a table, the first of which has the index `i`, are the bytes divided.
entries_divide : ℕ → List ℕ → Bool
entries_divide i [] = true
entries_divide i (e ∷ table) = entries_divide (suc i) table && (e == divide_bits 8 i)

entry-eq :
    (table : List ℕ) (i k : ℕ)
    → entries_divide i table ≡ true
    → k < length table
    → get_or table k 0 ≡ divide_bits 8 (i + k)
unfolding entries_divide
entry-eq [] i k checked h = absurd (omega arith)
entry-eq (e ∷ table) i zero checked h =
    let here : e ≡ divide_bits 8 i = ground arith in here ∙ ap (divide_bits 8) (omega arith)
entry-eq (e ∷ table) i (suc k) checked h =
    entry-eq table (suc i) k (ground arith) (omega arith) ∙ ap (divide_bits 8) (omega arith)

table_divides : entries_divide 0 crc_32_tab ≡ true
unfolding entries_divide divide_bits divide_bit crc_32_tab
table_divides = refl

table_size : length crc_32_tab ≡ 256
unfolding crc_32_tab
table_size = refl

table-eq : (i : ℕ) → i < 256 → get_or crc_32_tab i 0 ≡ divide_bits 8 i
table-eq i h =
    entry-eq crc_32_tab 0 i table_divides (omega (arith, table_size))
    ∙ ap (divide_bits 8) (omega arith)

-- The low byte of a sum with a byte, and the bytes above it.
xor-byte : (v c : ℕ) → bit_xor v c ≡ bit_xor (bit_xor (v % 256) c) (v / 256 * 2 ^ 8)
xor-byte v c =
    ap (λ (n : ℕ). bit_xor n c) (omega arith ∙ sym (xor_sum 8 (v % 256) (v / 256) (omega arith)))
    ∙ xor_right_comm (v % 256) (v / 256 * 2 ^ 8) c

-- One step of the table is eight steps of the division.
crc_round-eq : (v c : ℕ) → c < 256 → crc_round v c ≡ divide_bits 8 (bit_xor v c)
unfolding crc_round
crc_round-eq v c h =
    let low = bit_xor (v % 256) c in
    let small : low < 256 = xor-lt 8 (v % 256) c (omega arith) h in
    let index : bit_and (bit_xor v c) 0xff ≡ low =
      and_low_byte (bit_xor v c)
      ∙ omega (arith, xor-byte v c, xor_sum 8 low (v / 256) small, small) in
    ap (λ (i : ℕ). bit_xor (get_or crc_32_tab i 0) (v / 256)) index
    ∙ ap (λ (n : ℕ). bit_xor n (v / 256)) (table-eq low small)
    ∙ sym (divide_bits-high 8 low (v / 256))
    ∙ ap (divide_bits 8) (sym (xor-byte v c))

crc_loop-eq : (v : ℕ) (p : List ℕ) → All (λ c. c < 256) p → crc_loop v p ≡ remainder v p
unfolding crc_loop remainder
crc_loop-eq v [] h = refl
crc_loop-eq v (c ∷ p) h =
    ap (λ (n : ℕ). crc_loop n p) (crc_round-eq v c h.0)
    ∙ crc_loop-eq (divide_bits 8 (bit_xor v c)) p h.1

-- The checksum of a sequence of bytes, by the table, is the complement of the remainder of its
-- bitwise division, which starts from 32 ones; of no bytes it is 0.
pub crc-eq-remainder :
    (p : List ℕ) → All (λ c. c < 256) p → crc p none ≡ bit_xor (remainder 0xffffffff p) 0xffffffff
unfolding crc remainder
crc-eq-remainder [] h = refl
crc-eq-remainder (c ∷ p) h = ap (λ (n : ℕ). bit_xor n 0xffffffff) (crc_loop-eq 0xffffffff (c ∷ p) h)

crc-some : (p : List ℕ) (v : ℕ) → crc p (some v) ≡ crc_loop v p
unfolding crc crc_loop
crc-some [] v = refl
crc-some (c ∷ p) v = refl

crc-none : (p : List ℕ) → crc p none ≡ bit_xor (crc_loop 0xffffffff p) 0xffffffff
unfolding crc crc_loop
crc-none [] = refl
crc-none (c ∷ p) = refl

crc_loop-append : (v : ℕ) (p q : List ℕ) → crc_loop v (p ++ q) ≡ crc_loop (crc_loop v p) q
unfolding crc_loop
crc_loop-append v [] q = refl
crc_loop-append v (c ∷ p) q = crc_loop-append (crc_round v c) p q

-- The value after each buffer, handed to the call for the next one.
unfoldable pub crc_chain : ℕ → List (List ℕ) → ℕ
crc_chain v [] = v
crc_chain v (p ∷ ps) = crc_chain (crc p (some v)) ps

crc_chain-eq : (v : ℕ) (ps : List (List ℕ)) → crc_chain v ps ≡ crc_loop v (flatten ps)
unfolding crc_chain crc_loop flatten
crc_chain-eq v [] = refl
crc_chain-eq v (p ∷ ps) =
    ap (λ (n : ℕ). crc_chain n ps) (crc-some p v)
    ∙ crc_chain-eq (crc_loop v p) ps
    ∙ sym (crc_loop-append v p (flatten ps))

-- Buffers that are fed one after another into a value that starts as 0xffffffff and is complemented
-- at the end have the checksum of their concatenation.
pub crc_chain-flatten :
    (ps : List (List ℕ)) → bit_xor (crc_chain 0xffffffff ps) 0xffffffff ≡ crc (flatten ps) none
crc_chain-flatten ps =
    ap (λ (n : ℕ). bit_xor n 0xffffffff) (crc_chain-eq 0xffffffff ps) ∙ sym (crc-none (flatten ps))

written_bytes-map : (p : List ℕ) → written_bytes (map some p) ≡ some p
unfolding written_bytes
written_bytes-map [] = refl
written_bytes-map (c ∷ p) = rw (written_bytes-map p)

-- Of a buffer that was filled with bytes in two pieces, `get_crc` reads nothing outside the contents
-- and gives the complement of the remainder of the bitwise division of both pieces together.
pub get_crc-put_bloc :
    (p q : List ℕ) (b r : MemBuf)
    → IsValid b
    → contents b ≡ map some p
    → All (λ c. c < 256) (p ++ q)
    → b.len + length q ≤ max_total
    → put_bloc (map some q) b ≡ some r
    → get_crc r ≡ some (bit_xor (remainder 0xffffffff (p ++ q)) 0xffffffff)
unfolding get_crc
get_crc-put_bloc p q b r v holds bytes small e =
    let fits : b.len + length (map some q) ≤ max_total = omega (arith, length-map q some) in
    let done = put_bloc-Becomes (map some q) b v fits in
    let same : done.buffer ≡ r = some-injective _ _ (sym done.returns ∙ e) in
    let (valid, _) = put_bloc-IsValid (map some q) b r v fits e in
    let now : contents r ≡ map some (p ++ q) =
      ap contents (sym same)
      ∙ done.holds
      ∙ ap (λ (l : List Cell). l ++ map some q) holds
      ∙ sym (map-append some p q) in
    rw (read_at-eq 0 r.len (cells r) (omega (arith, valid.sized, valid.within)))
      (rw now (rw (written_bytes-map (p ++ q)) (ap some (crc-eq-remainder (p ++ q) bytes))))
