-- ===== src/MemBuf.antt =====
-- The growing byte buffer: yat::MemBuf (src/memory/MemBuf.cpp, include/yat/memory/MemBuf.h).
-- Lengths and positions are `uint32`. An access outside the allocated block is undefined in C++:
-- here it is `none`, so a result `some` says that no such access happens.
use yat.Common.{
  ℕ, ◌+◌, ◌/◌, ◌<◌, ◌≤◌, ◌^◌, ◌≡◌, Bool, true, false, not, ◌&&◌, List, [], ◌∷◌, ◌++◌, Option, none,
  some, ltb, leb, ◌==◌, if◌then◌else◌, length, take, drop, replicate, add32, sub32,
}
pub mod Cells
pub mod Room
pub mod Grow
pub mod Stream
pub mod Words
pub mod Roundtrip
pub mod Copy
pub mod Compare
mod Tests

-- A byte of memory; `none` has not been written since it was allocated.
abbrev pub Cell : Type 0
Cell = Option ℕ

-- `block` is what `m_pBuf` points to, and `none` is NULL.
pub record MemBuf : Type 0 where
  pub pos : ℕ
  pub len : ℕ
  pub len_buf : ℕ
  pub block : Option (List Cell)
  pub owner : Bool

infixl 5 ◌>>=◌
abbrev pub ◌>>=◌ : {A B : Type 0} → Option A → (A → Option B) → Option B
none >>= f = none
some a >>= f = f a

abbrev pub block_cells : Option (List Cell) → List Cell
block_cells none = []
block_cells (some cs) = cs

abbrev pub cells : MemBuf → List Cell
cells b = block_cells b.block

abbrev pub with_cells : Option (List Cell) → List Cell → Option (List Cell)
with_cells none cs = none
with_cells (some _) cs = some cs

-- `memcpy` and `memmove` to an offset of a block, and from one.
unfoldable pub write_at : ℕ → List Cell → List Cell → Option (List Cell)
write_at off src cs =
    if leb (off + length src) (length cs)
    then some (take off cs ++ (src ++ drop (off + length src) cs))
    else none

unfoldable pub read_at : ℕ → ℕ → List Cell → Option (List Cell)
read_at off n cs = if leb (off + n) (length cs) then some (take n (drop off cs)) else none

-- `new char[n]`.
abbrev pub new_block : ℕ → List Cell
new_block n = replicate n none

-- The constructor.
unfoldable pub make : ℕ → MemBuf
make len_buf = record {
  pos = 0;
  len = 0;
  len_buf = len_buf;
  block = if len_buf == 0 then none else some (new_block len_buf);
  owner = true;
}

unfoldable pub copy_block : Option (List Cell) → ℕ → List Cell → Option (List Cell)
unfolding read_at write_at
copy_block none n fresh = some fresh
copy_block (some cs) n fresh = do old ← read_at 0 n cs; write_at 0 old fresh

-- Does nothing if the wished size does not hold the contents.
unfoldable pub realloc : ℕ → MemBuf → Option MemBuf
unfolding copy_block
realloc new_len_buf b =
    if ltb new_len_buf b.len
    then some b
    else (copy_block b.block b.len (new_block new_len_buf) >>= λ cs.
        some (record b { block = some cs; len_buf = new_len_buf }))

abbrev pub membuf_minsize : ℕ
membuf_minsize = 16

abbrev pub membuf_maxdelta : ℕ
membuf_maxdelta = 1048576

-- The capacity that a wished size is given.
unfoldable pub margin_size : ℕ → ℕ
margin_size new_size =
    let size = if ltb new_size membuf_minsize then membuf_minsize else new_size in
    let delta = if ltb membuf_maxdelta (size / 2) then membuf_maxdelta else size / 2 in
    add32 size delta

unfoldable pub realloc_with_margin : ℕ → MemBuf → Option MemBuf
unfolding margin_size realloc
realloc_with_margin new_size b = realloc (margin_size new_size) b

-- Room for `total` bytes.
unfoldable pub make_room : ℕ → MemBuf → Option MemBuf
unfolding realloc_with_margin
make_room total b = if ltb b.len_buf total then realloc_with_margin total b else some b

-- The block `p` has `uiNb` bytes.
unfoldable pub put_bloc : List Cell → MemBuf → Option MemBuf
put_bloc p b =
    let total = add32 b.len (length p) in
    make_room total b >>= λ r. write_at r.len p (cells r) >>= λ cs.
    some (record r { block = with_cells r.block cs; len = total })

unfoldable pub insert_bloc : List Cell → ℕ → MemBuf → Option MemBuf
insert_bloc p ins_pos b =
    let total = add32 b.len (length p) in
    make_room total b >>= λ r. read_at ins_pos (sub32 r.len ins_pos) (cells r) >>= λ tail.
    write_at (ins_pos + length p) tail (cells r) >>= λ moved. write_at ins_pos p moved >>= λ cs.
    some (record r { block = with_cells r.block cs; len = total })

-- Returns the bytes, and 1 instead if too few are left; `none` is the fault.
pub data Got : Type 0 where
  returned_0 : List Cell → MemBuf → Got
  returned_1 : MemBuf → Got

unfoldable pub get_bloc : ℕ → MemBuf → Option Got
get_bloc n b =
    if ltb (sub32 b.len b.pos) n
    then some (returned_1 b)
    else (read_at b.pos n (cells b) >>= λ bytes.
        some (returned_0 bytes (record b { pos = b.pos + n })))

unfoldable pub move_bloc : ℕ → ℕ → ℕ → MemBuf → Option MemBuf
move_bloc dst src size b = read_at src size (cells b) >>= λ bytes.
    write_at dst bytes (cells b) >>= λ cs. some (record b { block = with_cells b.block cs })

unfoldable pub set_len : ℕ → MemBuf → Option MemBuf
set_len n b =
    (if ltb b.len_buf n then realloc n b else some b) >>= λ r. some (record r { len = n; pos = 0 })

unfoldable pub reset : MemBuf → MemBuf
reset b =
    if not (b.len_buf == 0)
    then record { pos = 0; len = 0; len_buf = 0; block = none; owner = true }
    else b

unfoldable pub attach : List Cell → Bool → MemBuf → MemBuf
unfolding reset
attach p owner b = record (reset b) {
  len = length p;
  len_buf = length p;
  block = some p;
  owner = owner;
}

unfoldable pub set_pos : ℕ → MemBuf → MemBuf
set_pos n b = record b { pos = n }

unfoldable pub rewind : MemBuf → MemBuf
rewind b = record b { pos = 0 }

unfoldable pub empty : MemBuf → MemBuf
empty b = record b { pos = 0; len = 0 }
