-- ===== src/MemBuf/Room.antt =====
-- What the buffer holds, and how it gets room: MemBuf::realloc and realloc_with_margin.
use yat.Common.{
  ℕ, ◌+◌, ◌^◌, ◌<◌, ◌≤◌, ◌≡◌, refl, ap, ◌∙◌, List, Option, none, some, arith, ltb, length, take,
  length-take, length-replicate, Bool-cases, inl, inr,
}
use yat.MemBuf.{
  MemBuf, Cell, block_cells, copy_block, cells, new_block, realloc, margin_size, make_room,
}
use yat.MemBuf.Cells.{overwrite, write_at-eq, read_at-eq, length-overwrite, take-overwrite}

-- The block has the noted size, which holds the contents, and the position lies within them.
pub record IsValid (b : MemBuf) : Type 0 where
  pub sized : length (cells b) ≡ b.len_buf
  pub within : b.len ≤ b.len_buf
  pub small : b.len_buf < 2 ^ 32
  pub placed : b.pos ≤ b.len

abbrev pub contents : MemBuf → List Cell
contents b = take b.len (cells b)

pub length-contents : (b : MemBuf) → IsValid b → length (contents b) ≡ b.len
length-contents b v = omega (arith, length-take b.len (cells b), v.sized, v.within)

-- A buffer with room for `total` that holds the same.
pub record HasRoom (total : ℕ) (b r : MemBuf) : Type 0 where
  pub valid : IsValid r
  pub room : total ≤ r.len_buf
  pub same_len : r.len ≡ b.len
  pub same_pos : r.pos ≡ b.pos
  pub same_owner : r.owner ≡ b.owner
  pub same : contents r ≡ contents b

-- The wished size and its margin stay below 2 ^ 32 up to here.
abbrev pub max_total : ℕ
max_total = 4293918719

pub margin_size_range : (n : ℕ) → n ≤ max_total → (n ≤ margin_size n) × (margin_size n < 2 ^ 32)
unfolding margin_size
margin_size_range n h = ground arith

-- A fresh block that begins with the first `n` cells of the old one.
record Copied (old : Option (List Cell)) (n : ℕ) (fresh : List Cell) : Type 0 where
  copy : List Cell
  done : copy_block old n fresh ≡ some copy
  same_size : length copy ≡ length fresh
  kept : take n copy ≡ take n (block_cells old)

copy_block-Copied :
    (old : Option (List Cell)) (n : ℕ) (fresh : List Cell)
    → n ≤ length (block_cells old)
    → n ≤ length fresh
    → Copied old n fresh
unfolding copy_block
copy_block-Copied none n fresh h k = record {
  copy = fresh;
  done = refl;
  same_size = refl;
  kept = let none_left : n ≡ 0 = omega arith in rw none_left;
}
copy_block-Copied (some cs) n fresh h k =
    let size : length (take n cs) ≡ n = omega (arith, length-take n cs) in
    record {
      copy = overwrite 0 (take n cs) fresh;
      done =
          rw (read_at-eq 0 n cs (omega arith))
            (write_at-eq 0 (take n cs) fresh (omega (arith, size)));
      same_size = length-overwrite 0 (take n cs) fresh (omega (arith, size));
      kept =
          let end : n ≡ 0 + length (take n cs) = omega (arith, size) in
          ap (λ (k : ℕ). take k (overwrite 0 (take n cs) fresh)) end
          ∙ take-overwrite 0 (take n cs) fresh (omega (arith, size));
    }

-- `realloc` to a size that holds the contents keeps them, in a block of that size.
pub realloc-HasRoom :
    (n : ℕ) (b : MemBuf)
    → IsValid b
    → b.len ≤ n
    → n < 2 ^ 32
    → (r : MemBuf) × (realloc n b ≡ some r) × HasRoom n b r
unfolding realloc
realloc-HasRoom n b v fits small =
    let c : Copied b.block b.len (new_block n) =
      copy_block-Copied b.block b.len (new_block n) (omega (arith, v.sized, v.within))
        (omega (arith, length-replicate {A = Cell} n none)) in
    (
      record b { block = some c.copy; len_buf = n },
      ground (arith, c.done),
      record {
        valid = record {
          sized = c.same_size ∙ length-replicate n none;
          within = fits;
          small = small;
          placed = v.placed;
        };
        room = omega arith;
        same_len = refl;
        same_pos = refl;
        same_owner = refl;
        same = c.kept;
      },
    )

pub make_room-HasRoom :
    (total : ℕ) (b : MemBuf)
    → IsValid b
    → b.len ≤ total
    → total ≤ max_total
    → (r : MemBuf) × (make_room total b ≡ some r) × HasRoom total b r
unfolding make_room
make_room-HasRoom total b v fits small = elim (Bool-cases (ltb b.len_buf total)) [
  | inl e ↦
      let (enough, below) = margin_size_range total small in
      let (r, done, h) = realloc-HasRoom (margin_size total) b v (omega arith) below in
      (
        r,
        rw e done,
        record {
          valid = h.valid;
          room = omega (arith, h.room);
          same_len = h.same_len;
          same_pos = h.same_pos;
          same_owner = h.same_owner;
          same = h.same;
        },
      )
  | inr e ↦ (
    b,
    rw e,
    record {
      valid = v;
      room = ground arith;
      same_len = refl;
      same_pos = refl;
      same_owner = refl;
      same = refl;
    },
  )
]
