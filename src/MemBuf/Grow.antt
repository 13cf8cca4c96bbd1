-- ===== src/MemBuf/Grow.antt =====
-- The operations that add to the contents: MemBuf::put_bloc and insert_bloc.
use yat.Common.{
  ℕ, ◌+◌, ◌-◌, ◌≤◌, ◌≡◌, refl, sym, ap, ap₂, ◌∙◌, List, [], ◌∷◌, ◌++◌, Option, none, some, arith,
  length, take, drop, length-take, length-drop, add32, sub32, take-take_le, drop-take,
}
use yat.MemBuf.{
  MemBuf, Cell, block_cells, with_cells, cells, write_at, read_at, make_room, put_bloc, insert_bloc,
}
use yat.MemBuf.Cells.{
  overwrite, write_at-eq, read_at-eq, length-overwrite, take-overwrite, take-insert,
}
use yat.MemBuf.Room.{IsValid, contents, max_total, make_room-HasRoom}

-- A write into the block of a buffer.
pub block_cells-with_cells :
    (old : Option (List Cell)) (cs : List Cell)
    → length cs ≡ length (block_cells old)
    → block_cells (with_cells old cs) ≡ cs
block_cells-with_cells none [] h = refl
block_cells-with_cells none (c ∷ cs) h = absurd (omega arith)
block_cells-with_cells (some old) cs h = refl

-- What an operation that changes the contents leaves: no access outside the block, a valid buffer,
-- the position and the owner as they were.
pub record Becomes (b : MemBuf) (cs : List Cell) (result : Option MemBuf) : Type 0 where
  pub buffer : MemBuf
  pub returns : result ≡ some buffer
  pub valid : IsValid buffer
  pub holds : contents buffer ≡ cs
  pub same_pos : buffer.pos ≡ b.pos
  pub same_owner : buffer.owner ≡ b.owner

-- The result of `put_bloc` from the results of its parts, and likewise `insert_bloc`.
put_bloc-returns :
    (p : List Cell) (b r : MemBuf) (t : ℕ) (cs : List Cell)
    → add32 b.len (length p) ≡ t
    → make_room t b ≡ some r
    → write_at r.len p (cells r) ≡ some cs
    → put_bloc p b ≡ some (record r { block = with_cells r.block cs; len = t })
unfolding put_bloc
put_bloc-returns p b r t cs total room written = rw (total, room, written)

insert_bloc-returns :
    (p : List Cell) (i : ℕ) (b r : MemBuf) (t n : ℕ) (tail moved cs : List Cell)
    → add32 b.len (length p) ≡ t
    → make_room t b ≡ some r
    → sub32 r.len i ≡ n
    → read_at i n (cells r) ≡ some tail
    → write_at (i + length p) tail (cells r) ≡ some moved
    → write_at i p moved ≡ some cs
    → insert_bloc p i b ≡ some (record r { block = with_cells r.block cs; len = t })
unfolding insert_bloc
insert_bloc-returns p i b r t n tail moved cs total room rest got put1 put2 =
    rw (total, room, rest, got, put1, put2)

-- In a valid buffer whose length stays within range, `put_bloc` writes only inside the block, and
-- appends its bytes to the contents.
pub put_bloc-Becomes :
    (p : List Cell) (b : MemBuf)
    → IsValid b
    → b.len + length p ≤ max_total
    → Becomes b (contents b ++ p) (put_bloc p b)
unfolding put_bloc
put_bloc-Becomes p b v small =
    let total : add32 b.len (length p) ≡ b.len + length p = omega arith in
    let (r, done, h) = make_room-HasRoom (b.len + length p) b v (omega arith) small in
    let fits : r.len + length p ≤ length (cells r) =
      omega (arith, h.same_len, h.room, h.valid.sized) in
    let stored =
      block_cells-with_cells r.block (overwrite r.len p (cells r))
        (length-overwrite r.len p (cells r) fits) in
    record {
      buffer = record r {
        block = with_cells r.block (overwrite r.len p (cells r));
        len = b.len + length p;
      };
      returns =
          put_bloc-returns p b r (b.len + length p) (overwrite r.len p (cells r)) total done
            (write_at-eq r.len p (cells r) fits);
      valid = record {
        sized = ap length stored ∙ length-overwrite r.len p (cells r) fits ∙ h.valid.sized;
        within = h.room;
        small = h.valid.small;
        placed = omega (arith, h.same_pos, v.placed);
      };
      holds =
          ap (take (b.len + length p)) stored
          ∙ ap (λ (n : ℕ). take (n + length p) (overwrite r.len p (cells r))) (sym h.same_len)
          ∙ take-overwrite r.len p (cells r) fits
          ∙ ap (λ (l : List Cell). l ++ p) h.same;
      same_pos = h.same_pos;
      same_owner = h.same_owner;
    }

-- In a valid buffer whose length stays within range, `insert_bloc` at a position within the contents
-- accesses only the block, puts its bytes there, and moves the rest behind them.
pub insert_bloc-Becomes :
    (p : List Cell) (i : ℕ) (b : MemBuf)
    → IsValid b
    → i ≤ b.len
    → b.len + length p ≤ max_total
    → Becomes b (take i (contents b) ++ (p ++ drop i (contents b))) (insert_bloc p i b)
unfolding insert_bloc
insert_bloc-Becomes p i b v place small =
    let total : add32 b.len (length p) ≡ b.len + length p = omega arith in
    let (r, done, h) = make_room-HasRoom (b.len + length p) b v (omega arith) small in
    let size : length (cells r) ≡ r.len_buf = h.valid.sized in
    let rest : sub32 r.len i ≡ r.len - i =
      omega (arith, h.valid.within, h.valid.small, h.same_len) in
    let tail = take (r.len - i) (drop i (cells r)) in
    let tail_size : length tail ≡ r.len - i = omega (
      arith,
      length-take (r.len - i) (drop i (cells r)),
      length-drop i (cells r),
      h.valid.within,
      size,
    ) in
    let moved = overwrite (i + length p) tail (cells r) in
    let fits : i + length p + length tail ≤ length (cells r) =
      omega (arith, tail_size, h.same_len, h.room, size) in
    let moved_size : length moved ≡ length (cells r) =
      length-overwrite (i + length p) tail (cells r) fits in
    let result = overwrite i p moved in
    let result_size : length result ≡ length (cells r) =
      length-overwrite i p moved (omega (arith, moved_size)) ∙ moved_size in
    let stored = block_cells-with_cells r.block result result_size in
    record {
      buffer = record r { block = with_cells r.block result; len = b.len + length p };
      returns =
          insert_bloc-returns p i b r (b.len + length p) (r.len - i) tail moved result total done
            rest
            (read_at-eq i (r.len - i) (cells r) (omega (arith, h.valid.within, size, h.same_len)))
            (write_at-eq (i + length p) tail (cells r) fits)
            (write_at-eq i p moved (omega (arith, moved_size)));
      valid = record {
        sized = ap length stored ∙ result_size ∙ size;
        within = h.room;
        small = h.valid.small;
        placed = omega (arith, h.same_pos, v.placed);
      };
      holds =
          ap (take (b.len + length p)) stored
          ∙ ap (λ (n : ℕ). take n result) (omega (arith, tail_size, h.same_len))
          ∙ take-insert i p tail (cells r) fits
          ∙ ap₂ (λ (x y : List Cell). x ++ (p ++ y))
              (sym (take-take_le i r.len (cells r) (omega (arith, h.same_len)))
                ∙ ap (take i) h.same)
              (sym (drop-take i r.len (cells r)) ∙ ap (drop i) h.same);
      same_pos = h.same_pos;
      same_owner = h.same_owner;
    }
