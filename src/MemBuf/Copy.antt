-- ===== src/MemBuf/Copy.antt =====
-- Copies of a buffer: the copy constructor, operator= and operator<< over a buffer. The two operands are distinct objects with blocks of their own.
use yat.Common.{
  ℕ, ◌+◌, ◌≤◌, ◌<◌, ◌≡◌, refl, ap, ◌∙◌, Bool, true, false, not, List, ◌++◌, Option, none, some,
  arith, ltb, ◌==◌, ==_iff, if◌then◌else◌, length, take, ◌^◌, length-replicate, Bool-cases, inl,
  inr,
}
use yat.MemBuf.{
  MemBuf, Cell, cells, with_cells, read_at, write_at, new_block, reset, put_bloc, ◌>>=◌,
}
use yat.MemBuf.Cells.{overwrite, read_at-eq, write_at-eq, length-overwrite, take-overwrite}
use yat.MemBuf.Grow.{Becomes, put_bloc-Becomes, block_cells-with_cells}
use yat.MemBuf.Room.{IsValid, contents, length-contents, max_total}

unfoldable pub copy_of : MemBuf → Option MemBuf
copy_of b =
    if not (b.len == 0)
    then (read_at 0 b.len (cells b) >>= λ bytes. write_at 0 bytes (new_block b.len) >>= λ cs.
        some (record { pos = 0; len = b.len; len_buf = b.len; block = some cs; owner = true }))
    else some (record { pos = 0; len = b.len; len_buf = 0; block = none; owner = true })

-- A block of at least `nb` bytes.
unfoldable pub room_for : ℕ → MemBuf → MemBuf
room_for nb b =
    if ltb b.len_buf nb then record b { len_buf = nb; block = some (new_block nb) } else b

unfoldable pub assign : MemBuf → MemBuf → Option MemBuf
unfolding room_for
assign src b =
    let r = room_for src.len (if not b.owner then reset b else b) in
    read_at 0 src.len (cells src) >>= λ bytes. write_at 0 bytes (cells r) >>= λ cs.
    some (record r { block = with_cells r.block cs; len = src.len; pos = src.pos })

unfoldable pub put_buffer : MemBuf → MemBuf → Option MemBuf
put_buffer src b = read_at 0 src.len (cells src) >>= λ bytes. put_bloc bytes b

pub read_contents : (b : MemBuf) → IsValid b → read_at 0 b.len (cells b) ≡ some (contents b)
read_contents b v = read_at-eq 0 b.len (cells b) (omega (arith, v.sized, v.within))

-- A valid buffer with the contents of another.
pub record Copies (src : MemBuf) (pos : ℕ) (result : Option MemBuf) : Type 0 where
  pub buffer : MemBuf
  pub returns : result ≡ some buffer
  pub valid : IsValid buffer
  pub same : contents buffer ≡ contents src
  pub at : buffer.pos ≡ pos

-- Bytes written at the start of a block that is large enough.
take-written :
    (n : ℕ) (p cs : List Cell) → length p ≡ n → n ≤ length cs → take n (overwrite 0 p cs) ≡ p
take-written n p cs size room =
    ap (λ (k : ℕ). take k (overwrite 0 p cs)) (omega (arith, size))
    ∙ take-overwrite 0 p cs (omega (arith, size))

-- The copy constructor accesses nothing outside the blocks and gives a buffer with the same
-- contents, to be read from the start.
pub copy_of-Copies : (b : MemBuf) → IsValid b → Copies b 0 (copy_of b)
unfolding copy_of
copy_of-Copies b v = elim (Bool-cases (b.len == 0)) [
  | inl e ↦
      let empty : b.len ≡ 0 = (==_iff b.len 0).0 e in
      record {
        buffer = record { pos = 0; len = b.len; len_buf = 0; block = none; owner = true };
        returns = rw e refl;
        valid = record {
          sized = refl;
          within = omega arith;
          small = omega arith;
          placed = omega arith;
        };
        same = rw empty refl;
        at = refl;
      }
  | inr e ↦
      let size = length-contents b v in
      let room : b.len ≤ length (new_block b.len) =
        omega (arith, length-replicate {A = Cell} b.len none) in
      record {
        buffer = record {
          pos = 0;
          len = b.len;
          len_buf = b.len;
          block = some (overwrite 0 (contents b) (new_block b.len));
          owner = true;
        };
        returns =
            rw
              (
                e,
                read_contents b v,
                write_at-eq 0 (contents b) (new_block b.len) (omega (arith, size, room)),
              )
              refl;
        valid = record {
          sized =
              length-overwrite 0 (contents b) (new_block b.len) (omega (arith, size, room))
              ∙ length-replicate b.len none;
          within = omega arith;
          small = omega (arith, v.within, v.small);
          placed = omega arith;
        };
        same = take-written b.len (contents b) (new_block b.len) size room;
        at = refl;
      }
]

reset-IsValid : (b : MemBuf) → IsValid b → IsValid (reset b)
unfolding reset
reset-IsValid b v = elim (Bool-cases (b.len_buf == 0)) [
  | inl e ↦ rw e v
  | inr e ↦
      rw e
        (record { sized = refl; within = omega arith; small = omega arith; placed = omega arith })
]

choice-IsValid : (c : Bool) (b r : MemBuf) → IsValid b → IsValid r → IsValid (if c then r else b)
choice-IsValid true b r v w = w
choice-IsValid false b r v w = v

-- What `room_for` gives, whose length is about to be set.
record HasBlock (n : ℕ) (r : MemBuf) : Type 0 where
  pub sized : length (cells r) ≡ r.len_buf
  pub room : n ≤ r.len_buf
  pub small : r.len_buf < 2 ^ 32

room_for-HasBlock : (n : ℕ) (b : MemBuf) → IsValid b → n < 2 ^ 32 → HasBlock n (room_for n b)
unfolding room_for
room_for-HasBlock n b v h = elim (Bool-cases (ltb b.len_buf n)) [
  | inl e ↦ rw e (record { sized = length-replicate n none; room = omega arith; small = h })
  | inr e ↦ rw e (record { sized = v.sized; room = ground (arith, e); small = v.small })
]

-- operator= accesses nothing outside the blocks and gives a buffer with the contents and the
-- position of the other, whatever it held and whether it owned its block or not.
pub assign-Copies : (src b : MemBuf) → IsValid src → IsValid b → Copies src src.pos (assign src b)
unfolding assign
assign-Copies src b v w =
    let r = room_for src.len (if not b.owner then reset b else b) in
    let h : HasBlock src.len r =
      room_for-HasBlock src.len (if not b.owner then reset b else b)
        (choice-IsValid (not b.owner) b (reset b) w (reset-IsValid b w))
        (omega (arith, v.within, v.small)) in
    let size = length-contents src v in
    let fits : src.len ≤ length (cells r) = omega (arith, h.sized, h.room) in
    let stored =
      block_cells-with_cells r.block (overwrite 0 (contents src) (cells r))
        (length-overwrite 0 (contents src) (cells r) (omega (arith, size, fits))) in
    record {
      buffer = record r {
        block = with_cells r.block (overwrite 0 (contents src) (cells r));
        len = src.len;
        pos = src.pos;
      };
      returns =
          rw
            (
              read_contents src v,
              write_at-eq 0 (contents src) (cells r) (omega (arith, size, fits)),
            )
            refl;
      valid = record {
        sized =
            ap length stored
            ∙ length-overwrite 0 (contents src) (cells r) (omega (arith, size, fits))
            ∙ h.sized;
        within = h.room;
        small = h.small;
        placed = v.placed;
      };
      same = ap (take src.len) stored ∙ take-written src.len (contents src) (cells r) size fits;
      at = refl;
    }

-- operator<< over a buffer appends the contents of the other, read or not.
pub put_buffer-Becomes :
    (src b : MemBuf)
    → IsValid src
    → IsValid b
    → b.len + src.len ≤ max_total
    → Becomes b (contents b ++ contents src) (put_buffer src b)
unfolding put_buffer
put_buffer-Becomes src b v w small =
    rw (read_contents src v)
      (put_bloc-Becomes (contents src) b w (omega (arith, length-contents src v)))
