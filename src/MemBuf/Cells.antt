-- ===== src/MemBuf/Cells.antt =====
-- Reading and writing a block of cells.
use native.Mathlib.Nat.{add_assoc}
use yat.Common.{
  ℕ, ◌+◌, ◌≤◌, ◌≡◌, refl, ap, ap₂, ◌∙◌, List, ◌++◌, some, arith, length, take, drop, length-append,
  length-take, length-drop, take-append, take-append-le, take-append_add, drop-append_eq,
  take-take_le,
}
use yat.MemBuf.{Cell, write_at, read_at}

-- What a write within the block gives.
abbrev pub overwrite : ℕ → List Cell → List Cell → List Cell
overwrite off src cs = take off cs ++ (src ++ drop (off + length src) cs)

pub write_at-eq :
    (off : ℕ) (src cs : List Cell)
    → off + length src ≤ length cs
    → write_at off src cs ≡ some (overwrite off src cs)
unfolding write_at
write_at-eq off src cs h = ground arith

pub read_at-eq :
    (off n : ℕ) (cs : List Cell)
    → off + n ≤ length cs
    → read_at off n cs ≡ some (take n (drop off cs))
unfolding read_at
read_at-eq off n cs h = ground arith

pub length-overwrite :
    (off : ℕ) (src cs : List Cell)
    → off + length src ≤ length cs
    → length (overwrite off src cs) ≡ length cs
length-overwrite off src cs h = omega (
  arith,
  length-append (take off cs) (src ++ drop (off + length src) cs),
  length-append src (drop (off + length src) cs),
  length-take off cs,
  length-drop (off + length src) cs,
)

-- The part up to the end of what was written.
pub take-overwrite :
    (off : ℕ) (src cs : List Cell)
    → off + length src ≤ length cs
    → take (off + length src) (overwrite off src cs) ≡ take off cs ++ src
take-overwrite off src cs h =
    take-append_add off (length src) (take off cs) (src ++ drop (off + length src) cs)
      (omega (arith, length-take off cs))
    ∙ ap (◌++◌ (take off cs)) (take-append src (drop (off + length src) cs))

-- The part before what was written, and the part from there on.
pub take-overwrite_before :
    (m off : ℕ) (src cs : List Cell)
    → m ≤ off
    → off ≤ length cs
    → take m (overwrite off src cs) ≡ take m cs
take-overwrite_before m off src cs h k =
    take-append-le m (take off cs) (src ++ drop (off + length src) cs)
      (omega (arith, length-take off cs))
    ∙ take-take_le m off cs h

pub drop-overwrite :
    (off : ℕ) (src cs : List Cell)
    → off ≤ length cs
    → drop off (overwrite off src cs) ≡ src ++ drop (off + length src) cs
drop-overwrite off src cs h =
    drop-append_eq off (take off cs) (src ++ drop (off + length src) cs)
      (omega (arith, length-take off cs))

-- Two writes, the second right before the first: what `insert_bloc` does.
pub take-insert :
    (i : ℕ) (p tail cs : List Cell)
    → i + length p + length tail ≤ length cs
    → take (i + length p + length tail) (overwrite i p (overwrite (i + length p) tail cs))
      ≡ take i cs ++ (p ++ tail)
take-insert i p tail cs h =
    ap (λ (n : ℕ). take n (overwrite i p moved)) (add_assoc i (length p) (length tail))
    ∙ take-append_add i (length p + length tail) (take i moved) (p ++ drop (i + length p) moved)
        (omega (arith, length-take i moved, length-overwrite (i + length p) tail cs h))
    ∙ ap₂ ◌++◌ (take-overwrite_before i (i + length p) tail cs (omega arith) (omega arith)) (
        take-append_add (length p) (length tail) p (drop (i + length p) moved) refl
        ∙ ap (◌++◌ p) (
            ap (take (length tail)) (drop-overwrite (i + length p) tail cs (omega arith))
            ∙ take-append tail (drop (i + length p + length tail) cs)))
  where
    moved : List Cell
    moved = overwrite (i + length p) tail cs
