-- ===== src/MemBuf/Stream.antt =====
-- Reading: MemBuf::get_bloc, and the buffer seen as a stream of the bytes that are not yet read.
use mathlib.Core.Option.{some-injective}
use yat.Common.{
  take-append-drop, drop-append, ℕ, ◌+◌, ◌-◌, ◌<◌, ◌≤◌, ◌≡◌, refl, sym, ap, ap₂, ◌∙◌, false, List,
  ◌++◌, Option, none, some, arith, ltb, length, take, drop, length-append, length-take, length-drop,
  sub32, Bool-cases, inl, inr, take-take_le, drop-take, drop-drop, drop-append-le, take-append,
  drop-append_eq, take-append_eq,
}
use yat.MemBuf.{MemBuf, Cell, cells, get_bloc, put_bloc, Got, returned_0, returned_1}
use yat.MemBuf.Cells.{read_at-eq}
use yat.MemBuf.Grow.{put_bloc-Becomes}
use yat.MemBuf.Room.{IsValid, contents, length-contents, max_total}

abbrev pub unread : MemBuf → List Cell
unread b = drop b.pos (contents b)

pub length-unread : (b : MemBuf) → IsValid b → length (unread b) ≡ b.len - b.pos
length-unread b v = omega (arith, length-drop b.pos (contents b), length-contents b v)

-- What reading `n` bytes may end with: all of them, or a refusal that changes nothing.
abbrev pub Gets : ℕ → MemBuf → Option Got → Type 0
Gets n b none = ⊥
Gets n b (some (returned_0 bytes r)) =
    (n ≤ length (unread b))
    × (unread b ≡ bytes ++ unread r)
    × (length bytes ≡ n)
    × IsValid r
    × (contents r ≡ contents b)
Gets n b (some (returned_1 r)) = (length (unread b) < n) × (r ≡ b)

get_some :
    (n : ℕ) (b : MemBuf)
    → ltb (sub32 b.len b.pos) n ≡ false
    → b.pos + n ≤ length (cells b)
    → get_bloc n b
      ≡ some (returned_0 (take n (drop b.pos (cells b))) (record b { pos = b.pos + n }))
unfolding get_bloc
get_some n b enough fits = rw (enough, read_at-eq b.pos n (cells b) fits)

unread-split :
    (n : ℕ) (b : MemBuf)
    → n ≤ b.len - b.pos
    → unread b ≡ take n (drop b.pos (cells b)) ++ unread (record b { pos = b.pos + n })
unread-split n b enough =
    sym (take-append-drop n (unread b))
    ∙ ap₂ ◌++◌
        (ap (take n) (drop-take b.pos b.len (cells b))
          ∙ take-take_le n (b.len - b.pos) (drop b.pos (cells b)) enough)
        (drop-drop n b.pos (contents b))

-- `get_bloc` never reads outside the block, returns the next `n` bytes if there are as many, and
-- otherwise refuses and leaves the buffer as it was.
pub get_bloc-Gets : (n : ℕ) (b : MemBuf) → IsValid b → Gets n b (get_bloc n b)
unfolding get_bloc
get_bloc-Gets n b v =
    let size = length-unread b v in
    let left : sub32 b.len b.pos ≡ b.len - b.pos = omega (arith, v.placed, v.within, v.small) in
    elim (Bool-cases (ltb (sub32 b.len b.pos) n)) [
      | inl few ↦ rw few (ground (arith, few, left, size), refl)
      | inr many ↦
          let enough : n ≤ b.len - b.pos = ground (arith, many, left) in
          let fits : b.pos + n ≤ length (cells b) = omega (arith, v.sized, v.within, v.placed) in
          rw (get_some n b many fits) (
            omega (arith, size),
            unread-split n b enough,
            omega (arith, length-take n (drop b.pos (cells b)), length-drop b.pos (cells b)),
            record {
              sized = v.sized;
              within = v.within;
              small = v.small;
              placed = omega (arith, v.placed);
            },
            refl,
          )
    ]

-- `put_bloc` adds to the end of what is unread.
pub put_bloc-unread :
    (p : List Cell) (b r : MemBuf)
    → IsValid b
    → b.len + length p ≤ max_total
    → put_bloc p b ≡ some r
    → unread r ≡ unread b ++ p
put_bloc-unread p b r v small e =
    let done = put_bloc-Becomes p b v small in
    let same : done.buffer ≡ r = some-injective _ _ (sym done.returns ∙ e) in
    rw (sym same) (
      ap₂ drop done.same_pos done.holds
      ∙ drop-append-le b.pos (contents b) p (omega (arith, length-contents b v, v.placed)))

pub put_bloc-IsValid :
    (p : List Cell) (b r : MemBuf)
    → IsValid b
    → b.len + length p ≤ max_total
    → put_bloc p b ≡ some r
    → IsValid r × (r.len ≡ b.len + length p)
put_bloc-IsValid p b r v small e =
    let done = put_bloc-Becomes p b v small in
    let same : done.buffer ≡ r = some-injective _ _ (sym done.returns ∙ e) in
    rw (sym same) (
      done.valid,
      omega (
        arith,
        length-contents done.buffer done.valid,
        ap length done.holds,
        length-append (contents b) p,
        length-contents b v,
      ),
    )

-- A read of which the bytes are known.
pub record Reads (p rest : List Cell) (o : Option Got) : Type 0 where
  pub after : MemBuf
  pub returns : o ≡ some (returned_0 p after)
  pub left : unread after ≡ rest
  pub valid : IsValid after

Gets-Reads :
    (p rest : List Cell) (b : MemBuf) (o : Option Got)
    → Gets (length p) b o
    → unread b ≡ p ++ rest
    → Reads p rest o
Gets-Reads p rest b none g e = absurd g
Gets-Reads p rest b (some (returned_0 bytes r)) g e =
    let joined : bytes ++ unread r ≡ p ++ rest = sym g.1 ∙ e in
    record {
      after = r;
      returns =
          ap (λ (l : List Cell). some (returned_0 l r))
            (sym (take-append_eq (length p) bytes (unread r) g.2)
              ∙ ap (take (length p)) joined
              ∙ take-append p rest);
      left =
          sym (drop-append_eq (length p) bytes (unread r) g.2)
          ∙ ap (drop (length p)) joined
          ∙ drop-append p rest;
      valid = g.3;
    }
Gets-Reads p rest b (some (returned_1 r)) g e =
    absurd (omega (arith, g.0, ap length e, length-append p rest))

-- If the unread bytes begin with `p`, reading as many bytes gives `p` and leaves the rest.
pub get_bloc-Reads :
    (p rest : List Cell) (b : MemBuf)
    → IsValid b
    → unread b ≡ p ++ rest
    → Reads p rest (get_bloc (length p) b)
get_bloc-Reads p rest b v e =
    Gets-Reads p rest b (get_bloc (length p) b) (get_bloc-Gets (length p) b v) e
