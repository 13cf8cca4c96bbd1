-- ===== src/MemBuf/Compare.antt =====
-- The comparison of two buffers: MemBuf::operator==.
use yat.Common.{
  ℕ, ◌≡◌, ◌≢◌, ◌⊎◌, refl, sym, ap, ap₂, ◌∙◌, Bool, true, false, List, [], ◌∷◌, Option, none, some,
  map, arith, ◌==◌, ==_iff, if◌then◌else◌, length, drop, length-map, get_or, Bool-cases, inl, inr,
}
use yat.MemBuf.{MemBuf, Cell, cells, read_at, ◌>>=◌}
use yat.MemBuf.Room.{IsValid, contents, length-contents}
use yat.MemBuf.Copy.{read_contents}

-- `memcmp`, of which a byte that is not written has no result.
unfoldable pub same_cells : List Cell → List Cell → Option Bool
same_cells [] [] = some true
same_cells (some x ∷ xs) (some y ∷ ys) = elim (x == y) [
  | true ↦ same_cells xs ys
  | false ↦ some false
]
same_cells xs ys = none

unfoldable pub equal : MemBuf → MemBuf → Option Bool
equal a b =
    if a.len == b.len
    then (read_at 0 a.len (cells a) >>= λ xs. read_at 0 a.len (cells b) >>= λ ys. same_cells xs ys)
    else some false

-- A comparison that finds out whether two sequences of bytes are equal.
abbrev pub Compares : List ℕ → List ℕ → Option Bool → Type 0
Compares p q o = ((o ≡ some true) × (p ≡ q)) ⊎ ((o ≡ some false) × (p ≢ q))

same_cells-Compares :
    (p q : List ℕ) → length p ≡ length q → Compares p q (same_cells (map some p) (map some q))
unfolding same_cells
same_cells-Compares [] [] h = inl (refl, refl)
same_cells-Compares [] (y ∷ q) h = absurd (omega arith)
same_cells-Compares (x ∷ p) [] h = absurd (omega arith)
same_cells-Compares (x ∷ p) (y ∷ q) h = elim (Bool-cases (x == y)) [
  | inl e ↦
      let head : x ≡ y = (==_iff x y).0 e in
      elim (same_cells-Compares p q (omega arith)) [
        | inl (same, tail) ↦ inl (rw (e, same_cells) same, ap₂ ◌∷◌ head tail)
        | inr (other, ne) ↦ inr (rw (e, same_cells) other, λ eq. ne (ap (drop 1) eq))
      ]
  | inr e ↦ inr (
    rw (e, same_cells) refl,
    λ eq. let head : x ≡ y = ap (λ (l : List ℕ). get_or l 0 0) eq in ground (arith, e),
  )
]

-- operator== tells whether two buffers of written bytes hold the same, wherever they are read.
pub equal-Compares :
    (p q : List ℕ) (a b : MemBuf)
    → IsValid a
    → IsValid b
    → contents a ≡ map some p
    → contents b ≡ map some q
    → Compares p q (equal a b)
unfolding equal
equal-Compares p q a b v w left right =
    let size_a : length p ≡ a.len =
      sym (length-map p some) ∙ ap length (sym left) ∙ length-contents a v in
    let size_b : length q ≡ b.len =
      sym (length-map q some) ∙ ap length (sym right) ∙ length-contents b w in
    elim (Bool-cases (a.len == b.len)) [
      | inl e ↦
          let same : a.len ≡ b.len = (==_iff a.len b.len).0 e in
          let read_b : read_at 0 a.len (cells b) ≡ some (map some q) =
            ap (λ (n : ℕ). read_at 0 n (cells b)) same ∙ read_contents b w ∙ ap some right in
          rw (e, read_contents a v, read_b, left)
            (same_cells-Compares p q (omega (arith, size_a, size_b, same)))
      | inr e ↦ inr (rw e refl, λ eq. ground (arith, e, size_a, size_b, ap length eq))
    ]
