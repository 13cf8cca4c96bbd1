-- ===== src/FileName/Last.antt =====
-- The last place of a byte in a text.
use yat.Common.{
  ℕ, ◌+◌, ◌<◌, ◌≡◌, refl, sym, ap, ap₂, ◌∙◌, true, [], ◌∷◌, ◌++◌, none, some, ◌==◌, length, arith,
  Option-cases, Bool-cases, inl, inr,
}
use yat.Text.{Bytes}
use yat.Text.Find.{Free, ne→==}
use yat.FileName.{find_last_of, last_of, or_else}

-- A byte that does not stand in `v` is looked for in `u`.
pub find_last_of-before :
    (c : ℕ) (u v : Bytes) → Free c v → find_last_of c (u ++ v) ≡ find_last_of c u
unfolding find_last_of
find_last_of-before c [] [] h = refl
find_last_of-before c [] (y ∷ v) h = ap₂ last_of (ne→== y c h.0) (find_last_of-before c [] v h.1)
find_last_of-before c (x ∷ u) v h = ap (last_of (x == c)) (find_last_of-before c u v h)

pub find_last_of-here :
    (c : ℕ) (u v : Bytes) → Free c v → find_last_of c (u ++ c ∷ v) ≡ some (length u)
unfolding find_last_of
find_last_of-here c [] v h =
    let e : (c == c) ≡ true = ground arith in ap₂ last_of e (find_last_of-before c [] v h)
find_last_of-here c (x ∷ u) v h =
    ap (last_of (x == c)) (find_last_of-here c u v h) ∙ ap some (omega arith)

pub find_last_of-small : (c : ℕ) (u : Bytes) (i : ℕ) → find_last_of c u ≡ some i → i < length u
unfolding find_last_of
find_last_of-small c [] i h = cc
find_last_of-small c (x ∷ u) i h = elim (Option-cases (find_last_of c u)) [
  | inr (k, e) ↦
      let next : some (k + 1) ≡ some i = ap (last_of (x == c)) (sym e) ∙ h in
      let same : k + 1 ≡ i = ap (or_else 0) next in omega (arith, find_last_of-small c u k e)
  | inl e ↦
      let first : last_of (x == c) none ≡ some i = ap (last_of (x == c)) (sym e) ∙ h in
      let zeroth : or_else 0 (last_of (x == c) none) ≡ i = ap (or_else 0) first in
      elim (Bool-cases (x == c)) [
        | inl f ↦ omega (arith, ap (λ b. or_else 0 (last_of b none)) (sym f) ∙ zeroth)
        | inr f ↦ omega (arith, ap (λ b. or_else 0 (last_of b none)) (sym f) ∙ zeroth)
      ]
]
