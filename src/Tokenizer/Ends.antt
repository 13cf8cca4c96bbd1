-- ===== src/Tokenizer/Ends.antt =====
-- The loops of the constructor of the tokenizer end: the fuel that the model gives them is enough.
use yat.Common.{
  ℕ, zero, suc, ◌+◌, ◌≤◌, ◌<◌, ◌≡◌, refl, sym, ◌∙◌, true, false, Option, none, some, ltb, ==_iff,
  length, take, drop, arith, Bool-cases, Option-cases, inl, inr, length-drop, length-take,
  length-append,
}
use yat.Text.{Bytes, shift}
use yat.Text.Ends.{shift-some}
use yat.Tokenizer.{find_str, find_from, erase, is_at, erase_repeated, merge_loop}
use yat.Tokenizer.Find.{found_inside}

find_from-Inside :
    (d s : Bytes) (pos p : ℕ)
    → 0 < length d
    → find_from d s pos ≡ some p
    → (pos ≤ p) × (p + length d ≤ length s)
unfolding find_from
find_from-Inside d s pos p long h = elim (Bool-cases (ltb (length s) pos)) [
  | inl e ↦ cc (rw e at h)
  | inr e ↦
      let there : shift pos (find_str d (drop pos s)) ≡ some p = rw e at h in
      let (q, found, moved) = shift-some pos p (find_str d (drop pos s)) there in
      let ends = found_inside d (drop pos s) q long found in
      (omega arith, omega (arith, length-drop pos s))
]

is_at-some : (o : Option ℕ) (pos : ℕ) → is_at o pos ≡ true → o ≡ some pos
is_at-some none pos h = cc
is_at-some (some i) pos h = let same : i ≡ pos = (==_iff i pos).0 h in rw same refl

-- An occurrence at `pos` that is erased makes the text shorter.
erased :
    (d s : Bytes) (pos : ℕ)
    → 0 < length d
    → is_at (find_from d s pos) pos ≡ true
    → length (erase s pos (length d)) + length d ≡ length s
erased d s pos long h =
    let (_, inside) = find_from-Inside d s pos pos long (is_at-some (find_from d s pos) pos h) in
    omega (
      arith,
      length-append (take pos s) (drop (pos + length d) s),
      length-take pos s,
      length-drop (pos + length d) s,
    )

erase_repeated-stops :
    (fuel : ℕ) (d s : Bytes) (pos : ℕ)
    → is_at (find_from d s pos) pos ≡ false
    → erase_repeated fuel d s pos ≡ s
unfolding erase_repeated
erase_repeated-stops zero d s pos h = refl
erase_repeated-stops (suc fuel) d s pos h = rw h refl

erase_repeated-goes :
    (fuel : ℕ) (d s : Bytes) (pos : ℕ)
    → is_at (find_from d s pos) pos ≡ true
    → erase_repeated (suc fuel) d s pos ≡ erase_repeated fuel d (erase s pos (length d)) pos
unfolding erase_repeated
erase_repeated-goes fuel d s pos h = rw h refl

erase_repeated-enough :
    (f g : ℕ) (d s : Bytes) (pos : ℕ)
    → 0 < length d
    → length s ≤ f
    → length s ≤ g
    → erase_repeated f d s pos ≡ erase_repeated g d s pos
erase_repeated-enough zero zero d s pos long h k = refl
erase_repeated-enough zero (suc g) d s pos long h k =
    elim (Bool-cases (is_at (find_from d s pos) pos)) [
      | inl e ↦ let less = erased d s pos long e in absurd (omega arith)
      | inr e ↦ erase_repeated-stops zero d s pos e ∙ sym (erase_repeated-stops (suc g) d s pos e)
    ]
erase_repeated-enough (suc f) zero d s pos long h k =
    elim (Bool-cases (is_at (find_from d s pos) pos)) [
      | inl e ↦ let less = erased d s pos long e in absurd (omega arith)
      | inr e ↦ erase_repeated-stops (suc f) d s pos e ∙ sym (erase_repeated-stops zero d s pos e)
    ]
erase_repeated-enough (suc f) (suc g) d s pos long h k =
    elim (Bool-cases (is_at (find_from d s pos) pos)) [
      | inl e ↦
          let less = erased d s pos long e in
          erase_repeated-goes f d s pos e
          ∙ erase_repeated-enough f g d (erase s pos (length d)) pos long (omega arith)
              (omega arith)
          ∙ sym (erase_repeated-goes g d s pos e)
      | inr e ↦
          erase_repeated-stops (suc f) d s pos e ∙ sym (erase_repeated-stops (suc g) d s pos e)
    ]

erase_repeated-le :
    (f : ℕ) (d s : Bytes) (pos : ℕ) → 0 < length d → length (erase_repeated f d s pos) ≤ length s
erase_repeated-le zero d s pos long = unfold erase_repeated in omega arith
erase_repeated-le (suc f) d s pos long = elim (Bool-cases (is_at (find_from d s pos) pos)) [
  | inl e ↦
      let less = erased d s pos long e in
      let rest = erase_repeated-le f d (erase s pos (length d)) pos long in
      rw (erase_repeated-goes f d s pos e) (omega arith)
  | inr e ↦ rw (erase_repeated-stops (suc f) d s pos e) (omega arith)
]

merge_loop-stops :
    (fuel : ℕ) (d s : Bytes) (pos : ℕ) → find_from d s pos ≡ none → merge_loop fuel d s pos ≡ s
unfolding merge_loop
merge_loop-stops zero d s pos h = refl
merge_loop-stops (suc fuel) d s pos h = rw (h, merge_loop) refl

merge_loop-goes :
    (fuel : ℕ) (d s : Bytes) (pos p : ℕ)
    → find_from d s pos ≡ some p
    → merge_loop (suc fuel) d s pos
      ≡ merge_loop fuel d (erase_repeated (length s) d s (p + length d)) (p + length d)
unfolding merge_loop
merge_loop-goes fuel d s pos p h = rw (h, merge_loop) refl

merge_loop-enough :
    (f g : ℕ) (d s : Bytes) (pos : ℕ)
    → 0 < length d
    → length s ≤ pos + f
    → length s ≤ pos + g
    → merge_loop f d s pos ≡ merge_loop g d s pos
merge_loop-enough zero zero d s pos long h k = refl
merge_loop-enough zero (suc g) d s pos long h k = elim (Option-cases (find_from d s pos)) [
  | inl e ↦ merge_loop-stops zero d s pos e ∙ sym (merge_loop-stops (suc g) d s pos e)
  | inr (p, e) ↦ let (low, high) = find_from-Inside d s pos p long e in absurd (omega arith)
]
merge_loop-enough (suc f) zero d s pos long h k = elim (Option-cases (find_from d s pos)) [
  | inl e ↦ merge_loop-stops (suc f) d s pos e ∙ sym (merge_loop-stops zero d s pos e)
  | inr (p, e) ↦ let (low, high) = find_from-Inside d s pos p long e in absurd (omega arith)
]
merge_loop-enough (suc f) (suc g) d s pos long h k = elim (Option-cases (find_from d s pos)) [
  | inl e ↦ merge_loop-stops (suc f) d s pos e ∙ sym (merge_loop-stops (suc g) d s pos e)
  | inr (p, e) ↦
      let (low, high) = find_from-Inside d s pos p long e in
      let shorter = erase_repeated-le (length s) d s (p + length d) long in
      merge_loop-goes f d s pos p e
      ∙ merge_loop-enough f g d (erase_repeated (length s) d s (p + length d)) (p + length d) long
          (omega arith) (omega arith)
      ∙ sym (merge_loop-goes g d s pos p e)
]

-- With a delimiter that is not empty both loops of the constructor end, each after at most as many
-- rounds as the text has bytes: with that much fuel or more they yield what they yield with the
-- fuel of the model, and never a longer text.
pub constructor-Ends :
    (d s : Bytes) (f pos : ℕ)
    → 0 < length d
    → length s ≤ f
    → (erase_repeated f d s pos ≡ erase_repeated (length s) d s pos)
      × (length (erase_repeated f d s pos) ≤ length s)
      × (merge_loop f d s 0 ≡ merge_loop (length s) d s 0)
constructor-Ends d s f pos long h = (
  erase_repeated-enough f (length s) d s pos long h (omega arith),
  erase_repeated-le f d s pos long,
  merge_loop-enough f (length s) d s 0 long (omega arith) (omega arith),
)
