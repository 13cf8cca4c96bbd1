-- ===== src/Tokenizer/Find.antt =====
-- What the search for a delimiter finds.
use yat.Common.{
  ℕ, suc, ◌+◌, ◌≤◌, ◌<◌, ◌≡◌, refl, sym, ◌∙◌, ap, true, false, [], ◌∷◌, ◌++◌, none, some, ltb, ◌==◌,
  ==_iff, length, take, drop, arith, Bool-cases, inl, inr, length-drop, length-take, length-append,
}
use yat.Text.{Bytes, shift}
use mathlib.Core.Path.{subst}
use yat.Text.Ends.{shift-some}
use yat.Tokenizer.{is_prefix, find_str, find_from}

pub is_prefix-drop : (d s : Bytes) → is_prefix d s ≡ true → s ≡ d ++ drop (length d) s
is_prefix-drop [] s h = refl
is_prefix-drop (c ∷ d) [] h = cc
is_prefix-drop (c ∷ d) (x ∷ s) h = elim (Bool-cases (c == x)) [
  | inl e ↦
      let same : c ≡ x = (==_iff c x).0 e in
      let tail : is_prefix d s ≡ true = rw e at h in
      ap (λ (y : ℕ). y ∷ s) (sym same) ∙ ap (λ (l : Bytes). c ∷ l) (is_prefix-drop d s tail)
  | inr e ↦ cc (rw e at h)
]

abbrev pub SplitsAt : Bytes → Bytes → ℕ → Type 0
SplitsAt d s p = s ≡ take p s ++ (d ++ drop (p + length d) s)

pub splits_here : (d s : Bytes) → is_prefix d s ≡ true → SplitsAt d s 0
splits_here d s h = is_prefix-drop d s h ∙ ap (λ (n : ℕ). d ++ drop n s) (omega arith)

pub splits_later : (d s : Bytes) (x q : ℕ) → SplitsAt d s q → SplitsAt d (x ∷ s) (suc q)
splits_later d s x q h =
    let same : suc (q + length d) ≡ suc q + length d = omega arith in
    ap (λ (l : Bytes). x ∷ l) h ∙ ap (λ (n : ℕ). x ∷ (take q s ++ (d ++ drop n (x ∷ s)))) same

-- What stands at the position that `find` answers.
pub find_str-Found : (d s : Bytes) (p : ℕ) → find_str d s ≡ some p → SplitsAt d s p
unfolding find_str
find_str-Found d [] p h = elim (Bool-cases (is_prefix d [])) [
  | inl e ↦
      let first : some 0 ≡ some p = rw e at h in
      let at_once : 0 ≡ p = cc in subst (SplitsAt d []) at_once (splits_here d [] e)
  | inr e ↦ cc (rw e at h)
]
find_str-Found d (x ∷ s) p h = elim (Bool-cases (is_prefix d (x ∷ s))) [
  | inl e ↦
      let first : some 0 ≡ some p = rw e at h in
      let at_once : 0 ≡ p = cc in subst (SplitsAt d (x ∷ s)) at_once (splits_here d (x ∷ s) e)
  | inr e ↦
      let later : shift 1 (find_str d s) ≡ some p = rw e at h in
      let (q, found, moved) = shift-some 1 p (find_str d s) later in
      let next : suc q ≡ p = omega arith in
      subst (SplitsAt d (x ∷ s)) next (splits_later d s x q (find_str-Found d s q found))
]

-- Behind a delimiter less is left.
pub left-shorter :
    (d s : Bytes) (p x : ℕ) → 0 < length d → length (drop (p + length d) (x ∷ s)) ≤ length s
left-shorter d s p x h = omega (arith, length-drop (p + length d) (x ∷ s))

pub find_from-drop :
    (d s r : Bytes) (pos : ℕ)
    → pos ≤ length s
    → drop pos s ≡ r
    → find_from d s pos ≡ shift pos (find_str d r)
unfolding find_from
find_from-drop d s r pos inside e =
    let not_past : ltb (length s) pos ≡ false = ground arith in rw (not_past, e) refl

pub find_str-nil : (d : Bytes) → 0 < length d → find_str d [] ≡ none
unfolding find_str
find_str-nil [] h = absurd (omega arith)
find_str-nil (c ∷ d) h = refl

pub found_inside :
    (d s : Bytes) (p : ℕ) → 0 < length d → find_str d s ≡ some p → p + length d ≤ length s
found_inside d s p h e =
    let parts = ap length (find_str-Found d s p e) in
    omega (
      arith,
      parts,
      length-append (take p s) (d ++ drop (p + length d) s),
      length-append d (drop (p + length d) s),
      length-take p s,
      length-drop (p + length d) s,
    )

pub find_str-empty : (r : Bytes) → find_str [] r ≡ some 0
unfolding find_str
find_str-empty [] = refl
find_str-empty (x ∷ r) = refl
