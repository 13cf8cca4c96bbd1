-- ===== src/Text/Find.antt =====
-- Positions of bytes in texts.
use yat.Common.{
  ℕ, ◌≡◌, ◌≢◌, ◌⊎◌, refl, ap, true, false, [], ◌∷◌, ◌++◌, none, some, arith, ◌==◌, ==_iff, length,
  get_or, All, inl, inr, Bool-cases,
}
use yat.Text.{Bytes, find_char}

abbrev pub Free : ℕ → Bytes → Type 0
Free c s = All (λ x. x ≢ c) s

pub ne→== : (x c : ℕ) → x ≢ c → (x == c) ≡ false
ne→== x c h = ground arith

pub find_char-Free : (c : ℕ) (s : Bytes) → Free c s → find_char c s ≡ none
unfolding find_char
find_char-Free c [] h = refl
find_char-Free c (x ∷ s) h = rw (ne→== x c h.0, find_char-Free c s h.1) refl

pub find_char-append : (c : ℕ) (u v : Bytes) → Free c u → find_char c (u ++ c ∷ v) ≡ some (length u)
unfolding find_char
find_char-append c [] v h = let e : (c == c) ≡ true = ground arith in rw e refl
find_char-append c (x ∷ u) v h =
    rw (ne→== x c h.0, find_char-append c u v h.1) (ap some (omega arith))

pub get_or-append : (u v : Bytes) (d : ℕ) → get_or (u ++ v) (length u) d ≡ get_or v 0 d
get_or-append [] v d = refl
get_or-append (x ∷ u) v d = get_or-append u v d

pub get_or-append_last :
    (u : Bytes) (x : ℕ) (v : Bytes) (d : ℕ) → get_or ((u ++ x ∷ []) ++ v) (length u) d ≡ x
get_or-append_last [] x v d = refl
get_or-append_last (y ∷ u) x v d = get_or-append_last u x v d

-- The first byte `c` of a text, if there is one.
pub first_char :
    (c : ℕ) (s : Bytes) → Free c s ⊎ ((u : Bytes) × (v : Bytes) × Free c u × (s ≡ u ++ c ∷ v))
first_char c [] = inl tt
first_char c (x ∷ s) = elim (Bool-cases (x == c)) [
  | inl e ↦ inr ([], s, tt, ap (λ (y : ℕ). y ∷ s) ((==_iff x c).0 e))
  | inr e ↦
      let differs : x ≢ c = λ (h : x ≡ c). ground (arith, e) in
      elim (first_char c s) [
        | inl free ↦ inl (differs, free)
        | inr (u, v, free, eq) ↦ inr (x ∷ u, v, (differs, free), ap (λ (l : Bytes). x ∷ l) eq)
      ]
]
