-- ===== src/Text/Maps.antt =====
-- std::map with keys of type std::string, as functions: their order is not modelled.
use yat.Common.{
  ℕ, ◌≡◌, refl, Bool, true, false, ◌&&◌, [], ◌∷◌, Option, none, some, ◌==◌, ==_iff, if◌then◌else◌,
  Bool-cases, inl, inr, ap₂, arith,
}
use yat.Text.{Bytes}

abbrev pub same : Bytes → Bytes → Bool
same [] [] = true
same [] (y ∷ t) = false
same (x ∷ s) [] = false
same (x ∷ s) (y ∷ t) = let rest = same s t in (x == y) && rest

abbrev pub Map {ℓ} : Type ℓ → Type ℓ
Map A = Bytes → Option A

abbrev pub no_keys {ℓ} : {A : Type ℓ} → Map A
no_keys k = none

abbrev pub insert {ℓ} : {A : Type ℓ} → Bytes → A → Map A → Map A
insert k a m q = if same q k then some a else m q

pub same_self : (s : Bytes) → same s s ≡ true
same_self [] = refl
same_self (x ∷ s) = let e : (x == x) ≡ true = ground arith in rw (e, same_self s) refl

pub same→≡ : (s t : Bytes) → same s t ≡ true → s ≡ t
same→≡ [] [] h = refl
same→≡ [] (y ∷ t) h = cc
same→≡ (x ∷ s) [] h = cc
same→≡ (x ∷ s) (y ∷ t) h = elim (Bool-cases (x == y)) [
  | inl e ↦ ap₂ (λ (z : ℕ) (l : Bytes). z ∷ l) ((==_iff x y).0 e) (same→≡ s t (rw e at h))
  | inr e ↦ cc (rw e at h)
]
