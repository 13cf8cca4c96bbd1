-- ===== src/Text/Trim.antt =====
-- White space around a text: StringUtil::trim, trim_left, trim_right (src/utils/String.cpp).
use mathlib.Core.List.{append_assoc, append-nil}
use yat.Common.{
  ℕ, zero, suc, ◌+◌, ◌-◌, ◌≤◌, ◌<◌, ◌≡◌, refl, sym, ap, ◌∙◌, Bool, true, false, not, ◌&&◌, [], ◌∷◌,
  ◌++◌, leb, if◌then◌else◌, length, take, drop, arith, All, All-append, Bool-cases, inl, inr,
  length-append, take-append_eq, drop-append_eq,
}
use yat.Text.{Bytes, is_empty, is_space, at}

-- The first loop: the number of the white bytes at the beginning.
abbrev pub first_no_white : Bytes → ℕ
first_no_white [] = 0
first_no_white (x ∷ s) = let rest = first_no_white s in if is_space x then suc rest else 0

-- The second loop, from the position `last` down to `first`.
unfoldable pub last_no_white : ℕ → ℕ → Bytes → ℕ
last_no_white first zero s = zero
last_no_white first (suc last) s =
    let rest = last_no_white first last s in
    if leb (suc last) first then suc last else if is_space (at s (suc last)) then rest else suc last

unfoldable pub trim : Bytes → Bytes
unfolding last_no_white
trim s =
    if is_empty s
    then s
    else let first = first_no_white s in
      take (last_no_white first (length s - 1) s + 1 - first) (drop first s)

unfoldable pub trim_left : Bytes → Bytes
trim_left s = drop (first_no_white s) s

-- The loop ends at the position 0 whatever stands there.
unfoldable pub trim_right : Bytes → Bytes
unfolding last_no_white
trim_right s = if is_empty s then s else take (last_no_white 0 (length s - 1) s + 1) s

abbrev pub White : Bytes → Type 0
White s = All (λ x. is_space x ≡ true) s

-- Bytes between two that are not white, or nothing.
abbrev pub starts_black : Bytes → Bool
starts_black [] = false
starts_black (x ∷ s) = not (is_space x)

abbrev pub ends_black : Bytes → Bool
ends_black [] = false
ends_black (x ∷ []) = not (is_space x)
ends_black (x ∷ y ∷ s) = ends_black (y ∷ s)

abbrev pub is_trimmed : Bytes → Bool
is_trimmed [] = true
is_trimmed (x ∷ s) = starts_black (x ∷ s) && ends_black (x ∷ s)

first-White : (w t : Bytes) → White w → first_no_white (w ++ t) ≡ length w + first_no_white t
first-White [] t h = omega arith
first-White (x ∷ w) t (e, h) = rw e (omega (arith, first-White w t h))

first-black : (t : Bytes) → starts_black t ≡ true → first_no_white t ≡ 0
first-black [] h = cc
first-black (x ∷ t) h = elim (Bool-cases (is_space x)) [
  | inl e ↦ cc (rw e at h)
  | inr e ↦ rw e refl
]

at-append_right : (u v : Bytes) (m : ℕ) → at (u ++ v) (length u + m) ≡ at v m
at-append_right [] v m = let e : 0 + m ≡ m = omega arith in ap (at v) e
at-append_right (x ∷ u) v m =
    let e : suc (length u) + m ≡ suc (length u + m) = omega arith in
    ap (at (x ∷ (u ++ v))) e ∙ at-append_right u v m

at-append_left : (u v : Bytes) (m : ℕ) → m < length u → at (u ++ v) m ≡ at u m
at-append_left [] v m h = absurd (omega arith)
at-append_left (x ∷ u) v zero h = refl
at-append_left (x ∷ u) v (suc m) h = at-append_left u v m (omega arith)

at-White : (w : Bytes) (m : ℕ) → White w → m < length w → is_space (at w m) ≡ true
at-White [] m h below = absurd (omega arith)
at-White (x ∷ w) zero (e, h) below = e
at-White (x ∷ w) (suc m) (e, h) below = at-White w m h (omega arith)

at-end : (t : Bytes) → ends_black t ≡ true → is_space (at t (length t - 1)) ≡ false
at-end [] h = cc
at-end (x ∷ []) h = ground arith
at-end (x ∷ y ∷ t) h =
    let e : suc (suc (length t)) - 1 ≡ suc (suc (length t) - 1) = omega arith in
    ap (λ (k : ℕ). is_space (at (x ∷ y ∷ t) k)) e ∙ at-end (y ∷ t) h

last-black : (first k : ℕ) (s : Bytes) → is_space (at s k) ≡ false → last_no_white first k s ≡ k
unfolding last_no_white
last-black first zero s h = refl
last-black first (suc k) s h = elim (Bool-cases (leb (suc k) first)) [
  | inl e ↦ rw e refl
  | inr e ↦ rw (e, h) refl
]

last-white :
    (first k : ℕ) (s : Bytes)
    → first < suc k
    → is_space (at s (suc k)) ≡ true
    → last_no_white first (suc k) s ≡ last_no_white first k s
unfolding last_no_white
last-white first k s below h =
    let past : leb (suc k) first ≡ false = ground arith in rw (past, h) refl

-- The second loop passes the white bytes `w` behind `u`.
last-White :
    (first m : ℕ) (u w : Bytes)
    → White w
    → ends_black u ≡ true
    → first < length u
    → m ≤ length w
    → last_no_white first (length u - 1 + m) (u ++ w) ≡ length u - 1
last-White first zero u w h black below room =
    let e : length u - 1 + 0 ≡ length u - 1 = omega arith in
    ap (λ (k : ℕ). last_no_white first k (u ++ w)) e
    ∙ last-black first (length u - 1) (u ++ w)
        (ap is_space (at-append_left u w (length u - 1) (omega arith)) ∙ at-end u black)
last-White first (suc m) u w h black below room =
    let e : length u - 1 + suc m ≡ suc (length u - 1 + m) = omega arith in
    let f : suc (length u - 1 + m) ≡ length u + m = omega arith in
    ap (λ (k : ℕ). last_no_white first k (u ++ w)) e
    ∙ last-white first (length u - 1 + m) (u ++ w) (omega arith) (
        ap (λ (k : ℕ). is_space (at (u ++ w) k)) f
        ∙ ap is_space (at-append_right u w m)
        ∙ at-White w m h (omega arith))
    ∙ last-White first m u w h black below (omega arith)

ends_black-append : (u t : Bytes) → ends_black t ≡ true → ends_black (u ++ t) ≡ true
ends_black-append [] t h = h
ends_black-append (x ∷ []) [] h = cc
ends_black-append (x ∷ []) (y ∷ t) h = h
ends_black-append (x ∷ y ∷ u) t h = ends_black-append (y ∷ u) t h

starts-append : (t w : Bytes) → starts_black t ≡ true → starts_black (t ++ w) ≡ true
starts-append [] w h = cc
starts-append (x ∷ t) w h = h

drop-all : (s : Bytes) → drop (length s) s ≡ []
drop-all [] = refl
drop-all (x ∷ s) = drop-all s

take-nil : (n : ℕ) → ◌≡◌ {A = Bytes} (take n []) []
take-nil zero = refl
take-nil (suc n) = refl

both : (a b : Bool) → (a && b) ≡ true → (a ≡ true) × (b ≡ true)
both a b h = ground arith

is_empty-long : (s : Bytes) → 0 < length s → is_empty s ≡ false
is_empty-long [] h = absurd (omega arith)
is_empty-long (x ∷ s) h = refl

-- What `trim` takes, from what its loops find.
trim-between :
    (s : Bytes) (first last n : ℕ)
    → 0 < length s
    → first_no_white s ≡ first
    → last_no_white first (length s - 1) s ≡ last
    → last + 1 - first ≡ n
    → trim s ≡ take n (drop first s)
unfolding trim
trim-between s first last n long f l e = rw (is_empty-long s long, f, l, e) refl

trim-black :
    (v t w : Bytes)
    → White v
    → White w
    → starts_black t ≡ true
    → ends_black t ≡ true
    → 0 < length t
    → trim (v ++ (t ++ w)) ≡ t
trim-black v t w hv hw starts ends long =
    let whole : v ++ (t ++ w) ≡ (v ++ t) ++ w = sym (append_assoc v t w) in
    let size : length (v ++ (t ++ w)) ≡ length v + (length t + length w) =
      length-append v (t ++ w) ∙ ap (λ (k : ℕ). length v + k) (length-append t w) in
    let inner = length-append v t in
    let first : first_no_white (v ++ (t ++ w)) ≡ length v =
      first-White v (t ++ w) hv
      ∙ ap (λ (k : ℕ). length v + k) (first-black (t ++ w) (starts-append t w starts))
      ∙ omega arith in
    let last_at : length (v ++ (t ++ w)) - 1 ≡ length (v ++ t) - 1 + length w = omega arith in
    let last : last_no_white (length v) (length (v ++ (t ++ w)) - 1) (v ++ (t ++ w))
        ≡ length (v ++ t) - 1 =
      ap (λ (k : ℕ). last_no_white (length v) k (v ++ (t ++ w))) last_at
      ∙ ap (last_no_white (length v) (length (v ++ t) - 1 + length w)) whole
      ∙ last-White (length v) (length w) (v ++ t) w hw (ends_black-append v t ends) (omega arith)
          (omega arith) in
    trim-between (v ++ (t ++ w)) (length v) (length (v ++ t) - 1) (length t) (omega arith) first
      last (omega arith)
    ∙ ap (take (length t)) (drop-append_eq (length v) v (t ++ w) refl)
    ∙ take-append_eq (length t) t w refl

trim-White : (w : Bytes) → White w → trim w ≡ []
trim-White [] h = unfold trim in refl
trim-White (x ∷ w) h =
    let first : first_no_white (x ∷ w) ≡ length (x ∷ w) =
      ap first_no_white (sym (append-nil (x ∷ w))) ∙ first-White (x ∷ w) [] h ∙ omega arith in
    trim-between (x ∷ w) (length (x ∷ w))
      (last_no_white (length (x ∷ w)) (length (x ∷ w) - 1) (x ∷ w))
      (last_no_white (length (x ∷ w)) (length (x ∷ w) - 1) (x ∷ w) + 1 - length (x ∷ w))
      (omega arith) first refl refl
    ∙ ap (take (last_no_white (length (x ∷ w)) (length (x ∷ w) - 1) (x ∷ w) + 1 - length (x ∷ w)))
        (drop-all (x ∷ w))
    ∙ take-nil (last_no_white (length (x ∷ w)) (length (x ∷ w) - 1) (x ∷ w) + 1 - length (x ∷ w))

-- `trim` takes off any white space around a text that neither begins nor ends with a white byte,
-- and leaves nothing of a text that is all white.
pub trim-padded :
    (v t w : Bytes) → White v → White w → is_trimmed t ≡ true → trim (v ++ (t ++ w)) ≡ t
trim-padded v [] w hv hw h = trim-White (v ++ w) (All-append (λ x. is_space x ≡ true) v w hv hw)
trim-padded v (x ∷ t) w hv hw h =
    let (starts, ends) = both (starts_black (x ∷ t)) (ends_black (x ∷ t)) h in
    trim-black v (x ∷ t) w hv hw starts ends (omega arith)
