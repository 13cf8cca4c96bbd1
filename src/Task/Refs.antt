-- ===== src/Task/Refs.antt =====
-- Reference counts: yat::SharedObject (src/threading/SharedObject.cpp), from which messages derive.
-- `reference_count_` is an int, kept here as the word of 32 bits that stands for it.
use yat.Common.{
  ℕ, ◌+◌, ◌-◌, ◌^◌, ◌<◌, ◌≡◌, refl, ◌∙◌, ap, Bool, true, false, ◌&&◌, List, [], ◌∷◌, ◌==◌,
  if◌then◌else◌, arith, add32, sub32,
}

-- `answers` records what the calls of `release` returned, the last one first.
pub record SharedObject : Type 0 where
  pub reference_count : ℕ
  pub deleted : Bool
  pub answers : List ℕ

unfoldable pub created : SharedObject
created = record { reference_count = 1; deleted = false; answers = [] }

unfoldable pub duplicate : SharedObject → SharedObject
duplicate o = record o { reference_count = add32 o.reference_count 1 }

unfoldable pub release_i : SharedObject → SharedObject
release_i o = record o { reference_count = sub32 o.reference_count 1 }

-- `more_ref` is null.
abbrev pub is_last : SharedObject → Bool
is_last o = o.reference_count == 0

unfoldable pub release : Bool → SharedObject → SharedObject
unfolding release_i
release commit_suicide o =
    let o1 = release_i o in
    record o1 {
      deleted = if is_last o1 && commit_suicide then true else o1.deleted;
      answers = (if is_last o1 then 0 else 1) ∷ o1.answers;
    }

pub data Op : Type 0 where
  duplicates : Op
  releases : (commit_suicide : Bool) → Op

abbrev pub apply : Op → SharedObject → SharedObject
apply duplicates o = duplicate o
apply (releases c) o = release c o

abbrev pub apply_all : List Op → SharedObject → SharedObject
apply_all [] o = o
apply_all (op ∷ ops) o = apply_all ops (apply op o)

-- The number of references that are held, and the histories in which only a holder acts.
abbrev pub holders : List Op → ℕ → ℕ
holders [] n = n
holders (duplicates ∷ ops) n = holders ops (n + 1)
holders (releases c ∷ ops) n = holders ops (n - 1)

abbrev pub IsLegal : List Op → ℕ → Type 0
IsLegal [] n = Unit {0}
IsLegal (duplicates ∷ ops) n = (0 < n) × IsLegal ops (n + 1)
IsLegal (releases c ∷ ops) n = (0 < n) × IsLegal ops (n - 1)

-- Never `bound` references or more, from `n` on.
abbrev pub StaysBelow : ℕ → List Op → ℕ → Type 0
StaysBelow bound [] n = n < bound
StaysBelow bound (duplicates ∷ ops) n = (n < bound) × StaysBelow bound ops (n + 1)
StaysBelow bound (releases c ∷ ops) n = (n < bound) × StaysBelow bound ops (n - 1)

-- The last operation is a release that may delete the object.
abbrev pub ends_committed : List Op → Bool
ends_committed [] = false
ends_committed (duplicates ∷ []) = false
ends_committed (releases c ∷ []) = c
ends_committed (op ∷ next ∷ ops) = ends_committed (next ∷ ops)

-- An object in use with `n` references.
abbrev pub HasRefs : ℕ → SharedObject → Type 0
HasRefs n o = (o.reference_count ≡ n) × (o.deleted ≡ false)

if_true : (b : Bool) → (if b then true else false) ≡ b
if_true true = refl
if_true false = refl

add32-small : (n : ℕ) → n + 1 < 2 ^ 31 → add32 n 1 ≡ n + 1
add32-small n h = omega arith

sub32-small : (n : ℕ) → n + 1 < 2 ^ 31 → sub32 (n + 1) 1 ≡ n
sub32-small n h = omega arith

duplicate-HasRefs :
    (n : ℕ) (o : SharedObject) → n + 1 < 2 ^ 31 → HasRefs n o → HasRefs (n + 1) (duplicate o)
unfolding duplicate
duplicate-HasRefs n o h (c, d) = (ap (λ k. add32 k 1) c ∙ add32-small n h, d)

-- A release by one of `n + 1` holders.
release-HasRefs :
    (n : ℕ) (commit : Bool) (o : SharedObject)
    → n + 1 < 2 ^ 31
    → HasRefs (n + 1) o
    → ((release commit o).reference_count ≡ n) × ((release commit o).deleted ≡ ((n == 0) && commit))
unfolding release release_i
release-HasRefs n commit o h (c, d) =
    let left : sub32 o.reference_count 1 ≡ n = ap (λ k. sub32 k 1) c ∙ sub32-small n h in
    (left, rw left (rw d (if_true ((n == 0) && commit))))

not_zero : (n : ℕ) → 0 < n → (n == 0) ≡ false
not_zero n h = ground arith

before : (n : ℕ) → 0 < n → n ≡ (n - 1) + 1
before n h = omega arith

IsLegal-held : (op : Op) (ops : List Op) (n : ℕ) → IsLegal (op ∷ ops) n → 0 < n
IsLegal-held duplicates ops n (p, legal) = p
IsLegal-held (releases c) ops n (p, legal) = p

StaysBelow-now : (bound : ℕ) (ops : List Op) (n : ℕ) → StaysBelow bound ops n → n < bound
StaysBelow-now bound [] n h = h
StaysBelow-now bound (duplicates ∷ ops) n h = h.0
StaysBelow-now bound (releases c ∷ ops) n h = h.0

-- While only holders of a reference duplicate and release it and fewer than 2 ^ 31 references
-- are held at any time, an object with `n` references is there until its last holder releases it: the
-- count is the number of the holders, and the object is deleted if and only if the last reference
-- went with a release that was to delete it.
pub apply_all-IsLegal :
    (ops : List Op) (n : ℕ) (o : SharedObject)
    → IsLegal ops n
    → 0 < n
    → StaysBelow (2 ^ 31) ops n
    → HasRefs n o
    → ((apply_all ops o).reference_count ≡ holders ops n)
      × ((apply_all ops o).deleted ≡ ((holders ops n == 0) && ends_committed ops))
apply_all-IsLegal [] n o legal pos small (c, d) = (c, d ∙ rw (not_zero n pos) refl)
apply_all-IsLegal (duplicates ∷ []) n o (p, legal) pos (now, small) refs =
    apply_all-IsLegal [] (n + 1) (duplicate o) legal (omega arith) small
      (duplicate-HasRefs n o small refs)
apply_all-IsLegal (duplicates ∷ next ∷ ops) n o (p, legal) pos (now, small) refs =
    apply_all-IsLegal (next ∷ ops) (n + 1) (duplicate o) legal (omega arith) small
      (duplicate-HasRefs n o (StaysBelow-now (2 ^ 31) (next ∷ ops) (n + 1) small) refs)
apply_all-IsLegal (releases c ∷ []) n o legal pos (now, small) refs =
    release-HasRefs (n - 1) c o (omega arith) (refs.0 ∙ before n pos, refs.1)
apply_all-IsLegal (releases c ∷ next ∷ ops) n o (p, legal) pos (now, small) refs =
    let left = release-HasRefs (n - 1) c o (omega arith) (refs.0 ∙ before n pos, refs.1) in
    let held = IsLegal-held next ops (n - 1) legal in
    apply_all-IsLegal (next ∷ ops) (n - 1) (release c o) legal held small
      (left.0, left.1 ∙ rw (not_zero (n - 1) held) refl)
