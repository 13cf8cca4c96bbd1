-- ===== src/Text/Items.antt =====
-- An item taken out of a text of fields: StringUtil::remove_item (src/utils/String.cpp).
use mathlib.Core.Path.{subst}
use mathlib.Core.List.{append-nil}
use yat.Common.{
  ℕ, ◌≡◌, ◌≢◌, refl, sym, ap, ap₂, ◌∙◌, Bool, true, false, ◌||◌, List, [], ◌∷◌, ◌++◌, map, Option,
  none, some, ◌==◌, if◌then◌else◌, All, All-split, Bool-cases, inl, inr, arith,
}
use yat.Text.{Bytes, backslash, split, join, shift}
use yat.Text.Find.{Free}
use yat.Text.Maps.{same, same→≡}
use yat.Text.Split.{escaped-Free, split-join}
use yat.Text.Scan.{escaped}
use yat.Tokenizer.{is_prefix, find_str}

abbrev pub is_found : Option ℕ → Bool
is_found none = false
is_found (some i) = true

pub record Removed : Type 0 where
  pub text : Bytes
  pub was_there : Bool

abbrev pub cons_some : Bytes → Option (List Bytes) → Option (List Bytes)
cons_some t none = none
cons_some t (some ts) = some (t ∷ ts)

-- The loop over the fields, up to the first one that is the item.
unfoldable pub erase_item : Bytes → List Bytes → Option (List Bytes)
erase_item item [] = none
erase_item item (t ∷ ts) =
    let rest = erase_item item ts in if same t item then some ts else cons_some t rest

abbrev pub join_again : ℕ → List Bytes → Option (List Bytes) → Removed
join_again c ts none = record { text = join c ts; was_there = false }
join_again c ts (some us) = record { text = join c us; was_there = true }

unfoldable pub remove_item : Bytes → ℕ → Bytes → Removed
unfolding find_str erase_item split join
remove_item item c s =
    if is_found (find_str item s)
    then (if same s item
        then record { text = []; was_there = true }
        else join_again c (split c s) (erase_item item (split c s)))
    else record { text = s; was_there = false }

-- The first one of the fields that are the item is left out.
abbrev pub without : Bytes → List Bytes → List Bytes
without item [] = []
without item (t ∷ ts) = let rest = without item ts in if same t item then ts else t ∷ rest

abbrev pub holds : Bytes → List Bytes → Bool
holds item [] = false
holds item (t ∷ ts) = let rest = holds item ts in same t item || rest

abbrev pub answer : Bool → ℕ → Bytes → List Bytes → Removed
answer b c item ts = record { text = join c (without item ts); was_there = b }

is_prefix-append : (t v : Bytes) → is_prefix t (t ++ v) ≡ true
is_prefix-append [] v = refl
is_prefix-append (x ∷ t) v =
    let e : (x == x) ≡ true = ground arith in rw (e, is_prefix-append t v) refl

found-here : (t v : Bytes) → is_found (find_str t (t ++ v)) ≡ true
unfolding find_str
found-here [] [] = refl
found-here [] (y ∷ v) = refl
found-here (x ∷ t) v = rw (is_prefix-append (x ∷ t) v) refl

found-shift : (o : Option ℕ) → is_found o ≡ true → is_found (shift 1 o) ≡ true
found-shift none h = h
found-shift (some i) h = refl

found-behind :
    (d u v : Bytes) → is_found (find_str d v) ≡ true → is_found (find_str d (u ++ v)) ≡ true
unfolding find_str
found-behind d [] v h = h
found-behind d (x ∷ u) v h =
    let later = found-behind d u v h in
    elim (Bool-cases (is_prefix d (x ∷ (u ++ v)))) [
      | inl e ↦ rw e refl
      | inr e ↦ rw e (found-shift (find_str d (u ++ v)) later)
    ]

-- A field is found in the text.
holds-found :
    (c : ℕ) (item : Bytes) (ts : List Bytes)
    → holds item ts ≡ true
    → is_found (find_str item (join c ts)) ≡ true
unfolding join
holds-found c item [] h = cc
holds-found c item (t ∷ []) h = elim (Bool-cases (same t item)) [
  | inl e ↦
      subst (λ x. is_found (find_str item x) ≡ true) (append-nil item ∙ sym (same→≡ t item e))
        (found-here item [])
  | inr e ↦ cc (rw e at h)
]
holds-found c item (t ∷ u ∷ ts) h = elim (Bool-cases (same t item)) [
  | inl e ↦
      subst (λ x. is_found (find_str item (x ++ c ∷ join c (u ∷ ts))) ≡ true)
        (sym (same→≡ t item e)) (found-here item (c ∷ join c (u ∷ ts)))
  | inr e ↦
      found-behind item t (c ∷ join c (u ∷ ts))
        (found-behind item (c ∷ []) (join c (u ∷ ts)) (holds-found c item (u ∷ ts) (rw e at h)))
]

without-none : (item : Bytes) (ts : List Bytes) → holds item ts ≡ false → without item ts ≡ ts
without-none item [] h = refl
without-none item (t ∷ ts) h = elim (Bool-cases (same t item)) [
  | inl e ↦ cc (rw e at h)
  | inr e ↦ rw e (ap (λ (l : List Bytes). t ∷ l) (without-none item ts (rw e at h)))
]

join_again-cons :
    (t item : Bytes) (ts : List Bytes) (o : Option (List Bytes))
    → o ≡ (if holds item ts then some (without item ts) else none)
    → cons_some t o ≡ (if holds item ts then some (t ∷ without item ts) else none)
join_again-cons t item ts o h = elim (Bool-cases (holds item ts)) [
  | inl e ↦ ap (cons_some t) h ∙ rw e refl
  | inr e ↦ ap (cons_some t) h ∙ rw e refl
]

erase_item-eq :
    (item : Bytes) (ts : List Bytes)
    → erase_item item ts ≡ (if holds item ts then some (without item ts) else none)
unfolding erase_item
erase_item-eq item [] = refl
erase_item-eq item (t ∷ ts) =
    let rest = join_again-cons t item ts (erase_item item ts) (erase_item-eq item ts) in
    elim (Bool-cases (same t item)) [ inl e ↦ rw e refl | inr e ↦ rw e rest ]

-- Several fields have a separator between them.
join-not-Free :
    (c : ℕ) (t u : Bytes) (ts : List Bytes) (item : Bytes)
    → Free c item
    → same (join c (t ∷ u ∷ ts)) item ≡ false
unfolding join
join-not-Free c t u ts item h = elim (Bool-cases (same (t ++ c ∷ join c (u ∷ ts)) item)) [
  | inl e ↦
      let whole = same→≡ (t ++ c ∷ join c (u ∷ ts)) item e in
      let parts = All-split (λ x. x ≢ c) t (c ∷ join c (u ∷ ts)) (subst (Free c) (sym whole) h) in
      absurd ((parts.1).0 refl)
  | inr e ↦ e
]

joined-plain : (c : ℕ) (ts : List Bytes) → All (Free c) ts → map (escaped c backslash) ts ≡ ts
joined-plain c [] h = refl
joined-plain c (t ∷ ts) (free, h) =
    ap₂ (λ (x : Bytes) (l : List Bytes). x ∷ l) (escaped-Free c backslash t free)
      (joined-plain c ts h)

join_again-answer :
    (c : ℕ) (item : Bytes) (ts : List Bytes)
    → join_again c ts (erase_item item ts) ≡ answer (holds item ts) c item ts
join_again-answer c item ts = elim (Bool-cases (holds item ts)) [
  | inl e ↦ ap (join_again c ts) (erase_item-eq item ts) ∙ rw e refl
  | inr e ↦ ap (join_again c ts) (erase_item-eq item ts) ∙ rw (e, without-none item ts e) refl
]

module _ (c : ℕ) (item t : Bytes) (ts : List Bytes) where
  not_found-answer :
      is_found (find_str item (join c (t ∷ ts))) ≡ false
      → record { text = join c (t ∷ ts); was_there = false }
        ≡ answer (holds item (t ∷ ts)) c item (t ∷ ts)
  not_found-answer h = elim (Bool-cases (holds item (t ∷ ts))) [
    | inl e ↦ let found = holds-found c item (t ∷ ts) e in cc
    | inr e ↦
        ap₂ (λ (b : Bool) (l : List Bytes). record { text = join c l; was_there = b }) (sym e)
          (sym (without-none item (t ∷ ts) e))
  ]

whole-answer :
    (c : ℕ) (item t : Bytes) (ts : List Bytes)
    → Free c item
    → same (join c (t ∷ ts)) item ≡ true
    → record { text = []; was_there = true } ≡ answer (holds item (t ∷ ts)) c item (t ∷ ts)
unfolding join
whole-answer c item t [] free h = rw h refl
whole-answer c item t (u ∷ us) free h = let apart = join-not-Free c t u us item free in cc

-- Fields without the separator and without backslashes, joined by a separator that is no backslash
-- and not just one empty field, and an item without the separator: `remove_item` takes out the first
-- field that is the item and says whether there is one; if there is none the text stays as it is.
pub remove_item-takes :
    (c : ℕ) (item t : Bytes) (ts : List Bytes)
    → c ≢ backslash
    → All (Free backslash) (t ∷ ts)
    → All (Free c) (t ∷ ts)
    → t ∷ ts ≢ [] ∷ []
    → Free c item
    → remove_item item c (join c (t ∷ ts)) ≡ answer (holds item (t ∷ ts)) c item (t ∷ ts)
unfolding remove_item
remove_item-takes c item t ts differ slashes seps ne free =
    let s = join c (t ∷ ts) in
    let fields : split c s ≡ t ∷ ts =
      ap (λ (l : List Bytes). split c (join c l)) (sym (joined-plain c (t ∷ ts) seps))
      ∙ split-join c t ts differ slashes ne in
    elim (Bool-cases (is_found (find_str item s))) [
      | inr e ↦ rw e (not_found-answer c item t ts e)
      | inl e ↦ elim (Bool-cases (same s item)) [
        | inl w ↦ rw (e, w) (whole-answer c item t ts free w)
        | inr w ↦
            rw (e, w)
              (ap (λ (l : List Bytes). join_again c l (erase_item item l)) fields
                ∙ join_again-answer c item (t ∷ ts))
      ]
    ]
