-- ===== src/Text/Ends.antt =====
-- The loops of StringUtil::extract_token and of split end: the fuel that the model gives them, the
-- length of the text, is enough.
use yat.Common.{
  ℕ, zero, suc, ◌+◌, ◌≤◌, ◌<◌, ◌≡◌, refl, true, false, Bool, List, [], ◌∷◌, ◌++◌, Option, none,
  some, arith, ◌==◌, length, length-append, length-take, length-drop, take, drop, Bool-cases,
  Option-cases, inl, inr,
}
use yat.Text.{
  Bytes, Extracted, shift, find_char, find, is_escaped, skip_escaped, unescape, followed_by,
  extract_token, split_loop, sep_was_found, backslash, split,
}

pub shift-some :
    (n p : ℕ) (o : Option ℕ) → shift n o ≡ some p → (q : ℕ) × (o ≡ some q) × (p ≡ q + n)
shift-some n p none h = cc
shift-some n p (some q) h = (q, refl, cc)

find_char-Below : (c : ℕ) (s : Bytes) (p : ℕ) → find_char c s ≡ some p → p < length s
unfolding find_char
find_char-Below c [] p h = cc
find_char-Below c (x ∷ s) p h = elim (Bool-cases (x == c)) [
  | inl e ↦ let first : some 0 ≡ some p = rw e at h in let at_once : 0 ≡ p = cc in omega arith
  | inr e ↦
      let later : shift 1 (find_char c s) ≡ some p = rw e at h in
      let (q, found, moved) = shift-some 1 p (find_char c s) later in
      let below : q < length s = find_char-Below c s q found in omega arith
]

find-Bounds : (c : ℕ) (s : Bytes) (n p : ℕ) → find c s n ≡ some p → (n ≤ p) × (p < length s)
unfolding find
find-Bounds c s n p h =
    let (q, found, moved) = shift-some n p (find_char c (drop n s)) h in
    let below : q < length (drop n s) = find_char-Below c (drop n s) q found in
    (omega arith, omega (arith, length-drop n s))

followed_by-Below : (c : ℕ) (t : Bytes) (i : ℕ) → followed_by c t i ≡ true → i < length t
followed_by-Below c t i h = ground arith

-- One round of the last loop takes one byte out.
shorter : (t : Bytes) (i : ℕ) → i < length t → length (take i t ++ drop (i + 1) t) + 1 ≡ length t
shorter t i h =
    omega (arith, length-append (take i t) (drop (i + 1) t), length-take i t, length-drop (i + 1) t)

-- The runs of the loops: a derivation is a run that ends, and says with what. The first loop goes on
-- behind a separator that is escaped.
pub data Skips (c esc : ℕ) (s : Bytes) : Option ℕ → Option ℕ → Type 0 where
  not_found : Skips c esc s none none
  stands : (p : ℕ) → is_escaped esc s p ≡ false → Skips c esc s (some p) (some p)
  skips :
      (p : ℕ) (o : Option ℕ)
      → is_escaped esc s p ≡ true
      → Skips c esc s (find c s (p + 1)) o
      → Skips c esc s (some p) o

-- The last loop takes out an escape character before a separator.
pub data Unescapes (c esc : ℕ) : Bytes → Bytes → Type 0 where
  no_escape : (t : Bytes) → find_char esc t ≡ none → Unescapes c esc t t
  no_separator :
      (t : Bytes) (i : ℕ)
      → find_char esc t ≡ some i
      → followed_by c t i ≡ false
      → Unescapes c esc t t
  takes_out :
      (t : Bytes) (i : ℕ) (r : Bytes)
      → find_char esc t ≡ some i
      → followed_by c t i ≡ true
      → Unescapes c esc (take i t ++ drop (i + 1) t) r
      → Unescapes c esc t r

-- The loop of `split`, with whether the last token ended at a separator.
pub data Splits (c : ℕ) : Bool → Bytes → List Bytes → Type 0 where
  no_more : Splits c false [] []
  last_empty : Splits c true [] ([] ∷ [])
  pushes :
      (b : Bool) (x : ℕ) (s : Bytes) (e : Extracted) (ts : List Bytes)
      → extract_token c backslash (x ∷ s) ≡ e
      → Splits c (sep_was_found e.result) e.rest ts
      → Splits c b (x ∷ s) (e.token ∷ ts)

unescape-Unescapes :
    (c esc f : ℕ) (t : Bytes) → length t ≤ f → Unescapes c esc t (unescape f c esc t)
unfolding unescape
unescape-Unescapes c esc zero [] h = no_escape [] (unfold find_char in refl)
unescape-Unescapes c esc zero (x ∷ t) h = absurd (omega arith)
unescape-Unescapes c esc (suc f) t h = elim (Option-cases (find_char esc t)) [
  | inl e ↦ rw (e, unescape) (no_escape t e)
  | inr (i, e) ↦ elim (Bool-cases (followed_by c t i)) [
    | inl y ↦
        let less = shorter t i (followed_by-Below c t i y) in
        let rest = unescape-Unescapes c esc f (take i t ++ drop (i + 1) t) (omega arith) in
        rw (e, unescape)
          (rw (y, unescape)
            (takes_out t i (unescape f c esc (take i t ++ drop (i + 1) t)) e y rest))
    | inr n ↦ rw (e, unescape) (rw (n, unescape) (no_separator t i e n))
  ]
]

-- The first loop from a position of the text on.
skip_escaped-Skips :
    (c esc f : ℕ) (s : Bytes) (o : Option ℕ)
    → ((p : ℕ) → o ≡ some p → (p < length s) × (length s ≤ p + f))
    → Skips c esc s o (skip_escaped f c esc s o)
unfolding skip_escaped
skip_escaped-Skips c esc zero s none h = not_found
skip_escaped-Skips c esc (suc f) s none h = not_found
skip_escaped-Skips c esc zero s (some p) h =
    let (inside, all) = h p refl in absurd (omega (arith, inside, all))
skip_escaped-Skips c esc (suc f) s (some p) h = elim (Bool-cases (is_escaped esc s p)) [
  | inl y ↦
      let (inside, all) = h p refl in
      let rest = skip_escaped-Skips c esc f s (find c s (p + 1)) (λ q e.
        let (behind, below) = find-Bounds c s (p + 1) q e in (below, omega (arith, behind, all))) in
      rw (y, skip_escaped) (skips p (skip_escaped f c esc s (find c s (p + 1))) y rest)
  | inr n ↦ rw (n, skip_escaped) (stands p n)
]

-- What `extract_token` leaves is shorter than what it got.
extract_token-shorter :
    (c esc x : ℕ) (s : Bytes) → length (extract_token c esc (x ∷ s)).rest ≤ length s
unfolding extract_token
extract_token-shorter c esc x s =
    elim (Option-cases (skip_escaped (length (x ∷ s)) c esc (x ∷ s) (find c (x ∷ s) 0))) [
      | inl e ↦ rw e (omega arith)
      | inr (p, e) ↦ rw e (omega (arith, length-drop (p + 1) (x ∷ s)))
    ]

split_loop-Splits :
    (c f : ℕ) (b : Bool) (s : Bytes) → length s ≤ f → Splits c b s (split_loop f c b s)
unfolding split_loop
split_loop-Splits c zero true [] h = last_empty
split_loop-Splits c (suc f) true [] h = last_empty
split_loop-Splits c zero false [] h = no_more
split_loop-Splits c (suc f) false [] h = no_more
split_loop-Splits c zero b (x ∷ s) h = absurd (omega arith)
split_loop-Splits c (suc f) b (x ∷ s) h =
    let e = extract_token c backslash (x ∷ s) in
    let less = extract_token-shorter c backslash x s in
    pushes b x s e (split_loop f c (sep_was_found e.result) e.rest) refl
      (split_loop-Splits c f (sep_was_found e.result) e.rest (omega arith))

-- On every text the two loops of `extract_token` and the loop of `split` end: each has a run, which
-- is finite, that goes from round to round by the tests of the source and ends by them with what the
-- model yields, so the length of the text is fuel enough.
pub loops-End :
    (c esc : ℕ) (s : Bytes)
    → Skips c esc s (find c s 0) (skip_escaped (length s) c esc s (find c s 0))
      × Unescapes c esc s (unescape (length s) c esc s)
      × Splits c false s (split c s)
unfolding split
loops-End c esc s = (
  skip_escaped-Skips c esc (length s) s (find c s 0)
      (λ p e. let (low, inside) = find-Bounds c s 0 p e in (inside, omega arith)),
  unescape-Unescapes c esc (length s) s (omega arith),
  split_loop-Splits c (length s) false s (omega arith),
)
