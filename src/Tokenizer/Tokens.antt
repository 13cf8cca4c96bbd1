-- ===== src/Tokenizer/Tokens.antt =====
-- The tokens of a text, one call of next_token after another, against the text and count_tokens.
use mathlib.Core.List.{append-nil}
use yat.Common.{
  ℕ, zero, suc, ◌+◌, ◌-◌, ◌≤◌, ◌<◌, ◌≡◌, ◌≢◌, refl, sym, ◌∙◌, ap, ap₂, Bool, true, false, List, [],
  ◌∷◌, ◌++◌, Option, none, some, if◌then◌else◌, length, take, drop, arith, Option-cases, inl, inr,
  length-drop, drop-drop,
}
use yat.Text.{Bytes, shift}
use yat.Tokenizer.{find_str, find_from, Next, next_token, count_loop, count_tokens}
use yat.Tokenizer.Find.{
  find_str-Found, left-shorter, find_from-drop, find_str-nil, found_inside, find_str-empty,
}

-- `while (has_more_tokens()) next_token()`: the tokens, and whether a delimiter ended the text.
abbrev pub tokens : ℕ → Bytes → Bytes → List Bytes
tokens zero d s = []
tokens (suc fuel) d [] = []
tokens (suc fuel) d (x ∷ s) = let n = next_token d (x ∷ s) in n.token ∷ tokens fuel d n.left

abbrev pub delimited : Option ℕ → Bool
delimited none = false
delimited (some p) = true

abbrev pub ends_delimited : ℕ → Bytes → Bool → Bytes → Bool
ends_delimited zero d b s = b
ends_delimited (suc fuel) d b [] = b
ends_delimited (suc fuel) d b (x ∷ s) =
    ends_delimited fuel d (delimited (find_str d (x ∷ s))) (next_token d (x ∷ s)).left

-- The tokens with the delimiter between them, and behind the last one if the text has it there.
abbrev pub joined : Bytes → Bool → List Bytes → Bytes
joined d b [] = []
joined d b (t ∷ []) = if b then t ++ d else t
joined d b (t ∷ u ∷ ts) = t ++ (d ++ joined d b (u ∷ ts))

next_token-none :
    (d s : Bytes) (x : ℕ)
    → find_str d (x ∷ s) ≡ none
    → next_token d (x ∷ s) ≡ record { token = x ∷ s; left = [] }
unfolding next_token
next_token-none d s x h = rw h refl

next_token-some :
    (d s : Bytes) (x p : ℕ)
    → find_str d (x ∷ s) ≡ some p
    → next_token d (x ∷ s) ≡ record { token = take p (x ∷ s); left = drop (p + length d) (x ∷ s) }
unfolding next_token
next_token-some d s x p h = rw h refl

-- `count_tokens` from a position counts the tokens of what is left there.
abbrev pub number : ℕ → Bytes → Bool → Bytes → ℕ
number fuel d b s = length (tokens fuel d s) + (if ends_delimited fuel d b s then 1 else 0)

tokens-nil : (f : ℕ) (d : Bytes) → tokens f d [] ≡ []
tokens-nil zero d = refl
tokens-nil (suc f) d = refl

ends-nil : (f : ℕ) (d : Bytes) (b : Bool) → ends_delimited f d b [] ≡ b
ends-nil zero d b = refl
ends-nil (suc f) d b = refl

count_none :
    (f pos n : ℕ) (d s : Bytes)
    → find_from d s pos ≡ none
    → count_loop (suc f) d s pos n ≡ some (n + 1)
unfolding count_loop
count_none f pos n d s h = rw (h, count_loop) refl

count_some :
    (f pos n p : ℕ) (d s : Bytes)
    → find_from d s pos ≡ some p
    → count_loop (suc f) d s pos n ≡ count_loop f d s (p + length d) (n + 1)
unfolding count_loop
count_some f pos n p d s h = rw (h, count_loop) refl

number-none :
    (f x : ℕ) (b : Bool) (d r : Bytes) → find_str d (x ∷ r) ≡ none → number (suc f) d b (x ∷ r) ≡ 1
number-none f x b d r h =
    rw (next_token-none d r x h, h) (rw (tokens-nil f d, ends-nil f d false) (omega arith))

number-some :
    (f x p : ℕ) (b : Bool) (d r : Bytes)
    → find_str d (x ∷ r) ≡ some p
    → number (suc f) d b (x ∷ r) ≡ 1 + number f d true (drop (p + length d) (x ∷ r))
number-some f x p b d r h = rw (next_token-some d r x p h, h) (omega arith)

count_loop-Counts :
    (f pos n : ℕ) (d s r : Bytes)
    → 0 < length d
    → pos ≤ length s
    → drop pos s ≡ r
    → length r ≤ f
    → count_loop (suc f) d s pos n ≡ some (n + number f d true r)
count_loop-Counts f pos n d s [] long inside e room =
    count_none f pos n d s
      (find_from-drop d s [] pos inside e ∙ ap (shift pos) (find_str-nil d long))
    ∙ rw (tokens-nil f d, ends-nil f d true) (ap some (omega arith))
count_loop-Counts zero pos n d s (x ∷ r) long inside e room = absurd (omega arith)
count_loop-Counts (suc f) pos n d s (x ∷ r) long inside e room =
    elim (Option-cases (find_str d (x ∷ r))) [
      | inl h ↦
          count_none (suc f) pos n d s (find_from-drop d s (x ∷ r) pos inside e ∙ ap (shift pos) h)
          ∙ ap (λ (k : ℕ). some (n + k)) (sym (number-none f x true d r h))
      | inr (p, h) ↦
          let ends = found_inside d (x ∷ r) p long h in
          let here : length s - pos ≡ length (x ∷ r) = sym (length-drop pos s) ∙ ap length e in
          let moved : p + pos + length d ≡ pos + (p + length d) = omega arith in
          let there : drop (p + pos + length d) s ≡ drop (p + length d) (x ∷ r) =
            ap (λ (k : ℕ). drop k s) moved
            ∙ sym (drop-drop (p + length d) pos s)
            ∙ ap (drop (p + length d)) e in
          count_some (suc f) pos n (p + pos) d s
            (find_from-drop d s (x ∷ r) pos inside e ∙ ap (shift pos) h)
          ∙ count_loop-Counts f (p + pos + length d) (n + 1) d s (drop (p + length d) (x ∷ r)) long
              (omega arith) there (omega (arith, left-shorter d r p x long))
          ∙ ap some (omega (arith, number-some f x p true d r h))
    ]

joined-more :
    (d : Bytes) (b : Bool) (t : Bytes) (ts : List Bytes)
    → ts ≢ []
    → joined d b (t ∷ ts) ≡ t ++ (d ++ joined d b ts)
joined-more d b t [] h = absurd (h refl)
joined-more d b t (u ∷ ts) h = refl

tokens-ne-nil : (f y : ℕ) (d l : Bytes) → length (y ∷ l) ≤ f → tokens f d (y ∷ l) ≢ []
tokens-ne-nil zero y d l h = absurd (omega arith)
tokens-ne-nil (suc f) y d l h = λ e. cc

-- A token, a delimiter, and the rest that is joined already.
joins_left :
    (f : ℕ) (d t l : Bytes)
    → length l ≤ f
    → (l ≢ [] → joined d (ends_delimited f d true l) (tokens f d l) ≡ l)
    → joined d (ends_delimited f d true l) (t ∷ tokens f d l) ≡ t ++ (d ++ l)
joins_left f d t [] room h =
    rw (tokens-nil f d, ends-nil f d true) (ap (λ (k : Bytes). t ++ k) (sym (append-nil d)))
joins_left f d t (y ∷ l) room h =
    joined-more d (ends_delimited f d true (y ∷ l)) t (tokens f d (y ∷ l))
      (tokens-ne-nil f y d l room)
    ∙ ap (λ (k : Bytes). t ++ (d ++ k)) (h (λ e. cc))

module _ (f x : ℕ) (d s : Bytes) where
  tokens-none : find_str d (x ∷ s) ≡ none → tokens (suc f) d (x ∷ s) ≡ (x ∷ s) ∷ []
  tokens-none h =
      ap (λ (n : Next). n.token ∷ tokens f d n.left) (next_token-none d s x h)
      ∙ ap (λ (ts : List Bytes). (x ∷ s) ∷ ts) (tokens-nil f d)

  ends_none : (b : Bool) → find_str d (x ∷ s) ≡ none → ends_delimited (suc f) d b (x ∷ s) ≡ false
  ends_none b h =
      ap₂ (λ (o : Option ℕ) (n : Next). ends_delimited f d (delimited o) n.left) h
        (next_token-none d s x h)
      ∙ ends-nil f d false

  tokens-some :
      (p : ℕ)
      → find_str d (x ∷ s) ≡ some p
      → tokens (suc f) d (x ∷ s) ≡ take p (x ∷ s) ∷ tokens f d (drop (p + length d) (x ∷ s))
  tokens-some p h = ap (λ (n : Next). n.token ∷ tokens f d n.left) (next_token-some d s x p h)

  ends_some :
      (p : ℕ) (b : Bool)
      → find_str d (x ∷ s) ≡ some p
      → ends_delimited (suc f) d b (x ∷ s) ≡ ends_delimited f d true (drop (p + length d) (x ∷ s))
  ends_some p b h =
      ap₂ (λ (o : Option ℕ) (n : Next). ends_delimited f d (delimited o) n.left) h
        (next_token-some d s x p h)

tokens-Join :
    (f : ℕ) (b : Bool) (d s : Bytes)
    → 0 < length d
    → length s ≤ f
    → s ≢ []
    → joined d (ends_delimited f d b s) (tokens f d s) ≡ s
tokens-Join f b d [] long room some_text = absurd (some_text refl)
tokens-Join zero b d (x ∷ s) long room some_text = absurd (omega arith)
tokens-Join (suc f) b d (x ∷ s) long room some_text = elim (Option-cases (find_str d (x ∷ s))) [
  | inl h ↦ ap₂ (joined d) (ends_none f x d s b h) (tokens-none f x d s h)
  | inr (p, h) ↦
      let less = left-shorter d s p x long in
      let rest = tokens-Join f true d (drop (p + length d) (x ∷ s)) long (omega arith) in
      ap₂ (joined d) (ends_some f x d s p b h) (tokens-some f x d s p h)
      ∙ joins_left f d (take p (x ∷ s)) (drop (p + length d) (x ∷ s)) (omega arith) rest
      ∙ sym (find_str-Found d (x ∷ s) p h)
]

-- With a delimiter that is not empty, the tokens that `next_token` yields until none is left, with
-- the delimiter between them, are the text, where a delimiter at the very end is put back; and
-- `count_tokens` ends and answers their number, and one more for such a delimiter at the end.
pub tokens-Counts :
    (d s : Bytes)
    → 0 < length d
    → s ≢ []
    → (joined d (ends_delimited (length s) d false s) (tokens (length s) d s) ≡ s)
      × (count_tokens (suc (length s)) d s
          ≡ some (
              length (tokens (length s) d s)
              + (if ends_delimited (length s) d false s then 1 else 0)))
unfolding count_tokens
tokens-Counts d [] long h = absurd (h refl)
tokens-Counts d (x ∷ s) long h = (
  tokens-Join (suc (length s)) false d (x ∷ s) long (omega arith) h,
  count_loop-Counts (suc (length s)) 0 0 d (x ∷ s) (x ∷ s) long (omega arith) refl (omega arith)
      ∙ ap some (omega arith),
)

count_loop-stays : (fuel pos n : ℕ) (s : Bytes) → pos ≤ length s → count_loop fuel [] s pos n ≡ none
count_loop-stays zero pos n s inside = unfold count_loop in refl
count_loop-stays (suc fuel) pos n s inside =
    count_some fuel pos n (0 + pos) [] s (
      find_from-drop [] s (drop pos s) pos inside refl
      ∙ ap (shift pos) (find_str-empty (drop pos s)))
    ∙ count_loop-stays fuel (0 + pos + 0) (n + 1) s (omega arith)

-- With an empty delimiter `count_tokens` does not end on a text that is not empty, however long it
-- goes on.
pub count_tokens-never_ends : (fuel : ℕ) (s : Bytes) → s ≢ [] → count_tokens fuel [] s ≡ none
unfolding count_tokens
count_tokens-never_ends fuel [] h = absurd (h refl)
count_tokens-never_ends fuel (x ∷ s) h = count_loop-stays fuel 0 0 (x ∷ s) (omega arith)
