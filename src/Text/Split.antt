-- ===== src/Text/Split.antt =====
-- StringUtil::split undoes StringUtil::join on escaped fields, and join undoes split.
use mathlib.Core.Path.{subst}
use yat.Common.{
  ℕ, zero, suc, ◌≤◌, ◌≡◌, ◌≢◌, ◌⊎◌, refl, sym, ap, ◌∙◌, true, false, Bool, List, [], ◌∷◌, ◌++◌, map,
  arith, length, length-append, All, All-split, inl, inr,
}
use yat.Text.{
  Bytes, Extracted, is_empty, backslash, extract_token, split, split_loop, sep_was_found, join,
}
use yat.Text.Find.{Free, ne→==, first_char}
use yat.Text.Scan.{escaped}
use yat.Text.Token.{
  length-escaped, is_empty-append, not_empty, extract_token-sep, extract_token-last,
}

-- What `join` writes of escaped fields.
abbrev pub joined : ℕ → List Bytes → Bytes
joined c ts = join c (map (escaped c backslash) ts)

pub escaped-Free : (c esc : ℕ) (t : Bytes) → Free c t → escaped c esc t ≡ t
escaped-Free c esc [] h = refl
escaped-Free c esc (x ∷ t) h =
    rw (ne→== x c h.0) (ap (λ (l : Bytes). x ∷ l) (escaped-Free c esc t h.1))

-- One round of the loop.
loop-round :
    (c f : ℕ) (b : Bool) (s : Bytes) (e : Extracted)
    → is_empty s ≡ false
    → extract_token c backslash s ≡ e
    → split_loop (suc f) c b s ≡ e.token ∷ split_loop f c (sep_was_found e.result) e.rest
unfolding split_loop
loop-round c f b [] e h k = cc
loop-round c f b (x ∷ s) e h k = rw k refl

-- Behind a separator there is always a token.
loop-cons :
    (c f : ℕ) (s : Bytes)
    → length s ≤ f
    → (t : Bytes) × (ts : List Bytes) × (split_loop f c true s ≡ t ∷ ts)
unfolding split_loop
loop-cons c f [] h = ([], [], refl)
loop-cons c zero (x ∷ s) h = absurd (omega arith)
loop-cons c (suc f) (x ∷ s) h =
    let e = extract_token c backslash (x ∷ s) in
    (e.token, split_loop f c (sep_was_found e.result) e.rest, refl)

module _ (c : ℕ) (differ : c ≢ backslash) where
  used : backslash ≢ 0
  used = λ (e : backslash ≡ 0). omega arith

  loop-sep :
      (f : ℕ) (b : Bool) (t r : Bytes)
      → Free backslash t
      → split_loop (suc f) c b (escaped c backslash t ++ c ∷ r) ≡ t ∷ split_loop f c true r
  loop-sep f b t r h =
      loop-round c f b (escaped c backslash t ++ c ∷ r) _
        (is_empty-append (escaped c backslash t) c r)
        (extract_token-sep c backslash differ used t r h)

  loop-last :
      (f : ℕ) (b : Bool) (x : ℕ) (t : Bytes)
      → Free backslash (x ∷ t)
      → split_loop (suc f) c b (escaped c backslash (x ∷ t)) ≡ (x ∷ t) ∷ []
  loop-last f b x t h =
      loop-round c f b (escaped c backslash (x ∷ t)) _ (not_empty c backslash differ used x t)
        (extract_token-last c backslash differ used x t h)
      ∙ ap (λ (l : List Bytes). (x ∷ t) ∷ l) (unfold split_loop in refl)

  joined-cons :
      (t u : Bytes) (us : List Bytes)
      → joined c (t ∷ u ∷ us) ≡ escaped c backslash t ++ c ∷ joined c (u ∷ us)
  unfolding join
  joined-cons t u us = refl

  joined-one : (t : Bytes) → joined c (t ∷ []) ≡ escaped c backslash t
  unfolding join
  joined-one t = refl

  loop-joined :
      (t : Bytes) (ts : List Bytes) (f : ℕ) (b : Bool)
      → All (Free backslash) (t ∷ ts)
      → (b ≡ true) ⊎ (t ∷ ts ≢ [] ∷ [])
      → length (joined c (t ∷ ts)) ≤ f
      → split_loop f c b (joined c (t ∷ ts)) ≡ t ∷ ts
  loop-joined [] [] f b h (inl e) room =
      rw e (ap (split_loop f c true) (joined-one []) ∙ unfold split_loop in refl)
  loop-joined [] [] f b h (inr ne) room = absurd (ne refl)
  loop-joined (x ∷ t) [] zero b h some_text room =
      absurd (omega (arith, ap length (joined-one (x ∷ t)), length-escaped c backslash (x ∷ t)))
  loop-joined (x ∷ t) [] (suc f) b h some_text room =
      ap (split_loop (suc f) c b) (joined-one (x ∷ t)) ∙ loop-last f b x t h.0
  loop-joined t (u ∷ us) zero b h some_text room = absurd (
      omega (
        arith,
        ap length (joined-cons t u us),
        length-append (escaped c backslash t) (c ∷ joined c (u ∷ us)),
      ))
  loop-joined t (u ∷ us) (suc f) b h some_text room =
      ap (split_loop (suc f) c b) (joined-cons t u us)
      ∙ loop-sep f b t (joined c (u ∷ us)) h.0
      ∙ ap (λ (l : List Bytes). t ∷ l)
          (loop-joined u us f true h.1 (inl refl) (
            omega (
              arith,
              ap length (joined-cons t u us),
              length-append (escaped c backslash t) (c ∷ joined c (u ∷ us)),
            )))

  join-cons-cons :
      (t : Bytes) (ts : List Bytes) (s : Bytes) (us : List Bytes)
      → ts ≡ s ∷ us
      → join c (t ∷ ts) ≡ t ++ c ∷ join c ts
  unfolding join
  join-cons-cons t ts s us e = rw e refl

  -- What the loop yields joins to the source.
  join-loop :
      (f : ℕ) (b : Bool) (s : Bytes)
      → Free backslash s
      → length s ≤ f
      → join c (split_loop f c b s) ≡ s
  join-loop f true [] h room = unfold split_loop in unfold join in refl
  join-loop f false [] h room = unfold split_loop in unfold join in refl
  join-loop zero b (x ∷ s) h room = absurd (omega arith)
  join-loop (suc f) b (x ∷ s) h room = elim (first_char c (x ∷ s)) [
    | inl free ↦
        ap (λ (l : Bytes). join c (split_loop (suc f) c b l))
          (sym (escaped-Free c backslash (x ∷ s) free))
        ∙ ap (join c) (loop-last f b x s h)
        ∙ unfold join in refl
    | inr (u, v, free, e) ↦
        let (hu, hv) = All-split (λ y. y ≢ backslash) u (c ∷ v) (subst (Free backslash) e h) in
        let left : length v ≤ f = omega (arith, ap length e, length-append u (c ∷ v)) in
        let (t, ts, some_token) = loop-cons c f v left in
        ap (λ (l : Bytes). join c (split_loop (suc f) c b l))
          (e ∙ ap (λ (l : Bytes). l ++ c ∷ v) (sym (escaped-Free c backslash u free)))
        ∙ ap (join c) (loop-sep f b u v hu)
        ∙ join-cons-cons u (split_loop f c true v) t ts some_token
        ∙ ap (λ (l : Bytes). u ++ c ∷ l) (join-loop f true v hv.1 left)
        ∙ sym e
  ]

-- A separator that is no backslash: the fields that were escaped and joined are split into the same
-- fields again, if they hold no backslash and are not just one empty field.
pub split-join :
    (c : ℕ) (t : Bytes) (ts : List Bytes)
    → c ≢ backslash
    → All (Free backslash) (t ∷ ts)
    → t ∷ ts ≢ [] ∷ []
    → split c (joined c (t ∷ ts)) ≡ t ∷ ts
unfolding split
split-join c t ts differ h ne =
    loop-joined c differ t ts (length (joined c (t ∷ ts))) false h (inr ne) (omega arith)

-- The fields of a text without backslashes join to the text.
pub join-split : (c : ℕ) (s : Bytes) → c ≢ backslash → Free backslash s → join c (split c s) ≡ s
unfolding split
join-split c s differ h = join-loop c differ (length s) false s h (omega arith)
