-- ===== src/Text/Scan.antt =====
-- The first loop of StringUtil::extract_token on an escaped token.
use mathlib.Core.List.{append_assoc}
use yat.Common.{
  ℕ, zero, suc, ◌+◌, ◌-◌, ◌≤◌, ◌≡◌, ◌≢◌, refl, sym, ap, ◌∙◌, true, false, [], ◌∷◌, ◌++◌, Option,
  none, some, arith, ◌==◌, if◌then◌else◌, length, length-append, inl, inr, Bool-cases, drop-append,
}
use yat.Text.{Bytes, at, shift, find_char, find, is_escaped, skip_escaped}
use yat.Text.Find.{Free, ne→==, get_or-append}

-- Each separator with the escape character before it.
abbrev pub escaped : ℕ → ℕ → Bytes → Bytes
escaped c esc [] = []
escaped c esc (x ∷ t) = if x == c then esc ∷ c ∷ escaped c esc t else x ∷ escaped c esc t

at-append : (s pre : Bytes) (n x : ℕ) (v : Bytes) → s ≡ pre ++ x ∷ v → n ≡ length pre → at s n ≡ x
at-append s pre n x v e k = rw (e, k) (get_or-append pre (x ∷ v) 0)

find-append :
    (c : ℕ) (s pre v : Bytes) (n : ℕ)
    → s ≡ pre ++ v
    → n ≡ length pre
    → find c s n ≡ shift n (find_char c v)
unfolding find
find-append c s pre v n e k =
    ap (λ (l : Bytes). shift n (find_char c l)) (rw (e, k) (drop-append pre v))

shift-shift : (m n : ℕ) (o : Option ℕ) → shift m (shift n o) ≡ shift (m + n) o
shift-shift m n none = refl
shift-shift m n (some i) = ap some (omega arith)

module _ (c esc : ℕ) (differ : c ≢ esc) (used : esc ≢ 0) where
  not_escaped : (s : Bytes) (n x : ℕ) → at s n ≡ x → x ≢ esc → is_escaped esc s (n + 1) ≡ false
  not_escaped s n x e h =
      let back : n + 1 - 1 ≡ n = omega arith in rw (back, e, ne→== x esc h) (ground arith)

  escaped_here : (s : Bytes) (n : ℕ) → at s n ≡ esc → is_escaped esc s (n + 1) ≡ true
  escaped_here s n e = let back : n + 1 - 1 ≡ n = omega arith in rw (back, e) (ground arith)

  -- Where the first loop stands behind an escaped token, and the steps that it still may take.
  pub record Scanned (f n : ℕ) (t w s : Bytes) : Type 0 where
    pub fuel : ℕ
    pub pos : ℕ
    pub behind : pos ≡ n + length (escaped c esc t)
    pub free : is_escaped esc s pos ≡ false
    pub same :
        skip_escaped f c esc s (shift n (find_char c (escaped c esc t ++ w)))
        ≡ skip_escaped fuel c esc s (shift pos (find_char c w))

  pub escaped-other :
      (x : ℕ) (t : Bytes) → (x == c) ≡ false → escaped c esc (x ∷ t) ≡ x ∷ escaped c esc t
  escaped-other x t h = rw h refl

  pub escaped-sep :
      (x : ℕ) (t : Bytes) → (x == c) ≡ true → escaped c esc (x ∷ t) ≡ esc ∷ c ∷ escaped c esc t
  escaped-sep x t h = rw h refl

  -- The first separator behind a byte that is none, and behind an escape character.
  first-other :
      (n x : ℕ) (v : Bytes)
      → (x == c) ≡ false
      → shift n (find_char c (x ∷ v)) ≡ shift (n + 1) (find_char c v)
  unfolding find_char
  first-other n x v h = rw h (shift-shift n 1 (find_char c v))

  first-sep : (n : ℕ) (v : Bytes) → shift n (find_char c (esc ∷ c ∷ v)) ≡ some (n + 1)
  unfolding find_char
  first-sep n v =
      let self : (c == c) ≡ true = ground arith in
      let other : (esc == c) ≡ false = ground arith in rw (other, self) (ap some (omega arith))

  skip-escaped :
      (f n : ℕ) (s : Bytes)
      → is_escaped esc s n ≡ true
      → skip_escaped (suc f) c esc s (some n) ≡ skip_escaped f c esc s (find c s (n + 1))
  unfolding skip_escaped
  skip-escaped f n s h = rw (h, skip_escaped) refl

  pub skip-free :
      (f n : ℕ) (s : Bytes) → is_escaped esc s n ≡ false → skip_escaped f c esc s (some n) ≡ some n
  unfolding skip_escaped
  skip-free zero n s h = refl
  skip-free (suc f) n s h = rw (h, skip_escaped) refl

  scan-other :
      (x : ℕ) (t w s : Bytes) (n f : ℕ)
      → (x == c) ≡ false
      → Scanned f (n + 1) t w s
      → Scanned f n (x ∷ t) w s
  scan-other x t w s n f h ih = record {
    fuel = ih.fuel;
    pos = ih.pos;
    behind = omega (arith, ih.behind, ap length (escaped-other x t h));
    free = ih.free;
    same =
        ap (λ (l : Bytes). skip_escaped f c esc s (shift n (find_char c (l ++ w))))
          (escaped-other x t h)
        ∙ ap (skip_escaped f c esc s) (first-other n x (escaped c esc t ++ w) h)
        ∙ ih.same;
  }

  scan-sep :
      (x : ℕ) (t pre w s : Bytes) (n f : ℕ)
      → (x == c) ≡ true
      → s ≡ pre ++ (esc ∷ c ∷ (escaped c esc t ++ w))
      → n ≡ length pre
      → Scanned f (n + 2) t w s
      → Scanned (suc f) n (x ∷ t) w s
  scan-sep x t pre w s n f h e k ih = record {
    fuel = ih.fuel;
    pos = ih.pos;
    behind = omega (arith, ih.behind, ap length (escaped-sep x t h));
    free = ih.free;
    same =
        ap (λ (l : Bytes). skip_escaped (suc f) c esc s (shift n (find_char c (l ++ w))))
          (escaped-sep x t h)
        ∙ ap (skip_escaped (suc f) c esc s) (first-sep n (escaped c esc t ++ w))
        ∙ skip-escaped f (n + 1) s
            (escaped_here s n (at-append s pre n esc (c ∷ (escaped c esc t ++ w)) e k))
        ∙ ap (skip_escaped f c esc s) (
            find-append c s (pre ++ esc ∷ c ∷ []) (escaped c esc t ++ w) (n + 1 + 1)
              (e ∙ sym (append_assoc pre (esc ∷ c ∷ []) (escaped c esc t ++ w)))
              (omega (arith, length-append pre (esc ∷ c ∷ [])))
            ∙ ap (λ (m : ℕ). shift m (find_char c (escaped c esc t ++ w))) (omega arith))
        ∙ ih.same;
  }

  pub scan :
      (t pre w s : Bytes) (n f : ℕ)
      → s ≡ pre ++ (escaped c esc t ++ w)
      → n ≡ length pre
      → Free esc t
      → is_escaped esc s n ≡ false
      → length t ≤ f
      → Scanned f n t w s
  scan [] pre w s n f e k h g room = record {
    fuel = f;
    pos = n;
    behind = omega arith;
    free = g;
    same = refl;
  }
  scan (x ∷ t) pre w s n zero e k h g room = absurd (omega arith)
  scan (x ∷ t) pre w s n (suc f) e k h g room = elim (Bool-cases (x == c)) [
    | inl is ↦
        let cut : s ≡ pre ++ (esc ∷ c ∷ (escaped c esc t ++ w)) =
          e ∙ ap (λ (l : Bytes). pre ++ (l ++ w)) (escaped-sep x t is) in
        let step : s ≡ (pre ++ esc ∷ c ∷ []) ++ (escaped c esc t ++ w) =
          cut ∙ sym (append_assoc pre (esc ∷ c ∷ []) (escaped c esc t ++ w)) in
        let after : at s (n + 1) ≡ c =
          at-append s (pre ++ esc ∷ []) (n + 1) c (escaped c esc t ++ w)
            (cut ∙ sym (append_assoc pre (esc ∷ []) (c ∷ (escaped c esc t ++ w))))
            (omega (arith, length-append pre (esc ∷ []))) in
        let behind : is_escaped esc s (n + 2) ≡ false =
          ap (is_escaped esc s) (omega arith) ∙ not_escaped s (n + 1) c after differ in
        scan-sep x t pre w s n f is cut k (
          scan t (pre ++ esc ∷ c ∷ []) w s (n + 2) f step
            (omega (arith, length-append pre (esc ∷ c ∷ []))) h.1 behind (omega arith))
    | inr other ↦
        let cut : s ≡ pre ++ (x ∷ (escaped c esc t ++ w)) =
          e ∙ ap (λ (l : Bytes). pre ++ (l ++ w)) (escaped-other x t other) in
        scan-other x t w s n (suc f) other (
          scan t (pre ++ x ∷ []) w s (n + 1) (suc f)
            (cut ∙ sym (append_assoc pre (x ∷ []) (escaped c esc t ++ w)))
            (omega (arith, length-append pre (x ∷ []))) h.1
            (not_escaped s n x (at-append s pre n x (escaped c esc t ++ w) cut k) h.0)
            (omega arith))
  ]
