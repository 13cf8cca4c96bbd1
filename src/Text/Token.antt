-- ===== src/Text/Token.antt =====
-- StringUtil::extract_token undoes the escaping of a token.
use mathlib.Core.List.{append_assoc, append-nil}
use yat.Common.{
  ℕ, zero, suc, ◌+◌, ◌≤◌, ◌≡◌, ◌≢◌, refl, sym, ap, ap₂, ◌∙◌, true, false, [], ◌∷◌, ◌++◌, Option,
  none, some, arith, ◌==◌, ==_iff, length, length-append, drop, All-append, inl, inr, Bool-cases,
  drop-append_eq, take-append,
}
use yat.Text.{
  Bytes, at, shift, find_char, find, is_escaped, is_empty, skip_escaped, unescape, unescape_token,
  followed_by, extract_token, extracted_at, sep_found, sep_not_found,
}
use yat.Text.Find.{Free, find_char-Free, find_char-append, get_or-append}
use yat.Text.Scan.{escaped, escaped-other, escaped-sep, skip-free, scan}

pub length-escaped : (c esc : ℕ) (t : Bytes) → length t ≤ length (escaped c esc t)
length-escaped c esc [] = omega arith
length-escaped c esc (x ∷ t) = ground (arith, length-escaped c esc t)

pub drop-append_suc : (u : Bytes) (x : ℕ) (v : Bytes) → drop (length u + 1) (u ++ x ∷ v) ≡ v
drop-append_suc u x v =
    ap (drop (length u + 1)) (sym (append_assoc u (x ∷ []) v))
    ∙ drop-append_eq (length u + 1) (u ++ x ∷ []) v (omega (arith, length-append u (x ∷ [])))

pub is_empty-append : (t : Bytes) (x : ℕ) (s : Bytes) → is_empty (t ++ x ∷ s) ≡ false
is_empty-append [] x s = refl
is_empty-append (y ∷ t) x s = refl

module _ (c esc : ℕ) (differ : c ≢ esc) (used : esc ≢ 0) where
  -- The last loop takes the escape characters out one after another.
  unescape-none : (f : ℕ) (u : Bytes) → Free esc u → unescape f c esc u ≡ u
  unfolding unescape
  unescape-none zero u h = refl
  unescape-none (suc f) u h = rw (find_char-Free esc u h, unescape) refl

  followed : (u v : Bytes) → followed_by c (u ++ esc ∷ c ∷ v) (length u) ≡ true
  followed u v =
      let next : at (u ++ esc ∷ c ∷ v) (length u + 1) ≡ c =
        ap (λ (n : ℕ). at (u ++ esc ∷ c ∷ v) n) (omega (arith, length-append u (esc ∷ [])))
        ∙ ap (λ (l : Bytes). at l (length (u ++ esc ∷ [])))
            (sym (append_assoc u (esc ∷ []) (c ∷ v)))
        ∙ get_or-append (u ++ esc ∷ []) (c ∷ v) 0 in
      ground (arith, next, length-append u (esc ∷ c ∷ v))

  unescape-step :
      (f : ℕ) (u v : Bytes)
      → Free esc u
      → unescape (suc f) c esc (u ++ esc ∷ c ∷ v) ≡ unescape f c esc ((u ++ c ∷ []) ++ v)
  unfolding unescape
  unescape-step f u v h =
      rw (find_char-append esc u (c ∷ v) h, unescape)
        (rw (followed u v, unescape)
          (ap (unescape f c esc) (
            ap₂ ◌++◌ (take-append u (esc ∷ c ∷ v)) (drop-append_suc u esc (c ∷ v))
            ∙ sym (append_assoc u (c ∷ []) v))))

  unescape-escaped :
      (t u : Bytes) (f : ℕ)
      → Free esc t
      → Free esc u
      → length t ≤ f
      → unescape f c esc (u ++ escaped c esc t) ≡ u ++ t
  unescape-escaped [] u f h k room = unescape-none f (u ++ []) (All-append (λ x. x ≢ esc) u [] k tt)
  unescape-escaped (x ∷ t) u zero h k room = absurd (omega arith)
  unescape-escaped (x ∷ t) u (suc f) h k room = elim (Bool-cases (x == c)) [
    | inl is ↦
        let same : x ≡ c = (==_iff x c).0 is in
        ap (λ (l : Bytes). unescape (suc f) c esc (u ++ l)) (escaped-sep c esc differ used x t is)
        ∙ unescape-step f u (escaped c esc t) k
        ∙ unescape-escaped t (u ++ c ∷ []) f h.1
            (All-append (λ y. y ≢ esc) u (c ∷ []) k (differ, tt)) (omega arith)
        ∙ append_assoc u (c ∷ []) t
        ∙ ap (λ (y : ℕ). u ++ y ∷ t) (sym same)
    | inr other ↦
        ap (λ (l : Bytes). unescape (suc f) c esc (u ++ l))
          (escaped-other c esc differ used x t other)
        ∙ ap (unescape (suc f) c esc) (sym (append_assoc u (x ∷ []) (escaped c esc t)))
        ∙ unescape-escaped t (u ++ x ∷ []) (suc f) h.1
            (All-append (λ y. y ≢ esc) u (x ∷ []) k (h.0, tt)) (omega arith)
        ∙ append_assoc u (x ∷ []) t
  ]

  token : (t : Bytes) → Free esc t → unescape_token c esc (escaped c esc t) ≡ t
  token t h =
      let used_here : (esc == 0) ≡ false = ground arith in
      rw used_here (unescape-escaped t [] (length (escaped c esc t)) h tt (length-escaped c esc t))

  at_start : (s : Bytes) → is_escaped esc s 0 ≡ false
  at_start s = ground arith

  found :
      (s : Bytes) (o : Option ℕ)
      → is_empty s ≡ false
      → skip_escaped (length s) c esc s (find c s 0) ≡ o
      → extract_token c esc s ≡ extracted_at c esc s o
  unfolding extract_token
  found s o h e = rw (h, e) refl

  find_start : (s : Bytes) → find c s 0 ≡ shift 0 (find_char c s)
  unfolding find
  find_start s = refl

  first_self : (n : ℕ) (v : Bytes) → shift n (find_char c (c ∷ v)) ≡ some n
  unfolding find_char
  first_self n v = let self : (c == c) ≡ true = ground arith in rw self (ap some (omega arith))

  pub not_empty : (x : ℕ) (t : Bytes) → is_empty (escaped c esc (x ∷ t)) ≡ false
  not_empty x t = elim (Bool-cases (x == c)) [ inl is ↦ rw is refl | inr other ↦ rw other refl ]

  -- An escaped token before a separator.
  pub extract_token-sep :
      (t r : Bytes)
      → Free esc t
      → extract_token c esc (escaped c esc t ++ c ∷ r)
        ≡ record { result = sep_found; token = t; rest = r }
  extract_token-sep t r h =
      let e = escaped c esc t in
      let s = e ++ c ∷ r in
      let sc =
        scan c esc differ used t [] (c ∷ r) s 0 (length s) refl refl h (at_start s)
          (omega (arith, length-append e (c ∷ r), length-escaped c esc t)) in
      let here : shift sc.pos (find_char c (c ∷ r)) ≡ some sc.pos = first_self sc.pos r in
      let pos : sc.pos ≡ length e = omega (arith, sc.behind) in
      found s (some (length e)) (is_empty-append e c r) (
        ap (skip_escaped (length s) c esc s) (find_start s)
        ∙ sc.same
        ∙ ap (skip_escaped sc.fuel c esc s) here
        ∙ skip-free c esc differ used sc.fuel sc.pos s sc.free
        ∙ ap some pos)
      ∙ ap₂ (λ (a b : Bytes). record { result = sep_found; token = a; rest = b })
          (ap (unescape_token c esc) (take-append e (c ∷ r)) ∙ token t h) (drop-append_suc e c r)

  -- An escaped token at the end.
  pub extract_token-last :
      (x : ℕ) (t : Bytes)
      → Free esc (x ∷ t)
      → extract_token c esc (escaped c esc (x ∷ t))
        ≡ record { result = sep_not_found; token = x ∷ t; rest = [] }
  extract_token-last x t h =
      let s = escaped c esc (x ∷ t) in
      let whole : s ≡ s ++ [] = sym (append-nil s) in
      let sc =
        scan c esc differ used (x ∷ t) [] [] s 0 (length s) whole refl h (at_start s)
          (length-escaped c esc (x ∷ t)) in
      found s none (not_empty x t) (
        ap (skip_escaped (length s) c esc s)
          (find_start s ∙ ap (λ (l : Bytes). shift 0 (find_char c l)) whole)
        ∙ sc.same
        ∙ unfold find_char in unfold skip_escaped in refl)
      ∙ ap (λ (a : Bytes). record { result = sep_not_found; token = a; rest = [] })
          (token (x ∷ t) h)
