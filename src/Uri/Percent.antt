-- ===== src/Uri/Percent.antt =====
-- When percent decoding undoes percent encoding.
use mathlib.Core.Option.{some-injective}
use native.Mathlib.Nat.{pow-suc}
use yat.Common.{
  ℕ, zero, suc, ◌+◌, ◌*◌, ◌/◌, ◌%◌, ◌^◌, ◌≤◌, ◌<◌, ◌≡◌, ◌≢◌, ◌⊎◌, refl, ap, ◌∙◌, inl, inr,
  Bool-cases, true, false, [], ◌∷◌, ◌++◌, Option, none, some, arith, ltb, ◌==◌, length,
  length-append, All, ==_iff, ap₂,
}
use yat.Text.{Bytes, find_char, shift}
use yat.Uri.{
  percent, is_some, is_reserved, hex_digit, hex_digits, char_to_int, encode_byte, pct_encode,
  is_hex, scan_two, too_near_end, cons, decode_loop, pct_decode,
}

pub decode-plain :
    (size x : ℕ) (s : Bytes) → x ≢ percent → decode_loop size (x ∷ s) ≡ cons x (decode_loop size s)
unfolding decode_loop
decode-plain size x [] h = ground arith
decode-plain size x (a ∷ []) h = ground arith
decode-plain size x (a ∷ b ∷ s) h = ground arith

decode-percent :
    (size a b : ℕ) (s : Bytes)
    → 3 + length s ≤ size
    → size < 2 ^ 64
    → decode_loop size (percent ∷ a ∷ b ∷ s) ≡ cons (scan_two a b) (decode_loop size s)
unfolding decode_loop
decode-percent size a b s h k =
    let far : too_near_end size (3 + length s) ≡ false = ground arith in rw far refl

scan-hex : (c : ℕ) → c < 256 → scan_two (hex_digit (c / 16)) (hex_digit (c % 16)) ≡ c
unfolding scan_two
scan-hex c h = ground arith

two_digits :
    (c : ℕ)
    → 16 ≤ c
    → c < 128
    → hex_digits 8 (char_to_int c) ≡ hex_digit (c / 16) ∷ hex_digit (c % 16) ∷ []
unfolding hex_digits
two_digits c h k = ground arith

-- A text of characters from which the range of its members follows.
is_reserved-range :
    (reserved : Bytes) (c : ℕ)
    → All (λ x. (16 ≤ x) × (x < 128)) reserved
    → is_reserved reserved c ≡ true
    → (16 ≤ c) × (c < 128)
unfolding is_reserved find_char
is_reserved-range [] c h e = cc
is_reserved-range (x ∷ r) c h e = elim (Bool-cases (x == c)) [
  | inl is ↦ let same : x ≡ c = (==_iff x c).0 is in rw (← same) h.0
  | inr other ↦ is_reserved-range r c h.1 (later (find_char c r) (rw other at e))
]
  where
    later : (o : Option ℕ) → is_some (shift 1 o) ≡ true → is_some o ≡ true
    later none k = k
    later (some i) k = refl

encode_byte-plain :
    (reserved : Bytes) (c : ℕ) → is_reserved reserved c ≡ false → encode_byte reserved c ≡ c ∷ []
unfolding encode_byte
encode_byte-plain reserved c h = rw h refl

encode_byte-reserved :
    (reserved : Bytes) (c : ℕ)
    → is_reserved reserved c ≡ true
    → encode_byte reserved c ≡ percent ∷ hex_digits 8 (char_to_int c)
unfolding encode_byte
encode_byte-reserved reserved c h = rw h refl

module _ (reserved : Bytes) (escapes : is_reserved reserved percent ≡ true)
    (printable : All (λ x. (16 ≤ x) × (x < 128)) reserved) where
  decode_loop-encode :
      (s : Bytes) (size : ℕ)
      → length (pct_encode reserved s) ≤ size
      → size < 2 ^ 64
      → decode_loop size (pct_encode reserved s) ≡ some s
  unfolding pct_encode
  decode_loop-encode [] size h k = unfold decode_loop in refl
  decode_loop-encode (c ∷ s) size h k = elim (Bool-cases (is_reserved reserved c)) [
    | inl e ↦
        let (low, high) = is_reserved-range reserved c printable e in
        let code : encode_byte reserved c ≡ percent ∷ hex_digit (c / 16) ∷ hex_digit (c % 16) ∷ [] =
          encode_byte-reserved reserved c e
          ∙ ap (λ (l : Bytes). percent ∷ l) (two_digits c low high) in
        ap (λ (l : Bytes). decode_loop size (l ++ pct_encode reserved s)) code
        ∙ decode-percent size (hex_digit (c / 16)) (hex_digit (c % 16)) (pct_encode reserved s)
            (omega (
              arith,
              ap length code,
              length-append (encode_byte reserved c) (pct_encode reserved s),
            ))
            k
        ∙ ap₂ cons (scan-hex c (omega arith)) (
            decode_loop-encode s size
              (omega (arith, length-append (encode_byte reserved c) (pct_encode reserved s))) k)
    | inr e ↦
        let other : c ≢ percent =
          λ (h' : c ≡ percent). cc (e, escapes, ap (is_reserved reserved) h') in
        ap (λ (l : Bytes). decode_loop size (l ++ pct_encode reserved s))
          (encode_byte-plain reserved c e)
        ∙ decode-plain size c (pct_encode reserved s) other
        ∙ ap (cons c) (
            decode_loop-encode s size
              (omega (arith, length-append (encode_byte reserved c) (pct_encode reserved s))) k)
  ]

-- If the reserved characters lie between 16 and 127 and `%` is one of them, decoding an encoded text
-- gives the text back, whatever bytes it has, unless it is as long as the address space.
pub pct_decode-pct_encode :
    (reserved s : Bytes)
    → is_reserved reserved percent ≡ true
    → All (λ x. (16 ≤ x) × (x < 128)) reserved
    → length (pct_encode reserved s) < 2 ^ 64
    → pct_decode (pct_encode reserved s) ≡ some s
unfolding pct_decode
pct_decode-pct_encode reserved s escapes printable room =
    decode_loop-encode reserved escapes printable s (length (pct_encode reserved s)) (omega arith)
      room

short_code : (c : ℕ) → c < 16 → hex_digits 8 (char_to_int c) ≡ hex_digit c ∷ []
unfolding hex_digits
short_code c h = ground arith

pow_pos : (j : ℕ) → 1 ≤ 16 ^ j
pow_pos zero = omega arith
pow_pos (suc j) = omega (arith, pow-suc 16 j, pow_pos j)

-- A number whose highest two digits are `FF`.
long_code :
    (j n : ℕ)
    → 255 * 16 ^ j ≤ n
    → n < 256 * 16 ^ j
    → (rest : Bytes) × (hex_digits (suc (suc j)) n ≡ 70 ∷ 70 ∷ rest)
unfolding hex_digits
long_code zero n h k = let ff : n ≡ 255 = omega arith in ([], rw ff refl)
long_code (suc j) n h k =
    let (rest, e) =
      long_code j (n / 16) (omega (arith, pow-suc 16 j)) (omega (arith, pow-suc 16 j)) in
    let large : ltb n 16 ≡ false = ground (arith, pow-suc 16 j, pow_pos j) in
    (rest ++ hex_digit (n % 16) ∷ [], rw large (ap (λ (l : Bytes). l ++ hex_digit (n % 16) ∷ []) e))

first_byte : (c x : ℕ) (o : Option Bytes) (s : Bytes) → c ≢ x → cons c o ≢ some (x ∷ s)
first_byte c x none s h e = cc
first_byte c x (some r) s h e = h (ap head (some-injective _ _ e))
  where
    head : Bytes → ℕ
    head [] = 0
    head (y ∷ l) = y

decode-starts :
    (size a b x : ℕ) (r s : Bytes)
    → scan_two a b ≢ x
    → decode_loop size (percent ∷ a ∷ b ∷ r) ≢ some (x ∷ s)
unfolding decode_loop
decode-starts size a b x r s h e = elim (Bool-cases (too_near_end size (3 + length r))) [
  | inl near ↦ cc (rw near at e)
  | inr far ↦ first_byte (scan_two a b) x (decode_loop size r) s h (rw far at e)
]

scan-ff : scan_two 70 70 ≡ 255
unfolding scan_two
scan-ff = refl

scan-short : (x y : ℕ) → 1 ≤ x → x < 16 → is_hex y ≡ true → scan_two (hex_digit x) y ≢ x
unfolding scan_two
scan-short x y low high hex = ground arith

-- A text of two bytes or more that begins with a reserved byte from 128 to 254, or with a reserved
-- byte from 1 to 15 and then a hexadecimal digit that is not reserved, is encoded to a text that is
-- not decoded to it again.
pub pct_decode-ne-pct_encode :
    (reserved : Bytes) (x y : ℕ) (s : Bytes)
    → is_reserved reserved x ≡ true
    → ((128 ≤ x) × (x < 255))
      ⊎ ((1 ≤ x) × (x < 16) × (is_reserved reserved y ≡ false) × (is_hex y ≡ true))
    → pct_decode (pct_encode reserved (x ∷ y ∷ s)) ≢ some (x ∷ y ∷ s)
unfolding pct_decode pct_encode
pct_decode-ne-pct_encode reserved x y s h (inl (low, high)) =
    let (rest, e) = long_code 6 (char_to_int x) (ground arith) (ground arith) in
    let code = encode_byte-reserved reserved x h ∙ ap (λ (l : Bytes). percent ∷ l) e in
    rw code (
      decode-starts _ 70 70 x (rest ++ (encode_byte reserved y ++ pct_encode reserved s)) (y ∷ s)
        (λ (k : scan_two 70 70 ≡ x). omega (arith, scan-ff)))
pct_decode-ne-pct_encode reserved x y s h (inr (low, high, plain, hex)) =
    let code =
      encode_byte-reserved reserved x h ∙ ap (λ (l : Bytes). percent ∷ l) (short_code x high) in
    rw (code, encode_byte-plain reserved y plain)
      (decode-starts _ (hex_digit x) y x (pct_encode reserved s) (y ∷ s)
        (scan-short x y low high hex))
