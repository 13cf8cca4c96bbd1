-- ===== src/Uri/Tests.antt =====
-- Encodings and parts, and the theorems at concrete inputs.
use yat.Common.{
  ◌≤◌, ◌<◌, ◌^◌, ◌≡◌, ◌≢◌, refl, true, false, [], ◌∷◌, Option, none, some, arith, All, inr,
  if◌then◌else◌, length,
}
use yat.Text.{Bytes, find_char, is_empty}
use yat.Text.Find.{Free}
use yat.Uri.{
  percent, is_reserved, hex_digits, encode_byte, pct_encode, scan_two, decode_loop, pct_decode,
}
use yat.Uri.Percent.{pct_decode-pct_encode, pct_decode-ne-pct_encode}
use yat.Uri.Parts.{
  authority, host, Pattern, Parts, Groups, ok, uri_syntax_error, clear, set_part, value, get_part,
  get, check, check_host, check_value, check_authority, set, parse, empty,
}
use yat.Uri.Checks.{Sets, set-Sets}

methods : Unit {0}
unfolding find_char is_reserved hex_digits encode_byte pct_encode scan_two decode_loop pct_decode
    value get_part get check check_host check_value check_authority set parse empty
methods = tt

-- URI_RESERVED.
abbrev reserved : Bytes
reserved =
    32 ∷ 33 ∷ 36 ∷ 38 ∷ 39 ∷ 40 ∷ 41 ∷ 42 ∷ 43 ∷ 44 ∷ 59 ∷ 61 ∷ 58 ∷ 63 ∷ 35 ∷ 91 ∷ 93 ∷ 64 ∷ 37
    ∷ []

-- `a b%`.
abbrev spaced : Bytes
spaced = 97 ∷ 32 ∷ 98 ∷ 37 ∷ []

encodes : pct_encode reserved spaced ≡ 97 ∷ 37 ∷ 50 ∷ 48 ∷ 98 ∷ 37 ∷ 50 ∷ 53 ∷ []
unfolding methods
encodes = refl

-- `%4` and `ab%4`.
short_is_taken : pct_decode (37 ∷ 52 ∷ []) ≡ some (4 ∷ [])
unfolding methods
short_is_taken = refl

longer_is_refused : pct_decode (97 ∷ 98 ∷ 37 ∷ 52 ∷ []) ≡ none
unfolding methods
longer_is_refused = refl

percent_in_reserved : is_reserved reserved percent ≡ true
unfolding methods
percent_in_reserved = refl

reserved_printable : All (λ x. (16 ≤ x) × (x < 128)) reserved
reserved_printable = (
  (omega arith, omega arith),
  (
    (omega arith, omega arith),
    (
      (omega arith, omega arith),
      (
        (omega arith, omega arith),
        (
          (omega arith, omega arith),
          (
            (omega arith, omega arith),
            (
              (omega arith, omega arith),
              (
                (omega arith, omega arith),
                (
                  (omega arith, omega arith),
                  (
                    (omega arith, omega arith),
                    (
                      (omega arith, omega arith),
                      (
                        (omega arith, omega arith),
                        (
                          (omega arith, omega arith),
                          (
                            (omega arith, omega arith),
                            (
                              (omega arith, omega arith),
                              (
                                (omega arith, omega arith),
                                (
                                  (omega arith, omega arith),
                                  ((omega arith, omega arith), ((omega arith, omega arith), tt)),
                                ),
                              ),
                            ),
                          ),
                        ),
                      ),
                    ),
                  ),
                ),
              ),
            ),
          ),
        ),
      ),
    ),
  ),
)

encoded_short : length (pct_encode reserved spaced) < 2 ^ 64
unfolding methods
encoded_short = omega arith

pct_decode-pct_encode_example : pct_decode (pct_encode reserved spaced) ≡ some spaced
pct_decode-pct_encode_example =
    pct_decode-pct_encode reserved spaced percent_in_reserved reserved_printable encoded_short

-- A line feed before `0`.
line_reserved : is_reserved (10 ∷ 37 ∷ []) 10 ≡ true
unfolding methods
line_reserved = refl

zero_free : is_reserved (10 ∷ 37 ∷ []) 48 ≡ false
unfolding methods
zero_free = refl

pct_decode-ne-pct_encode_example :
    pct_decode (pct_encode (10 ∷ 37 ∷ []) (10 ∷ 48 ∷ [])) ≢ some (10 ∷ 48 ∷ [])
pct_decode-ne-pct_encode_example =
    pct_decode-ne-pct_encode (10 ∷ 37 ∷ []) 10 48 [] line_reserved
      (inr (omega arith, omega arith, zero_free, refl))

-- A matcher that finds every text that is not empty, without groups.
abbrev matches : Pattern → Bytes → Option Groups
matches re v = if is_empty v then none else some (λ i. [])

no_authority : host ≢ authority
no_authority = λ h. cc

refuses_empty : set matches host [] clear ≡ uri_syntax_error
unfolding methods
refuses_empty = refl

set-Sets_example : Sets matches host (97 ∷ []) clear (set matches host (97 ∷ []) clear)
set-Sets_example = set-Sets matches host (97 ∷ []) clear no_authority

abbrev with_host : Parts
with_host = set_part host (97 ∷ []) clear

is_set : set matches host (97 ∷ []) clear ≡ ok with_host
unfolding methods
is_set = refl

a-Free : Free percent (97 ∷ [])
a-Free = ((λ h. omega (arith, h)), tt)
