-- ===== src/Uri/Parts.antt =====
-- The parts of a URI and their checks. The class holds the compiled patterns; `matches` stands for
-- Regex::match, which answers the groups of a match.
use yat.Common.{
  ℕ, Bool, true, false, not, ◌&&◌, [], ◌∷◌, ◌++◌, Option, none, some, ◌==◌, if◌then◌else◌,
}
use yat.Text.{Bytes, is_empty}
use yat.Uri.{pct_decode}

pub data Part : Type 0 where
  scheme authority userinfo host port path query fragment : Part

abbrev pub part_index : Part → ℕ
part_index scheme = 0
part_index authority = 1
part_index userinfo = 2
part_index host = 3
part_index port = 4
part_index path = 5
part_index query = 6
part_index fragment = 7

-- The patterns, by the members that hold them.
pub data Pattern : Type 0 where
  re_full re_scheme re_authority re_userinfo re_host re_port re_path re_query : Pattern
  re_fragment re_ipv4form re_ipv4 : Pattern

-- `m_part`, a map.
abbrev pub Parts : Type 0
Parts = Part → Option Bytes

abbrev pub set_part : Part → Bytes → Parts → Parts
set_part p v parts q = if part_index q == part_index p then some v else parts q

abbrev pub text_of : Option Bytes → Bytes
text_of none = []
text_of (some v) = v

unfoldable pub value : Part → Parts → Bytes
value p parts = text_of (parts p)

abbrev pub clear : Parts
clear p = none

-- A value, or one of the two exceptions.
pub data Result (A : Type 0) : Type 0 where
  ok : A → Result A
  uri_syntax_error : Result A
  bad_uri_string : Result A

infixl 5 ◌>>=◌
abbrev pub ◌>>=◌ : {A B : Type 0} → Result A → (A → Result B) → Result B
ok a >>= f = f a
uri_syntax_error >>= f = uri_syntax_error
bad_uri_string >>= f = bad_uri_string

abbrev pub Groups : Type 0
Groups = ℕ → Bytes

abbrev pub has_match : Option Groups → Bool
has_match none = false
has_match (some m) = true

-- A failed check, with and without an exception.
abbrev pub refuse : Bool → Result Bool
refuse throw_exception = if throw_exception then uri_syntax_error else ok false

pub record Authority : Type 0 where
  pub of_userinfo : Bytes
  pub of_host : Bytes
  pub of_port : Bytes

abbrev pub decoded : Option Bytes → Result Bytes
decoded none = bad_uri_string
decoded (some v) = ok v

-- What is written before and behind a text that is not empty.
abbrev pub with_prefix : Bytes → Bytes → Bytes
with_prefix mark v = if is_empty v then [] else mark ++ v

abbrev pub with_suffix : Bytes → Bytes → Bytes
with_suffix v mark = if is_empty v then [] else v ++ mark

-- `get` of one part; `:` is 58 and `@` is 64.
unfoldable pub get_part : Part → Parts → Result Bytes
unfolding value
get_part authority parts = decoded (
    pct_decode (
      with_suffix (value userinfo parts) (64 ∷ [])
      ++ (value host parts ++ with_prefix (58 ∷ []) (value port parts))))
get_part p parts = decoded (pct_decode (value p parts))

-- `get`; `/` is 47, `?` is 63 and `#` is 35.
unfoldable pub get : Parts → Result Bytes
unfolding get_part
get parts = do
  a ← get_part authority parts
  p ← get_part path parts
  q ← get_part query parts
  f ← get_part fragment parts
  ok (
      with_suffix (value scheme parts) (58 ∷ [])
      ++ (with_prefix (47 ∷ 47 ∷ []) a
          ++ (p ++ (with_prefix (63 ∷ []) q ++ with_prefix (35 ∷ []) f))))

unfoldable pub empty : Parts → Result Bool
unfolding get
empty parts = get parts >>= λ s. ok (is_empty s)

-- The three places where the path may be; if all are empty the part stays as it is.
abbrev pub take_path : Groups → Parts → Parts
take_path m parts =
    if not (is_empty (m 75))
    then set_part path (m 75) parts
    else if not (is_empty (m 78))
    then set_part path (m 78) parts
    else if not (is_empty (m 83))
    then set_part path (m 83) parts
    else parts

abbrev pub take_parts : Groups → Parts → Parts
take_parts m parts = set_part fragment (m 93) (
    set_part query (m 89) (
      set_part port (m 74) (
        set_part host (m 8) (
          set_part userinfo (m 6)
            (set_part authority (m 4) (set_part scheme (m 1) (take_path m parts)))))))

abbrev no_authority : Authority
no_authority = record { of_userinfo = []; of_host = []; of_port = [] }

abbrev authority_of : Option Groups → Result Authority
authority_of none = uri_syntax_error
authority_of (some m) = ok (record { of_userinfo = m 3; of_host = m 5; of_port = m 71 })

module _ (matches : Pattern → Bytes → Option Groups) where
  abbrev pub re_match : Pattern → Bytes → Bool
  re_match re v = has_match (matches re v)

  unfoldable pub check_value : Pattern → Bytes → Bool → Result Bool
  check_value re v throw_exception = if not (re_match re v) then refuse throw_exception else ok true

  abbrev pub bad_ipv4 : Bytes → Bool
  bad_ipv4 v = re_match re_ipv4form v && not (re_match re_ipv4 v)

  unfoldable pub check_host : Bytes → Bool → Result Bool
  check_host v throw_exception =
      if not (re_match re_host v)
      then refuse throw_exception
      else if bad_ipv4 v
      then uri_syntax_error
      else ok true

  unfoldable pub check : Part → Bytes → Bool → Result Bool
  unfolding check_value check_host
  check scheme v t = check_value re_scheme v t
  check authority v t = check_value re_authority v t
  check userinfo v t = check_value re_userinfo v t
  check host v t = check_host v t
  check port v t = check_value re_port v t
  check path v t = check_value re_path v t
  check query v t = check_value re_query v t
  check fragment v t = check_value re_fragment v t

  -- With `throw_exception`; the fields are empty before.
  unfoldable pub check_authority : Bytes → Result Authority
  check_authority v = if is_empty v then ok no_authority else authority_of (matches re_authority v)

  unfoldable pub set : Part → Bytes → Parts → Result Parts
  unfolding check check_authority check_host
  set authority v parts = do
    fields ← check_authority v
    ok (
        set_part port fields.of_port
          (set_part host fields.of_host (set_part userinfo fields.of_userinfo parts)))
  set host v parts = check_host v true >>= λ _. ok (set_part host v parts)
  set p v parts = check p v true >>= λ _. ok (set_part p v parts)

  abbrev parse_match : Option Groups → Parts → Result Parts
  parse_match none parts = uri_syntax_error
  parse_match (some m) parts = if bad_ipv4 (m 8) then uri_syntax_error else ok (take_parts m parts)

  unfoldable pub parse : Bytes → Parts → Result Parts
  parse uri parts = parse_match (matches re_full uri) parts
