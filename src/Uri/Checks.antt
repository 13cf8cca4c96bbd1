-- ===== src/Uri/Checks.antt =====
-- What the operations on the parts promise.
use yat.Common.{
  ℕ, ◌≡◌, ◌≢◌, refl, sym, ap, ◌∙◌, inl, inr, Bool, Bool-cases, true, false, [], ◌∷◌, Option, some,
  arith, not, ◌&&◌, ◌==◌, length,
}
use mathlib.Core.Path.{subst}
use yat.Text.{Bytes}
use yat.Text.Find.{Free}
use yat.Uri.{percent, cons, decode_loop, pct_decode}
use yat.Uri.Percent.{decode-plain}
use yat.Uri.Parts.{
  Part, scheme, authority, userinfo, host, port, path, query, fragment, part_index, Pattern,
  re_full, re_scheme, re_authority, re_userinfo, re_host, re_port, re_path, re_query, re_fragment,
  Parts, set_part, value, Result, ok, uri_syntax_error, bad_uri_string, Groups, re_match, check,
  check_value, bad_ipv4, set, parse, take_parts, get_part, decoded, text_of, ◌>>=◌,
}

abbrev pub pattern_of : Part → Pattern
pattern_of scheme = re_scheme
pattern_of authority = re_authority
pattern_of userinfo = re_userinfo
pattern_of host = re_host
pattern_of port = re_port
pattern_of path = re_path
pattern_of query = re_query
pattern_of fragment = re_fragment

set_part_self : (p : Part) (v : Bytes) (parts : Parts) → set_part p v parts p ≡ some v
set_part_self p v parts =
    let self : (part_index p == part_index p) ≡ true = ground arith in rw self refl

set_part_other :
    (p q : Part) (v : Bytes) (parts : Parts)
    → (part_index q == part_index p) ≡ false
    → set_part p v parts q ≡ parts q
set_part_other p q v parts h = rw h refl

ok-injective : {A : Type 0} {a b : A} → ok a ≡ ok b → a ≡ b
ok-injective e = cc

module _ (matches : Pattern → Bytes → Option Groups) where
  -- What `set` requires of a value: a match, and a host must not look like an address that is none.
  abbrev pub allowed : Part → Bytes → Bool
  allowed host v = re_match matches re_host v && not (bad_ipv4 matches v)
  allowed p v = re_match matches (pattern_of p) v

  -- What a call of `set` may end with: the new parts, or the exception, for a value that is not
  -- allowed.
  abbrev pub Sets : Part → Bytes → Parts → Result Parts → Type 0
  Sets p v parts (ok new) =
      (allowed p v ≡ true)
      × (new p ≡ some v)
      × ((q : Part) → (part_index q == part_index p) ≡ false → new q ≡ parts q)
  Sets p v parts uri_syntax_error = allowed p v ≡ false
  Sets p v parts bad_uri_string = ⊥

  stored :
      (p : Part) (v : Bytes) (parts : Parts)
      → allowed p v ≡ true
      → Sets p v parts (ok (set_part p v parts))
  stored p v parts h = (h, set_part_self p v parts, λ q other. set_part_other p q v parts other)

  checked :
      (p : Part) (v : Bytes) (parts : Parts) (re : Pattern)
      → allowed p v ≡ re_match matches re v
      → Sets p v parts (check_value matches re v true >>= λ _. ok (set_part p v parts))
  unfolding check_value
  checked p v parts re e = elim (Bool-cases (re_match matches re v)) [
    | inl h ↦ rw h (stored p v parts (e ∙ h))
    | inr h ↦ rw h (e ∙ h)
  ]

  -- Setting any part but the authority stores the value as it is and changes no other part, if the
  -- value is allowed, and raises the exception just if it is not.
  pub set-Sets :
      (p : Part) (v : Bytes) (parts : Parts)
      → p ≢ authority
      → Sets p v parts (set matches p v parts)
  unfolding set
  set-Sets scheme v parts ne = checked scheme v parts re_scheme refl
  set-Sets authority v parts ne = absurd (ne refl)
  set-Sets userinfo v parts ne = checked userinfo v parts re_userinfo refl
  set-Sets host v parts ne = elim (Bool-cases (re_match matches re_host v)) [
    | inl h ↦ elim (Bool-cases (bad_ipv4 matches v)) [
      | inl bad ↦ let refused : allowed host v ≡ false = rw (h, bad) refl in rw (h, bad) refused
      | inr good ↦
          let fine : allowed host v ≡ true = rw (h, good) refl in
          rw (h, good) (stored host v parts fine)
    ]
    | inr h ↦ let refused : allowed host v ≡ false = rw h refl in rw h refused
  ]
  set-Sets port v parts ne = checked port v parts re_port refl
  set-Sets path v parts ne = checked path v parts re_path refl
  set-Sets query v parts ne = checked query v parts re_query refl
  set-Sets fragment v parts ne = checked fragment v parts re_fragment refl

  -- A host that matches the pattern of hosts and looks like an address that is none makes `check`
  -- raise the exception, also where the caller asks for no exception.
  pub check-host_throws :
      (v : Bytes) (throw_exception : Bool)
      → re_match matches re_host v ≡ true
      → bad_ipv4 matches v ≡ true
      → check matches host v throw_exception ≡ uri_syntax_error
  unfolding check
  check-host_throws v t h bad = rw (h, bad) refl

  -- Parsing a URI without a path over another one replaces the scheme, the host, the port, the query
  -- and the fragment by those of the URI, but keeps the path of the one before.
  pub parse-keeps_path :
      (uri : Bytes) (parts new : Parts) (m : Groups)
      → matches re_full uri ≡ some m
      → m 75 ≡ []
      → m 78 ≡ []
      → m 83 ≡ []
      → parse matches uri parts ≡ ok new
      → (value path new ≡ value path parts)
        × (value scheme new ≡ m 1)
        × (value host new ≡ m 8)
        × (value port new ≡ m 74)
        × (value query new ≡ m 89)
        × (value fragment new ≡ m 93)
  unfolding parse value
  parse-keeps_path uri parts new m e a b c done = elim (Bool-cases (bad_ipv4 matches (m 8))) [
    | inl bad ↦ cc (rw (e, bad) at done)
    | inr good ↦
        let final : take_parts m parts ≡ new = ok-injective (rw (e, good) at done) in
        rw (sym final) (rw (a, b, c) (refl, refl, refl, refl, refl, refl))
  ]

decode_loop-Free : (size : ℕ) (s : Bytes) → Free percent s → decode_loop size s ≡ some s
decode_loop-Free size [] h = unfold decode_loop in refl
decode_loop-Free size (x ∷ s) h =
    decode-plain size x s h.0 ∙ ap (cons x) (decode_loop-Free size s h.1)

pct_decode-Free : (s : Bytes) → Free percent s → pct_decode s ≡ some s
unfolding pct_decode
pct_decode-Free s h = decode_loop-Free (length s) s h

get_part-value :
    (p : Part) (parts : Parts)
    → p ≢ authority
    → get_part p parts ≡ decoded (pct_decode (value p parts))
unfolding get_part
get_part-value scheme parts ne = refl
get_part-value authority parts ne = absurd (ne refl)
get_part-value userinfo parts ne = refl
get_part-value host parts ne = refl
get_part-value port parts ne = refl
get_part-value path parts ne = refl
get_part-value query parts ne = refl
get_part-value fragment parts ne = refl

-- A value without a percent sign that was set as any part but the authority is what `get` of that
-- part answers.
pub get_part-set :
    (matches : Pattern → Bytes → Option Groups) (p : Part) (v : Bytes) (parts new : Parts)
    → p ≢ authority
    → Free percent v
    → set matches p v parts ≡ ok new
    → get_part p new ≡ ok v
unfolding value
get_part-set matches p v parts new ne plain done =
    let (_, held, _) = subst (Sets matches p v parts) done (set-Sets matches p v parts ne) in
    get_part-value p new ne
    ∙ ap (λ (o : Option Bytes). decoded (pct_decode (text_of o))) held
    ∙ ap decoded (pct_decode-Free v plain)
