-- ===== src/MemBuf/Roundtrip.antt =====
-- What is streamed out comes back in.
use mathlib.Core.List.{append-nil, append_assoc}
use yat.Common.{
  ℕ, ◌+◌, ◌*◌, ◌%◌, ◌^◌, ◌≤◌, ◌≡◌, ◌≢◌, ◌==◌, refl, sym, ap, ◌∙◌, Bool, true, false, List, [], ◌∷◌,
  ◌++◌, Option, none, some, map, arith, length, All, drop, take-append-drop, drop-append-le,
  drop-nil, length-append, length-map,
}
use yat.MemBuf.{MemBuf, Cell, cells, block_cells, get_bloc, ◌>>=◌}
use yat.MemBuf.Grow.{put_bloc-Becomes}
use yat.MemBuf.Room.{IsValid, contents, length-contents, max_total}
use yat.MemBuf.Stream.{unread, put_bloc-unread, put_bloc-IsValid, get_bloc-Reads}
use yat.MemBuf.Words.{
  Width, one, two, four, eight, size, le_bytes, invert, out_bytes, put_word, le_value, object_value,
  received, get_word, get_text, put_text, c_string, text_from,
}

-- On either kind of host the stream holds the lowest byte first.
out_bytes-eq : (big : Bool) (w : Width) (v : ℕ) → out_bytes big w v ≡ map some (le_bytes (size w) v)
unfolding out_bytes
out_bytes-eq false w v = refl
out_bytes-eq true one v = refl
out_bytes-eq true two v = refl
out_bytes-eq true four v = refl
out_bytes-eq true eight v = refl

length-out_bytes : (big : Bool) (w : Width) (v : ℕ) → length (out_bytes big w v) ≡ size w
unfolding le_bytes
length-out_bytes big one v = rw (out_bytes-eq big one v)
length-out_bytes big two v = rw (out_bytes-eq big two v)
length-out_bytes big four v = rw (out_bytes-eq big four v)
length-out_bytes big eight v = rw (out_bytes-eq big eight v)

abbrev pub modulus : Width → ℕ
modulus w = 2 ^ (8 * size w)

le_value-le_bytes :
    (w : Width) (v : ℕ) → le_value (map some (le_bytes (size w) v)) ≡ some (v % modulus w)
unfolding le_value le_bytes
le_value-le_bytes one v = ap some (omega arith)
le_value-le_bytes two v = ap some (omega arith)
le_value-le_bytes four v = ap some (omega arith)
le_value-le_bytes eight v = ap some (omega arith)

object_value-invert :
    (w : Width) (v : ℕ)
    → object_value true (invert w (map some (le_bytes (size w) v)))
      ≡ le_value (map some (le_bytes (size w) v))
unfolding object_value le_bytes
object_value-invert one v = refl
object_value-invert two v = refl
object_value-invert four v = refl
object_value-invert eight v = refl

received-out_bytes :
    (big : Bool) (w : Width) (v : ℕ) (r : MemBuf)
    → received big w (map some (le_bytes (size w) v)) r ≡ some (v % modulus w, r)
received-out_bytes false w v r = unfold object_value in rw (le_value-le_bytes w v)
received-out_bytes true w v r = rw (object_value-invert w v, le_value-le_bytes w v)

-- A value of each width, in the order in which the program streams them.
abbrev pub Words : Type 0
Words = List (Width × ℕ)

abbrev pub total_size : Words → ℕ
total_size [] = 0
total_size ((w, v) ∷ vs) = size w + total_size vs

abbrev pub stream : Words → List Cell
stream [] = []
stream ((w, v) ∷ vs) = map some (le_bytes (size w) v) ++ stream vs

abbrev pub put_words : Bool → Words → MemBuf → Option MemBuf
put_words big [] b = some b
put_words big ((w, v) ∷ vs) b = put_word big w v b >>= put_words big vs

abbrev pub types : Words → List Width
types [] = []
types ((w, v) ∷ vs) = w ∷ types vs

-- The values that a sequence of types reads, into variables that hold anything before: `old n` with
-- `n` more to read behind it.
abbrev pub get_words : Bool → (ℕ → ℕ) → List Width → MemBuf → Option (List ℕ)
get_words big old [] b = some []
get_words big old (w ∷ ws) b = get_word big w (old (length ws)) b >>= λ (v, r).
    get_words big old ws r >>= λ rest. some (v ∷ rest)

abbrev pub values : Words → List ℕ
values [] = []
values ((w, v) ∷ vs) = (v % modulus w) ∷ values vs

-- The buffer that a sequence of `operator<<` leads to.
record Streamed (b : MemBuf) (cs : List Cell) (o : Option MemBuf) : Type 0 where
  pub buffer : MemBuf
  pub returns : o ≡ some buffer
  pub valid : IsValid buffer
  pub pending : unread buffer ≡ unread b ++ cs

put_words-Streamed :
    (big : Bool) (vs : Words) (b : MemBuf)
    → IsValid b
    → b.len + total_size vs ≤ max_total
    → Streamed b (stream vs) (put_words big vs b)
unfolding put_word
put_words-Streamed big [] b v small = record {
  buffer = b;
  returns = refl;
  valid = v;
  pending = sym (append-nil (unread b));
}
put_words-Streamed big ((w, x) ∷ vs) b v small =
    let p = out_bytes big w x in
    let width = length-out_bytes big w x in
    let fits : b.len + length p ≤ max_total = omega (arith, width) in
    let first = put_bloc-Becomes p b v fits in
    let (valid, len) = put_bloc-IsValid p b first.buffer v fits first.returns in
    let later = put_words-Streamed big vs first.buffer valid (omega (arith, len, width)) in
    record {
      buffer = later.buffer;
      returns = rw first.returns later.returns;
      valid = later.valid;
      pending =
          later.pending
          ∙ ap (λ (l : List Cell). l ++ stream vs)
              (put_bloc-unread p b first.buffer v fits first.returns
                ∙ ap (◌++◌ (unread b)) (out_bytes-eq big w x))
          ∙ append_assoc (unread b) (map some (le_bytes (size w) x)) (stream vs);
    }

get_words-stream :
    (big : Bool) (old : ℕ → ℕ) (vs : Words) (rest : List Cell) (b : MemBuf)
    → IsValid b
    → unread b ≡ stream vs ++ rest
    → get_words big old (types vs) b ≡ some (values vs)
unfolding get_word
get_words-stream big old [] rest b v e = refl
get_words-stream big old ((w, x) ∷ vs) rest b v e =
    let p = map some (le_bytes (size w) x) in
    let width : length p ≡ size w =
      ap length (sym (out_bytes-eq big w x)) ∙ length-out_bytes big w x in
    let got = get_bloc-Reads p (stream vs ++ rest) b v (e ∙ append_assoc p (stream vs) rest) in
    let later = get_words-stream big old vs rest got.after got.valid got.left in
    let bytes = ap (λ (n : ℕ). get_bloc n b) (sym width) ∙ got.returns in
    rw bytes (rw (received-out_bytes big w x got.after) (rw later))

-- Whatever sequence of integral values is streamed into a valid buffer with nothing left to read,
-- as long as its length stays within range, the same sequence of types streams the values out
-- again, each modulo its width, on either kind of host at either end and whatever the variables hold
-- that they are read into.
pub get_words-put_words :
    (big_out big_in : Bool) (old : ℕ → ℕ) (vs : Words) (b : MemBuf)
    → IsValid b
    → unread b ≡ []
    → b.len + total_size vs ≤ max_total
    → (put_words big_out vs b >>= get_words big_in old (types vs)) ≡ some (values vs)
get_words-put_words big_out big_in old vs b v none_left small =
    let there = put_words-Streamed big_out vs b v small in
    rw there.returns (
      get_words-stream big_in old vs [] there.buffer there.valid (
        there.pending
        ∙ ap (λ (l : List Cell). l ++ stream vs) none_left
        ∙ sym (append-nil (stream vs))))

c_string-append :
    (t : List ℕ) (rest : List Cell)
    → All (λ c. c ≢ 0) t
    → c_string (map some (t ++ 0 ∷ []) ++ rest) ≡ some t
unfolding c_string
c_string-append [] rest h = refl
c_string-append (c ∷ t) rest h =
    let nonzero : (c == 0) ≡ false = let ne = h.0 in ground arith in
    rw (nonzero, c_string) (rw (c_string-append t rest h.1))

-- The block goes on behind the contents.
drop-cells : (b : MemBuf) → IsValid b → drop b.pos (cells b) ≡ unread b ++ drop b.len (cells b)
drop-cells b v =
    ap (drop b.pos) (sym (take-append-drop b.len (cells b)))
    ∙ drop-append-le b.pos (contents b) (drop b.len (cells b))
        (omega (arith, length-contents b v, v.placed))

text_from-eq :
    (str t : List ℕ) (b : MemBuf) (o : Option (List Cell))
    → c_string (drop b.pos (block_cells o)) ≡ some t
    → text_from b o str ≡ some (str ++ t, b)
text_from-eq str t b none e =
    let nothing : c_string (drop b.pos []) ≡ none = unfold c_string in rw (drop-nil b.pos) in cc
text_from-eq str t b (some cs) e = rw e

-- A text without zero bytes that was streamed into a valid buffer with nothing left to read, its
-- length within range, is appended to the target; the buffer stays as it is, its position included,
-- so the next read starts at the same text again.
pub get_text-put_text :
    (str t : List ℕ) (b r : MemBuf)
    → IsValid b
    → unread b ≡ []
    → All (λ c. c ≢ 0) t
    → b.len + length t + 1 ≤ max_total
    → put_text t b ≡ some r
    → get_text str r ≡ some (str ++ t, r)
unfolding put_text get_text
get_text-put_text str t b r v none_left nonzero small e =
    let p = map some (t ++ 0 ∷ []) in
    let width : length p ≡ length t + 1 =
      length-map (t ++ 0 ∷ []) some ∙ length-append t (0 ∷ []) in
    let fits : b.len + length p ≤ max_total = omega (arith, width) in
    let (valid, _) = put_bloc-IsValid p b r v fits e in
    let next : drop r.pos (cells r) ≡ p ++ drop r.len (cells r) =
      drop-cells r valid
      ∙ ap (λ (l : List Cell). l ++ drop r.len (cells r))
          (put_bloc-unread p b r v fits e ∙ ap (λ (l : List Cell). l ++ p) none_left) in
    text_from-eq str t r r.block
      (ap c_string next ∙ c_string-append t (drop r.len (cells r)) nonzero)
