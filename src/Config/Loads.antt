-- ===== src/Config/Loads.antt =====
-- A whole file: its lines are read one after another, and each does what it means.
use yat.Common.{
  ℕ, zero, suc, ◌≤◌, ◌≡◌, refl, ap, ◌∙◌, Bool, true, false, List, [], ◌∷◌, ◌++◌, Option, some,
  length, arith, All, length-append, if◌then◌else◌,
}
use yat.Text.{Bytes, extract_token, Extracted}
use yat.Text.Find.{Free}
use yat.Text.Trim.{trim, is_trimmed}
use yat.Config.{
  CfgFile, Loading, default_section, line_turn, single_turn, multiline_turn, continues, finish,
  and_then, load_loop, loading, load_from_string, store,
}
use yat.Config.Lines.{trim-trimmed, extract_token-plain}
use yat.Config.Entries.{Entry, written, IsLine, Reading, meaning, reading_of}
use yat.Config.Turns.{entry-Reads}

-- The text of a file with one entry a line.
abbrev pub text_of_entries : List Entry → Bytes
text_of_entries [] = []
text_of_entries (e ∷ es) = written e ++ 10 ∷ text_of_entries es

abbrev pub meanings : List Entry → Reading → Reading
meanings [] r = r
meanings (e ∷ es) r = meanings es (meaning e r)

-- The file that was read, with the cursor on the default section.
abbrev pub closed : Reading → CfgFile
closed r = record (r.file) { section = default_section }

line_turn-single :
    (line : Bytes) (l : Loading) → l.is_multiline ≡ false → line_turn line l ≡ single_turn line l
unfolding line_turn
line_turn-single line l h =
    ap (λ (b : Bool). if b then multiline_turn line (continues line) l else single_turn line l) h

finish-closed : (l : Loading) → l.is_multiline ≡ false → finish l ≡ closed (reading_of l)
unfolding finish
finish-closed l h =
    ap (λ (b : Bool). closed (reading_of (if b then store l.param_name l.line l else l))) h

-- The body of the loop, from what `extract_token` gives.
abbrev turn_with : ℕ → Extracted → Loading → Option CfgFile
turn_with f e l =
    and_then (line_turn (trim e.token) (record l { line = trim e.token }))
      (λ next. load_loop f e.rest next)

loop-line :
    (f : ℕ) (line rest : Bytes) (l : Loading)
    → load_loop (suc f) (line ++ 10 ∷ rest) l
      ≡ turn_with f (extract_token 10 0 (line ++ 10 ∷ rest)) l
unfolding load_loop
loop-line f [] rest l = refl
loop-line f (x ∷ line) rest l = refl

loop-end : (f : ℕ) (l : Loading) → load_loop f [] l ≡ some (finish l)
unfolding load_loop
loop-end zero l = refl
loop-end (suc f) l = refl

-- A line that is trimmed, with the turn that it takes.
loop-reads :
    (f : ℕ) (line rest : Bytes) (l next : Loading)
    → Free 10 line
    → is_trimmed line ≡ true
    → l.is_multiline ≡ false
    → single_turn line (record l { line = line }) ≡ some next
    → load_loop (suc f) (line ++ 10 ∷ rest) l ≡ load_loop f rest next
loop-reads f line rest l next free trimmed single turn =
    loop-line f line rest l
    ∙ ap (λ (e : Extracted). turn_with f e l) (extract_token-plain 10 line rest free)
    ∙ ap (λ (t : Bytes). and_then (line_turn t (record l { line = t })) (λ m. load_loop f rest m))
        (trim-trimmed line trimmed)
    ∙ ap (λ (o : Option Loading). and_then o (λ m. load_loop f rest m))
        (line_turn-single line (record l { line = line }) single ∙ turn)

loads :
    (es : List Entry) (f : ℕ) (l : Loading)
    → All IsLine es
    → l.is_multiline ≡ false
    → length (text_of_entries es) ≤ f
    → load_loop f (text_of_entries es) l ≡ some (closed (meanings es (reading_of l)))
loads [] f l h single room = loop-end f l ∙ ap some (finish-closed l single)
loads (e ∷ es) zero l h single room =
    absurd (omega (arith, length-append (written e) (10 ∷ text_of_entries es)))
loads (e ∷ es) (suc f) l ((free, trimmed, form), h) single room =
    let (next, turn, reads, multi) = entry-Reads e (record l { line = written e }) form in
    loop-reads f (written e) (text_of_entries es) l next free trimmed single turn
    ∙ loads es f next h (multi ∙ single)
        (omega (arith, length-append (written e) (10 ∷ text_of_entries es)))
    ∙ ap (λ (r : Reading). some (closed (meanings es r))) reads

-- A text of lines, each an entry without white space around it, is loaded into any file: every line
-- does what its entry means, one after another from the default section on, and the cursor is put
-- on the default section again. A parameter goes to the last object if there is one and to the
-- section if not, and a section that is declared again loses what it held.
pub load_from_string-means :
    (es : List Entry) (f : CfgFile)
    → All IsLine es
    → load_from_string (text_of_entries es) f ≡ some (closed (meanings es (reading_of (loading f))))
unfolding load_from_string
load_from_string-means es f h =
    loads es (length (text_of_entries es)) (loading f) h refl (omega arith)
