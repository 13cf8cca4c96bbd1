-- ===== src/CommandLine/Items.antt =====
-- The words of a command line by what they are, and what they mean.
use yat.Common.{ℕ, ◌≡◌, ◌≢◌, true, false, List, [], ◌∷◌, some}
use yat.Text.{Bytes, is_empty}
use yat.CommandLine.{
  has_none, CommandLineOpt, CommandLineArg, CommandLine, find_short_opt, find_long_opt, dash, dummy,
  starts_with_char, store_value, push_arg,
}

-- An option by its long name or its character, with a value or without one, or an argument. Behind the
-- character of an option more may stand, and is ignored.
pub data Item : Type 0 where
  long_value : (name v : Bytes) → Item
  long_alone : (name : Bytes) → Item
  short_value : (c : ℕ) (more name v : Bytes) → Item
  short_alone : (c : ℕ) (more name : Bytes) → Item
  plain : (w : Bytes) → Item

abbrev pub long_word : Bytes → Bytes
long_word name = dash ∷ dash ∷ name

abbrev pub words_before : Item → List Bytes → List Bytes
words_before (long_value name v) rest = long_word name ∷ v ∷ rest
words_before (long_alone name) rest = long_word name ∷ rest
words_before (short_value c more name v) rest = (dash ∷ c ∷ more) ∷ v ∷ rest
words_before (short_alone c more name) rest = (dash ∷ c ∷ more) ∷ rest
words_before (plain w) rest = w ∷ rest

abbrev pub all_words : List Item → List Bytes → List Bytes
all_words [] rest = rest
all_words (i ∷ is) rest = words_before i (all_words is rest)

-- The item is one of the options that are defined, or an argument where arguments are.
abbrev pub Fits : List CommandLineOpt → List CommandLineArg → Item → Type 0
Fits os as_defs (long_value name v) =
    (o : CommandLineOpt) × (find_long_opt name os ≡ some o) × (is_empty o.value ≡ false)
Fits os as_defs (long_alone name) =
    (o : CommandLineOpt) × (find_long_opt name os ≡ some o) × (is_empty o.value ≡ true)
Fits os as_defs (short_value c more name v) =
    (c ≢ dash)
    × (o : CommandLineOpt) × (find_short_opt c os ≡ some o)
    × (is_empty o.value ≡ false)
    × (o.long_name ≡ name)
Fits os as_defs (short_alone c more name) =
    (c ≢ dash)
    × (o : CommandLineOpt) × (find_short_opt c os ≡ some o)
    × (is_empty o.value ≡ true)
    × (o.long_name ≡ name)
Fits os as_defs (plain w) = (starts_with_char dash w ≡ false) × (has_none as_defs ≡ false)

abbrev pub meaning : Item → CommandLine → CommandLine
meaning (long_value name v) cl = store_value name v cl
meaning (long_alone name) cl = store_value name dummy cl
meaning (short_value c more name v) cl = store_value name v cl
meaning (short_alone c more name) cl = store_value name dummy cl
meaning (plain w) cl = push_arg w cl

abbrev pub meanings : List Item → CommandLine → CommandLine
meanings [] cl = cl
meanings (i ∷ is) cl = meanings is (meaning i cl)
