-- ===== src/CommandLine/Tests.antt =====
-- A command line with every kind of words, and the theorem at it.
use yat.Common.{◌≡◌, refl, true, List, [], ◌∷◌, none, some}
use yat.Text.Maps.{no_keys}
use yat.CommandLine.{
  CommandLineOpt, CommandLine, add_opt, add_arg, dash, with_special, find_short_opt, find_long_opt,
  word_of, read_loop, is_option, option_value, check_args, read, accepts, bad_args, arg, arg_count,
}
use yat.CommandLine.Items.{Item, long_value, long_alone, short_value, short_alone, plain, meanings}

methods : Unit {0}
unfolding find_short_opt find_long_opt word_of read_loop is_option option_value check_args read
methods = tt

abbrev nothing : CommandLine
nothing = record { opt_values = no_keys; args = []; opt_defs = []; arg_defs = [] }

-- `out` and `o` take a value, `all` and `a` do not, and a file is expected.
abbrev out_def : CommandLineOpt
out_def = record {
  short_name = 111;
  long_name = 111 ∷ 117 ∷ 116 ∷ [];
  desc = [];
  value = 102 ∷ 105 ∷ 108 ∷ 101 ∷ [];
}

abbrev all_def : CommandLineOpt
all_def = record { short_name = 97; long_name = 97 ∷ 108 ∷ 108 ∷ []; desc = []; value = [] }

abbrev program : CommandLine
program = add_arg (102 ∷ 105 ∷ 108 ∷ 101 ∷ []) true true (
    add_opt 97 (97 ∷ 108 ∷ 108 ∷ []) none []
      (add_opt 111 (111 ∷ 117 ∷ 116 ∷ []) (some (102 ∷ 105 ∷ 108 ∷ 101 ∷ [])) [] nothing))

-- `--out x`, `--all`, `-oz y`, `-a` and `f`.
abbrev items : List Item
items =
    long_value (111 ∷ 117 ∷ 116 ∷ []) (120 ∷ [])
    ∷ long_alone (97 ∷ 108 ∷ 108 ∷ [])
    ∷ short_value 111 (122 ∷ []) (111 ∷ 117 ∷ 116 ∷ []) (121 ∷ [])
    ∷ short_alone 97 [] (97 ∷ 108 ∷ 108 ∷ [])
    ∷ plain (102 ∷ [])
    ∷ []

abbrev done : CommandLine
done = meanings items (with_special program)

all_is_well : check_args done ≡ accepts done
unfolding methods
all_is_well = refl

last_out : option_value (111 ∷ 117 ∷ 116 ∷ []) done ≡ (121 ∷ [])
unfolding methods
last_out = refl

-- `--` is a long option without a name, and an argument is read behind the last one.
dashes_are_refused : read ((102 ∷ []) ∷ (dash ∷ dash ∷ []) ∷ []) program ≡ bad_args
unfolding methods
dashes_are_refused = refl

behind_the_last : (arg_count done ≡ 1) × (arg 1 done ≡ none)
behind_the_last = (refl, refl)
