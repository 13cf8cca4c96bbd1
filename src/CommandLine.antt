-- ===== src/CommandLine.antt =====
-- The arguments of a program: yat::CommandLine (src/utils/CommandLine.cpp,
-- include/yat/utils/CommandLine.h). The texts that it prints are not modelled.
use yat.Common.{
  ℕ, zero, suc, ◌&&◌, Bool, true, false, List, [], ◌∷◌, ◌++◌, Option, none, some, ltb, ◌==◌,
  if◌then◌else◌, length, drop,
}
use yat.Text.{Bytes, is_empty, at}
use yat.Text.Maps.{same, Map, insert}
pub mod Items
pub mod Reads
mod Tests

pub record CommandLineOpt : Type 0 where
  pub short_name : ℕ
  pub long_name : Bytes
  pub desc : Bytes
  pub value : Bytes

pub record CommandLineArg : Type 0 where
  pub desc : Bytes
  pub single : Bool
  pub mandatory : Bool

pub record CommandLine : Type 0 where
  pub opt_values : Map Bytes
  pub args : List Bytes
  pub opt_defs : List CommandLineOpt
  pub arg_defs : List CommandLineArg

unfoldable pub find_short_opt : ℕ → List CommandLineOpt → Option CommandLineOpt
find_short_opt c [] = none
find_short_opt c (o ∷ os) = if o.short_name == c then some o else find_short_opt c os

unfoldable pub find_long_opt : Bytes → List CommandLineOpt → Option CommandLineOpt
find_long_opt name [] = none
find_long_opt name (o ∷ os) = if same o.long_name name then some o else find_long_opt name os

-- A missing text for the value, `NULL`, is an empty one.
abbrev pub or_blank : Option Bytes → Bytes
or_blank none = []
or_blank (some v) = v

abbrev pub add_opt : ℕ → Bytes → Option Bytes → Bytes → CommandLine → CommandLine
add_opt c name v text cl =
    let o : CommandLineOpt = record {
      short_name = c;
      long_name = name;
      desc = text;
      value = or_blank v;
    } in
    record cl { opt_defs = cl.opt_defs ++ o ∷ [] }

abbrev pub add_arg : Bytes → Bool → Bool → CommandLine → CommandLine
add_arg text single mandatory cl =
    let a : CommandLineArg = record { desc = text; single = single; mandatory = mandatory } in
    record cl { arg_defs = cl.arg_defs ++ a ∷ [] }

-- The character `-`.
abbrev pub dash : ℕ
dash = 45

-- `dummy`, `help` and `version`.
abbrev pub dummy : Bytes
dummy = 100 ∷ 117 ∷ 109 ∷ 109 ∷ 121 ∷ []

abbrev pub help : Bytes
help = 104 ∷ 101 ∷ 108 ∷ 112 ∷ []

abbrev pub version : Bytes
version = 118 ∷ 101 ∷ 114 ∷ 115 ∷ 105 ∷ 111 ∷ 110 ∷ []

-- `Show this usage` and `Program version`.
abbrev pub help_text : Bytes
help_text = 83 ∷ 104 ∷ 111 ∷ 119 ∷ 32 ∷ 116 ∷ 104 ∷ 105 ∷ 115 ∷ 32 ∷ 117 ∷ 115 ∷ 97 ∷ 103 ∷ 101 ∷ []

abbrev pub version_text : Bytes
version_text =
    80 ∷ 114 ∷ 111 ∷ 103 ∷ 114 ∷ 97 ∷ 109 ∷ 32 ∷ 118 ∷ 101 ∷ 114 ∷ 115 ∷ 105 ∷ 111 ∷ 110 ∷ []

abbrev pub with_special : CommandLine → CommandLine
with_special cl =
    add_opt 118 version (some []) version_text (add_opt 104 help (some []) help_text cl)

-- `StringUtil::start_with` for a character and for a text.
abbrev pub starts_with_char : ℕ → Bytes → Bool
starts_with_char c [] = false
starts_with_char c (x ∷ s) = c == x

abbrev pub starts_with : Bytes → Bytes → Bool
starts_with [] s = true
starts_with (c ∷ p) [] = false
starts_with (c ∷ p) (x ∷ s) = let rest = starts_with p s in (x == c) && rest

-- What a word is to `read`: an option that nobody defined, one that takes the next word, one that
-- does not, each by its long name, an argument, or an argument where none is expected.
pub data Word : Type 0 where
  bad_option : Word
  takes_value : (name : Bytes) → Word
  stands_alone : (name : Bytes) → Word
  argument : Word
  unexpected : Word

abbrev pub option_word : Option CommandLineOpt → Word
option_word none = bad_option
option_word (some o) =
    if is_empty o.value then stands_alone o.long_name else takes_value o.long_name

abbrev pub has_none : List CommandLineArg → Bool
has_none [] = true
has_none (a ∷ others) = false

unfoldable pub word_of : Bytes → CommandLine → Word
word_of w cl =
    if starts_with (dash ∷ dash ∷ []) w
    then option_word (find_long_opt (drop 2 w) cl.opt_defs)
    else (if starts_with_char dash w
        then option_word (find_short_opt (at w 1) cl.opt_defs)
        else (if has_none cl.arg_defs then unexpected else argument))

abbrev pub store_value : Bytes → Bytes → CommandLine → CommandLine
store_value name v cl = record cl { opt_values = insert name v cl.opt_values }

abbrev pub push_arg : Bytes → CommandLine → CommandLine
push_arg w cl = record cl { args = cl.args ++ w ∷ [] }

-- `read` returns true or false, or throws BAD_ARGS.
pub data Outcome : Type 0 where
  accepts : (cl : CommandLine) → Outcome
  stops : (cl : CommandLine) → Outcome
  bad_args : Outcome

abbrev pub last_word : Word → Bytes → CommandLine → Outcome
last_word bad_option w cl = bad_args
last_word (takes_value name) w cl = accepts (store_value name dummy cl)
last_word (stands_alone name) w cl = accepts (store_value name dummy cl)
last_word argument w cl = accepts (push_arg w cl)
last_word unexpected w cl = stops cl

-- A word with another one, `v`, behind it; `skip` goes on behind `v`, and `go` with it.
abbrev pub next_word :
    Word → Bytes → Bytes → CommandLine → (CommandLine → Outcome) → (CommandLine → Outcome) → Outcome
next_word bad_option w v cl skip go = bad_args
next_word (takes_value name) w v cl skip go = skip (store_value name v cl)
next_word (stands_alone name) w v cl skip go = go (store_value name dummy cl)
next_word argument w v cl skip go = go (push_arg w cl)
next_word unexpected w v cl skip go = stops cl

unfoldable pub read_loop : List Bytes → CommandLine → Outcome
read_loop [] cl = accepts cl
read_loop (w ∷ []) cl = last_word (word_of w cl) w cl
read_loop (w ∷ v ∷ rest) cl =
    next_word (word_of w cl) w v cl (read_loop rest) (read_loop (v ∷ rest))

abbrev pub is_defined : Option Bytes → Bool
is_defined none = false
is_defined (some v) = true

unfoldable pub is_option : Bytes → CommandLine → Bool
is_option name cl = is_defined (cl.opt_values name)

unfoldable pub option_value : Bytes → CommandLine → Bytes
option_value name cl = or_blank (cl.opt_values name)

abbrev pub first_is_mandatory : List CommandLineArg → Bool
first_is_mandatory [] = false
first_is_mandatory (a ∷ others) = a.mandatory

-- The options `version` and `help`, then the number of the arguments.
unfoldable pub check_args : CommandLine → Outcome
check_args cl =
    if is_option version cl
    then stops cl
    else (if is_option help cl
        then stops cl
        else (if ltb (length cl.args) (length cl.arg_defs) && first_is_mandatory cl.arg_defs
            then bad_args
            else accepts cl))

abbrev pub and_check : Outcome → Outcome
and_check (accepts cl) = check_args cl
and_check (stops cl) = stops cl
and_check bad_args = bad_args

-- `read` on the words behind the name of the program.
unfoldable pub read : List Bytes → CommandLine → Outcome
read argv cl = and_check (read_loop (drop 1 argv) (with_special cl))

abbrev pub arg_count : CommandLine → ℕ
arg_count cl = length cl.args

abbrev pub arg_at : List Bytes → ℕ → Option Bytes
arg_at [] i = none
arg_at (w ∷ ws) zero = some w
arg_at (w ∷ ws) (suc i) = arg_at ws i

-- `none` is a read behind the arguments: the guard of the source holds for every index.
abbrev pub arg : ℕ → CommandLine → Option Bytes
arg i cl = arg_at cl.args i
