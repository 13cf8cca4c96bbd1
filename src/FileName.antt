-- ===== src/FileName.antt =====
-- The parts of a file's name: yat::FileName (src/file/FileName.cpp, include/yat/file/FileName.h), as it
-- is built for POSIX systems. A name is the text m_strFile; positions have 64 bits.
use yat.Common.{
  ℕ, zero, suc, ◌+◌, Bool, true, false, not, ◌&&◌, ◌||◌, List, [], ◌∷◌, ◌++◌, Option, none, some,
  ltb, ◌==◌, if◌then◌else◌, length, take, drop, sub64,
}
use yat.Text.{Bytes, is_empty}
use yat.Text.Maps.{same}
pub mod Last
pub mod Parts
mod Tests

-- SEP_PATH and SEP_EXT.
abbrev pub sep_path : ℕ
sep_path = 47

abbrev pub sep_ext : ℕ
sep_ext = 46

-- `/dev/null` and `null`.
abbrev pub null_path : Bytes
null_path = 47 ∷ 100 ∷ 101 ∷ 118 ∷ 47 ∷ 110 ∷ 117 ∷ 108 ∷ 108 ∷ []

abbrev pub null_file_name : Bytes
null_file_name = 110 ∷ 117 ∷ 108 ∷ 108 ∷ []

unfoldable pub is_null : Bytes → Bool
is_null s = same s null_path

abbrev pub is_valid : Bytes → Bool
is_valid s = not (is_empty s) && not (is_null s)

abbrev pub last_of : Bool → Option ℕ → Option ℕ
last_of first none = if first then some 0 else none
last_of first (some i) = some (i + 1)

-- `s.find_last_of(c)`; `none` is npos.
unfoldable pub find_last_of : ℕ → Bytes → Option ℕ
find_last_of c [] = none
find_last_of c (x ∷ s) = last_of (x == c) (find_last_of c s)

abbrev pub ends_in : ℕ → Bytes → Bool
ends_in c [] = false
ends_in c (x ∷ []) = x == c
ends_in c (x ∷ y ∷ s) = ends_in c (y ∷ s)

unfoldable pub is_path_name : Bytes → Bool
is_path_name s = ends_in sep_path s || is_null s

abbrev pub up_to : Bytes → Option ℕ → Bytes
up_to s none = []
up_to s (some i) = take (i + 1) s

unfoldable pub path : Bytes → Bytes
unfolding find_last_of
path s = if is_null s then null_path else up_to s (find_last_of sep_path s)

abbrev pub or_else : ℕ → Option ℕ → ℕ
or_else n none = n
or_else n (some i) = i

-- The length of the name wraps round if the last dot stands before the last separator.
abbrev pub name_between : Bytes → Option ℕ → Option ℕ → Bytes
name_between s last_sep last_dot =
    take (sub64 (sub64 (or_else (length s) last_dot) (or_else 0 last_sep)) 1)
      (drop (or_else 0 last_sep + 1) s)

unfoldable pub name : Bytes → Bytes
unfolding find_last_of
name s =
    if is_null s
    then null_file_name
    else (if not (is_valid s)
        then []
        else name_between s (find_last_of sep_path s) (find_last_of sep_ext s))

abbrev pub is_behind : ℕ → Option ℕ → Bool
is_behind i none = false
is_behind i (some k) = ltb k i

abbrev pub ext_behind : Bytes → Option ℕ → Option ℕ → Bytes
ext_behind s last_sep none = []
ext_behind s last_sep (some i) = if is_behind i last_sep then drop (i + 1) s else []

unfoldable pub ext : Bytes → Bytes
unfolding find_last_of
ext s =
    if not (is_valid s) then [] else ext_behind s (find_last_of sep_path s) (find_last_of sep_ext s)

abbrev pub with_ext : Bytes → Bytes → Bytes
with_ext n e = if ltb 0 (length e) then n ++ sep_ext ∷ e else n

unfoldable pub name_ext : Bytes → Bytes
unfolding name ext
name_ext s =
    if is_null s
    then null_file_name
    else (if not (is_valid s) then [] else with_ext (name s) (ext s))
