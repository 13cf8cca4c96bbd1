-- ===== src/MemBuf/Tests.antt =====
-- Runs of the buffer, and the theorems at concrete inputs.
use yat.Common.{◌≡◌, refl, true, false, [], ◌∷◌, none, some, arith, replicate}
use yat.MemBuf.{
  MemBuf, make, put_bloc, insert_bloc, get_bloc, realloc, realloc_with_margin, margin_size,
  move_bloc, set_len, set_pos, reset, attach, copy_block, write_at, read_at, make_room, ◌>>=◌,
}
use yat.MemBuf.Grow.{Becomes, put_bloc-Becomes, insert_bloc-Becomes}
use yat.MemBuf.Room.{IsValid}
use yat.MemBuf.Words.{
  one, two, eight, put_word, get_word, put_text, get_text, c_string, le_bytes, out_bytes, le_value,
  object_value,
}
use yat.MemBuf.Roundtrip.{put_words, get_words, get_words-put_words}
use yat.MemBuf.Copy.{assign, room_for, Copies, assign-Copies}

methods : Unit {0}
unfolding make put_bloc insert_bloc get_bloc realloc realloc_with_margin margin_size move_bloc
    set_len set_pos reset attach copy_block write_at read_at make_room put_word get_word put_text
    get_text c_string le_bytes out_bytes le_value object_value
methods = tt

-- Four bytes of room, of which three hold something and one is read.
abbrev small : MemBuf
small = record {
  pos = 1;
  len = 3;
  len_buf = 4;
  block = some (some 10 ∷ some 20 ∷ some 30 ∷ none ∷ []);
  owner = true;
}

small-IsValid : IsValid small
small-IsValid = record {
  sized = refl;
  within = omega arith;
  small = omega arith;
  placed = omega arith;
}

abbrev fresh : MemBuf
fresh = record { pos = 0; len = 0; len_buf = 0; block = none; owner = true }

fresh-IsValid : IsValid fresh
fresh-IsValid = record {
  sized = refl;
  within = omega arith;
  small = omega arith;
  placed = omega arith;
}

-- The block grows from 4 to 24 bytes.
grown :
    put_bloc (some 40 ∷ some 50 ∷ []) small
    ≡ some (record {
      pos = 1;
      len = 5;
      len_buf = 24;
      block = some (some 10 ∷ some 20 ∷ some 30 ∷ some 40 ∷ some 50 ∷ replicate 19 none);
      owner = true;
    })
unfolding methods
grown = refl

-- A fault: a move to behind the block.
outside : move_bloc 2 0 3 small ≡ none
unfolding methods
outside = refl

moved :
    move_bloc 1 0 3 small
    ≡ some (record small { block = some (some 10 ∷ some 10 ∷ some 20 ∷ some 30 ∷ []) })
unfolding methods
moved = refl

shorter : set_len 2 small ≡ some (record small { len = 2; pos = 0 })
unfolding methods
shorter = refl

reset_all : reset small ≡ fresh
unfolding methods
reset_all = refl

put_bloc-Becomes_example :
    Becomes small
      (some 10 ∷ some 20 ∷ some 30 ∷ some 40 ∷ some 50 ∷ [])
      (put_bloc (some 40 ∷ some 50 ∷ []) small)
put_bloc-Becomes_example =
    put_bloc-Becomes (some 40 ∷ some 50 ∷ []) small small-IsValid (omega arith)

insert_bloc-Becomes_example :
    Becomes small
      (some 10 ∷ some 40 ∷ some 50 ∷ some 20 ∷ some 30 ∷ [])
      (insert_bloc (some 40 ∷ some 50 ∷ []) 1 small)
insert_bloc-Becomes_example =
    insert_bloc-Becomes (some 40 ∷ some 50 ∷ []) 1 small small-IsValid (omega arith) (omega arith)

get_words-put_words_example :
    (put_words true ((two, 258) ∷ (one, 300) ∷ (eight, 7) ∷ []) fresh
      >>= get_words false (λ n. 99) (two ∷ one ∷ eight ∷ []))
    ≡ some (258 ∷ 44 ∷ 7 ∷ [])
get_words-put_words_example =
    get_words-put_words true false (λ n. 99) ((two, 258) ∷ (one, 300) ∷ (eight, 7) ∷ []) fresh
      fresh-IsValid refl (omega arith)

abbrev hi : MemBuf
hi = record {
  pos = 0;
  len = 3;
  len_buf = 24;
  block = some (some 104 ∷ some 105 ∷ some 0 ∷ replicate 21 none);
  owner = true;
}

-- A buffer that only looks at the block of another owner.
abbrev borrowed : MemBuf
borrowed = record {
  pos = 0;
  len = 2;
  len_buf = 2;
  block = some (some 1 ∷ some 2 ∷ []);
  owner = false;
}

borrowed-IsValid : IsValid borrowed
borrowed-IsValid = record {
  sized = refl;
  within = omega arith;
  small = omega arith;
  placed = omega arith;
}

assigned :
    assign small borrowed
    ≡ some (record {
      pos = 1;
      len = 3;
      len_buf = 3;
      block = some (some 10 ∷ some 20 ∷ some 30 ∷ []);
      owner = true;
    })
unfolding methods assign room_for
assigned = refl

assign-Copies_example : Copies small 1 (assign small borrowed)
assign-Copies_example = assign-Copies small borrowed small-IsValid borrowed-IsValid
