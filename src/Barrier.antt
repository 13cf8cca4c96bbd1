-- ===== src/Barrier.antt =====
-- Barriers: yat::Barrier (src/threading/Barrier.cpp, include/yat/threading/Barrier.i), and the
-- threads that meet at one. A condition wakes all that wait at it by `broadcast`, a thread whose time
-- is over, and now and then one for no reason, as POSIX allows; `wait` does not look again then.
use yat.Common.{
  ℕ, ◌+◌, ◌-◌, ◌^◌, ◌≡◌, Bool, true, false, List, [], ◌∷◌, ◌++◌, Option, none, some, ltb, ◌==◌,
  if◌then◌else◌, add64,
}
pub mod Meeting
mod Tests

pub record Barrier : Type 0 where
  pub thread_count : ℕ
  pub waiters_count : ℕ

abbrev pub max_count : ℕ
max_count = 9223372036854775807

-- The constructor; `none` is the exception BAD_VALUE.
unfoldable pub make : ℕ → Option Barrier
make count =
    if ltb max_count count then none else some (record { thread_count = count; waiters_count = 0 })

abbrev pub has_expired : Barrier → Bool
has_expired b = b.waiters_count == b.thread_count

-- What `wait` comes to before it leaves the lock: the exception, the broadcast, or the wait on the
-- condition.
pub data Entered : Type 0 where
  throws_expired : Entered
  broadcasts waits : Barrier → Entered

unfoldable pub enter_wait : Barrier → Entered
enter_wait b =
    if has_expired b
    then throws_expired
    else let b1 = record b { waiters_count = add64 b.waiters_count 1 } in
      if has_expired b1 then broadcasts b1 else waits b1

-- The threads of one barrier, by what has become of their calls of `wait`: at the condition, woken
-- and about to return, returned, with the exception for an expired barrier, and with that for the
-- timeout; and those that the condition woke for no reason, which return too.
pub record Threads : Type 0 where
  pub barrier : Barrier
  pub blocked : List ℕ
  pub woken : List ℕ
  pub returned : List ℕ
  pub refused : List ℕ
  pub timed_out : List ℕ
  pub strayed : List ℕ

abbrev pub nobody_at : Barrier → Threads
nobody_at b = record {
  barrier = b;
  blocked = [];
  woken = [];
  returned = [];
  refused = [];
  timed_out = [];
  strayed = [];
}

abbrev pub entered : ℕ → Threads → Entered → Threads
entered t s throws_expired = record s { refused = t ∷ s.refused }
entered t s (broadcasts b) = record s {
  barrier = b;
  blocked = [];
  woken = s.blocked ++ s.woken;
  returned = t ∷ s.returned;
}
entered t s (waits b) = record s { barrier = b; blocked = t ∷ s.blocked }

-- A thread calls `wait`.
unfoldable pub arrive : ℕ → Threads → Threads
unfolding enter_wait
arrive t s = entered t s (enter_wait s.barrier)

-- A thread that was woken by the broadcast leaves `wait`, one whose time is over, and one that was
-- woken for no reason; the others are `xs` and `ys`.
abbrev pub leave : ℕ → List ℕ → List ℕ → Threads → Threads
leave t xs ys s = record s { woken = xs ++ ys; returned = t ∷ s.returned }

abbrev pub give_up : ℕ → List ℕ → List ℕ → Threads → Threads
give_up t xs ys s = record s { blocked = xs ++ ys; timed_out = t ∷ s.timed_out }

abbrev pub stray : ℕ → List ℕ → List ℕ → Threads → Threads
stray t xs ys s = record s { blocked = xs ++ ys; strayed = t ∷ s.strayed }

pub data Move : Threads → Threads → Type 0 where
  arrives : (t : ℕ) (s : Threads) → Move s (arrive t s)
  leaves :
      (t : ℕ) (xs ys : List ℕ) (s : Threads) → s.woken ≡ xs ++ t ∷ ys → Move s (leave t xs ys s)
  gives_up :
      (t : ℕ) (xs ys : List ℕ) (s : Threads) → s.blocked ≡ xs ++ t ∷ ys → Move s (give_up t xs ys s)
  strays :
      (t : ℕ) (xs ys : List ℕ) (s : Threads) → s.blocked ≡ xs ++ t ∷ ys → Move s (stray t xs ys s)

-- Any history of the threads of one barrier.
pub data History (count : ℕ) : Threads → Type 0 where
  begins : (b : Barrier) → make count ≡ some b → History count (nobody_at b)
  goes_on : {s t : Threads} → History count s → Move s t → History count t
