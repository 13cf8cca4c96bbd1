-- ===== src/Sync/Tests.antt =====
-- Two threads at an address: the first one locks it twice, the second one waits.
use mathlib.Core.Path.{subst}
use yat.Common.{ℕ, ◌≡◌, ◌↔◌, refl, Bool, true, false, [], ◌∷◌, Option, none, some, arith}
use yat.Sync.{
  SyncObject, Sync, unused, lock_with, lock_obj, acquire, settle, unlock_entry, unlock_obj, total,
  locks, acquires, settles, unlocks, Course, begins, goes_on,
}
use yat.Sync.Exclusion.{Exclusive, excludes}

methods : Unit {0}
unfolding lock_with unlock_entry
methods = tt

abbrev object : ℕ → ℕ → Option ℕ → Bool → SyncObject
object k n owner locked = record {
  thread_count = k;
  lock_count = n;
  owner = owner;
  locked = locked;
}

abbrev asked : Sync
asked = record {
  entry = some (object 0 1 none false);
  waiting = 1 ∷ [];
  entering = none;
  holding = [];
}

abbrev taken : Sync
taken = acquire 1 [] [] (object 0 1 none false) asked

abbrev held : Sync
held = settle 1 (object 0 1 none true) taken

abbrev held_twice : Sync
held_twice = record {
  entry = some (object 2 2 (some 1) true);
  waiting = [];
  entering = none;
  holding = 1 ∷ 1 ∷ [];
}

abbrev contended : Sync
contended = record {
  entry = some (object 2 3 (some 1) true);
  waiting = 2 ∷ [];
  entering = none;
  holding = 1 ∷ 1 ∷ [];
}

abbrev handed_over : Sync
handed_over = record {
  entry = some (object 0 1 none false);
  waiting = 2 ∷ [];
  entering = none;
  holding = [];
}

first_asks : lock_obj 1 unused ≡ asked
unfolding methods
first_asks = refl

first_again : lock_obj 1 held ≡ held_twice
unfolding methods
first_again = refl

second_waits : lock_obj 2 held_twice ≡ contended
unfolding methods
second_waits = refl

left : unlock_obj [] [] (unlock_obj [] (1 ∷ []) contended) ≡ handed_over
unfolding methods
left = refl

asked_is_reached : Course asked
asked_is_reached = subst Course first_asks (goes_on begins (locks 1 unused (omega arith)))

held_is_reached : Course held
held_is_reached =
    goes_on
      (goes_on asked_is_reached (acquires 1 [] [] (object 0 1 none false) asked refl refl refl))
      (settles 1 (object 0 1 none true) taken refl refl)

contended_is_reached : Course contended
contended_is_reached =
    let twice = subst Course first_again (goes_on held_is_reached (locks 1 held (omega arith))) in
    subst Course second_waits (goes_on twice (locks 2 held_twice (omega arith)))

handed_over_is_reached : Course handed_over
handed_over_is_reached = subst Course left (
    goes_on (goes_on contended_is_reached (unlocks 1 [] (1 ∷ []) contended refl))
      (unlocks 1 [] [] (unlock_obj [] (1 ∷ []) contended) refl))

excludes_example :
    Exclusive handed_over
    × ((handed_over.entry ≡ none) ↔ (total handed_over ≡ 0))
    × ((o : SyncObject)
        → handed_over.entry ≡ some o
        → handed_over.holding ≡ []
        → handed_over.entering ≡ none
        → o.locked ≡ false)
excludes_example = excludes handed_over handed_over_is_reached
