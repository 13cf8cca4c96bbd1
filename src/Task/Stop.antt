-- ===== src/Task/Stop.antt =====
-- What starting, asking and stopping a task keep to.
use yat.Common.{
  ℕ, ◌+◌, ◌≡◌, ◌≢◌, refl, Bool, true, false, not, ◌&&◌, List, [], ◌∷◌, Option, none, some,
  if◌then◌else◌,
}
use yat.Task.Refs.{Op, duplicates, releases}
use yat.Task.Control.{
  Ending, returns, ThreadState, state_new, state_running, state_terminated, Action, locks, unlocks,
  deletes_self, Allocation, allocated, failed_with_exception, failed_otherwise, join, exit,
}

abbrev pub duplicates_in : List Op → ℕ
duplicates_in [] = 0
duplicates_in (duplicates ∷ ops) = duplicates_in ops + 1
duplicates_in (releases c ∷ ops) = duplicates_in ops

abbrev pub releases_in : List Op → ℕ
releases_in [] = 0
releases_in (duplicates ∷ ops) = releases_in ops
releases_in (releases c ∷ ops) = releases_in ops + 1

abbrev pub is_return : Ending → Bool
is_return returns = true
is_return e = false

abbrev is_given : Option Bool → ℕ
is_given none = 0
is_given (some w) = 1

abbrev is_waitable : Option Bool → Bool
is_waitable none = false
is_waitable (some w) = w

-- Does the task do its waiting, its join and its end without the lock, and nothing behind its end?
abbrev pub is_orderly : Bool → List Action → Bool
is_orderly locked [] = not locked
is_orderly locked (locks ∷ actions) = not locked && is_orderly true actions
is_orderly locked (unlocks ∷ actions) = locked && is_orderly false actions
is_orderly locked (deletes_self ∷ []) = not locked
is_orderly locked (deletes_self ∷ action ∷ actions) = false
is_orderly locked (action ∷ actions) = not locked && is_orderly false actions

-- How often the task is deleted, and how often it should be.
abbrev pub deletions : List Action → ℕ
deletions [] = 0
deletions (deletes_self ∷ actions) = deletions actions + 1
deletions (action ∷ actions) = deletions actions

abbrev pub is_stopped : ThreadState → Allocation → Bool → Bool → Bool
is_stopped state_new a detached joined = true
is_stopped state_running allocated detached joined = not detached && joined
is_stopped state a detached joined = false

-- If a thread that has run is not found new again, `exit` takes and leaves the lock in turn, waits,
-- joins and deletes the task without holding it, and does nothing behind that; it deletes the task
-- once if the task was never started, or ran, could be sent TASK_EXIT and was joined, and not at all
-- otherwise.
pub exit-IsOrderly :
    (state later : ThreadState) (a : Allocation) (detached joined : Bool)
    → later ≢ state_new
    → let actions = (exit state a later detached joined).actions in
      (is_orderly false actions ≡ true)
      × (deletions actions ≡ (if is_stopped state a detached joined then 1 else 0))
unfolding exit join
exit-IsOrderly state_new later a detached joined h = (refl, refl)
exit-IsOrderly state_terminated later a detached joined h = (refl, refl)
exit-IsOrderly state_running later failed_with_exception detached joined h = (refl, refl)
exit-IsOrderly state_running later failed_otherwise detached joined h = (refl, refl)
exit-IsOrderly state_running state_new allocated detached joined h = absurd (h refl)
exit-IsOrderly state_running state_running allocated true joined h = (refl, refl)
exit-IsOrderly state_running state_running allocated false true h = (refl, refl)
exit-IsOrderly state_running state_running allocated false false h = (refl, refl)
exit-IsOrderly state_running state_terminated allocated true joined h = (refl, refl)
exit-IsOrderly state_running state_terminated allocated false true h = (refl, refl)
exit-IsOrderly state_running state_terminated allocated false false h = (refl, refl)
