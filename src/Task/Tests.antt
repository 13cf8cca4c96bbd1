-- ===== src/Task/Tests.antt =====
-- Runs of the loop of a task, and the theorems at concrete inputs.
use yat.Common.{
  ℕ, ◌+◌, ◌≡◌, ◌≢◌, refl, true, false, List, [], ◌∷◌, ◌++◌, Option, none, some, arith, ◌==◌,
}
use yat.MessageQ.{Message, task_init, task_exit}
use yat.Task.{Handled, Task, started, handle, step_in, step, run_undetached, task_wakeup}
use yat.Task.Loop.{obtained, accepted, taken, held_in, failures, user_after, has_exit}
use yat.Task.Promises.{run-handled, run-released}
use yat.Task.Refs.{
  Op, duplicates, releases, created, duplicate, release, release_i, apply_all, apply_all-IsLegal,
  IsLegal, HasRefs,
}
use yat.Task.Control.{
  wait_msg_handled, go, spawn, join, exit, state_new, state_running, state_terminated, allocated,
}
use yat.Task.Stop.{exit-IsOrderly, is_orderly, deletions}

methods : Unit {0}
unfolding handle step_in step run_undetached created duplicate release release_i wait_msg_handled go
    spawn join exit
methods = tt

abbrev msg : ℕ → ℕ → Message
msg id type = record { id = id; type = type; priority = 1; size_in_bytes = 0 }

-- A handler that counts, and throws on every message of type 7.
abbrev count : ℕ → Message → Handled ℕ
count n m = record { after = n + 1; threw = m.type == 7 }

abbrev early : Message
early = msg 1 8

abbrev answers : List (Option Message)
answers =
    some early
    ∷ none
    ∷ some (msg 2 task_init)
    ∷ some (msg 3 7)
    ∷ some (msg 4 task_wakeup)
    ∷ none
    ∷ some (msg 5 task_init)
    ∷ some (msg 6 task_exit)
    ∷ some (msg 7 8)
    ∷ []

abbrev last : Task ℕ
last = run_undetached count answers (started 0)

handles : last.handled ≡ msg 2 task_init ∷ msg 3 7 ∷ msg 6 task_exit ∷ []
unfolding methods
handles = refl

releases_all :
    last.released
    ≡ early ∷ msg 2 task_init ∷ msg 3 7 ∷ msg 4 task_wakeup ∷ msg 5 task_init ∷ msg 6 task_exit ∷ []
unfolding methods
releases_all = refl

run-handled_example :
    (last.handled ≡ accepted (obtained answers))
    × (last.processed ≡ accepted (obtained answers))
    × (last.failed ≡ failures count 0 (accepted (obtained answers)))
    × (last.user ≡ user_after count 0 (accepted (obtained answers)))
    × (last.closed ≡ has_exit (accepted (obtained answers)))
run-handled_example = run-handled count 0 answers

run-released_example : last.released ++ held_in last.phase ≡ taken (obtained answers)
run-released_example = run-released count 0 answers

-- TASK_EXIT without TASK_INIT.
abbrev lost : List (Option Message)
lost = some (msg 6 task_exit) ∷ none ∷ []

terminated_not_new : state_terminated ≢ state_new
terminated_not_new = λ h. cc

exit-IsOrderly_example :
    (is_orderly false (exit state_running allocated state_terminated false true).actions ≡ true)
    × (deletions (exit state_running allocated state_terminated false true).actions ≡ 1)
exit-IsOrderly_example =
    exit-IsOrderly state_running state_terminated allocated false true terminated_not_new

-- A message whose reference is shared with the queue; the loop and the caller release theirs.
abbrev shared : List Op
shared = duplicates ∷ releases true ∷ releases true ∷ []

shared-IsLegal : IsLegal shared 1
shared-IsLegal = (omega arith, (omega arith, (omega arith, tt)))

created-HasRefs : HasRefs 1 created
unfolding methods
created-HasRefs = (refl, refl)

apply_all-IsLegal_example :
    ((apply_all shared created).reference_count ≡ 0) × ((apply_all shared created).deleted ≡ true)
apply_all-IsLegal_example =
    apply_all-IsLegal shared 1 created shared-IsLegal (omega arith)
      (omega arith, (omega arith, (omega arith, omega arith))) created-HasRefs
