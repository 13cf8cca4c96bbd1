-- ===== src/MessageQ/Tests.antt =====
-- Runs of the queue, and the theorems at concrete inputs.
use yat.Common.{◌<◌, ◌^◌, ℕ, ◌≡◌, refl, true, false, List, [], ◌∷◌, ◌++◌, arith, some, inr}
use yat.MessageQ.{
  Message, MessageQ, num_of_msgs, num_of_bytes, init, charge, insert_i, is_task_ctrl_message,
  insert_at_upper_bound, task_exit, insert_msg,
}
use yat.MessageQ.Order.{of_priority, of_priority-insert}
use yat.MessageQ.Post.{post, post_resume}
use yat.MessageQ.Next.{next_message, next_resume}
use yat.MessageQ.Clear.{clear, clear_pending_messages}
use yat.MessageQ.Marks.{set_lo_wm, set_wm_unit, enable_periodic_msg}
use yat.MessageQ.Charge.{IsValid, tally, state_of_next}
use yat.MessageQ.Sweep.{others, of_type}
use yat.MessageQ.Schedule.{System, Event, submits, resumes, takes, step, run, start, pick}
use yat.MessageQ.Laws.{account, start_in, reachable-IsValid, reachable-account}
use yat.MessageQ.Fifo.{SystemGrows, next_message-Delivers, step-Grows}
use yat.MessageQ.Wakeups.{step-tells_producers, step-tells_consumers, take_times, drain-unsaturates}
use yat.MessageQ.Relief.{drain-relieves}
use yat.MessageQ.Post.{returned_0}

methods : Unit {0}
unfolding init insert_i insert_at_upper_bound insert_msg is_task_ctrl_message post post_resume
    next_message next_resume clear clear_pending_messages set_lo_wm set_wm_unit enable_periodic_msg
    run start tally charge others of_type of_priority pick step
methods = tt

abbrev msg : ℕ → ℕ → ℕ → Message
msg id priority size = record { id = id; type = 7; priority = priority; size_in_bytes = size }

abbrev exit_msg : Message
exit_msg = record { id = 9; type = task_exit; priority = 65535; size_in_bytes = 40 }

-- Marks 0 and 1: the second and the third producer wait.
abbrev crowd : List Event
crowd = submits (msg 1 0 10) ∷ submits (msg 2 0 20) ∷ submits (msg 3 5 30) ∷ []

crowded : (run crowd (start 0 1 true)).waiting ≡ msg 2 0 20 ∷ msg 3 5 30 ∷ []
unfolding methods
crowded = refl

-- After one extraction both get in, and two messages stand in a queue with the high mark 1.
abbrev rush : List Event
rush = takes true false ∷ resumes 0 true ∷ resumes 0 true ∷ []

rushed : (run rush (run crowd (start 0 1 true))).queue.msg_q ≡ msg 3 5 30 ∷ msg 2 0 20 ∷ []
unfolding methods
rushed = refl

rushed_charge : (run rush (run crowd (start 0 1 true))).queue.pending_charge ≡ 2
unfolding methods
rushed_charge = refl

reachable-IsValid_example :
    IsValid num_of_bytes 0 1 (run crowd (start_in num_of_bytes 0 1 true)).queue
unfolding methods
reachable-IsValid_example =
    reachable-IsValid num_of_bytes 0 1 true crowd (omega arith) (omega arith)

reachable-account_example :
    account (charge num_of_bytes) (run crowd (start_in num_of_bytes 0 1 true)) ≡ 60
unfolding methods
reachable-account_example = reachable-account (charge num_of_bytes) num_of_bytes 0 1 true crowd

abbrev two : System
two =
    let s = start 0 8 false in
    record s {
      queue = record (s.queue) { msg_q = msg 1 5 10 ∷ msg 2 0 20 ∷ []; pending_charge = 2 };
    }

step-Grows_example : SystemGrows two (step (submits (msg 3 5 30)) two)
unfolding methods
step-Grows_example = step-Grows (submits (msg 3 5 30)) two (omega arith) (λ h. h)

of_priority-insert_example :
    of_priority 5 (insert_at_upper_bound (msg 3 5 30) (msg 1 5 10 ∷ msg 2 0 20 ∷ []))
    ≡ msg 1 5 10 ∷ msg 3 5 30 ∷ []
unfolding methods
of_priority-insert_example =
    of_priority-insert 5 (msg 3 5 30) (msg 1 5 10 ∷ msg 2 0 20 ∷ []) (omega arith)

-- A saturated queue of one message, with its low mark at 0.
abbrev full : System
full =
    let s = start 0 1 false in
    record s {
      queue = record (s.queue) { msg_q = msg 1 5 10 ∷ []; pending_charge = 1; saturated = true };
      waiting = msg 2 0 20 ∷ [];
    }

full-IsValid : IsValid num_of_msgs 0 1 full.queue
unfolding methods
full-IsValid = record {
  unit = refl;
  lo_is = refl;
  hi_is = refl;
  marks = omega arith;
  sorted = (tt, tt);
  charged = refl;
  fits = omega arith;
  high = inr (omega arith);
}

next_message-Delivers_example :
    of_priority 5 (msg 1 5 10 ∷ []) ≡ of_priority 5 (msg 1 5 10 ∷ []) ++ []
unfolding methods
next_message-Delivers_example =
    (next_message-Delivers false 5 full.queue (state_of_next (next_message false full.queue))
      (msg 1 5 10) (tt, tt) refl).2

step-tells_producers_example : (step (takes true false) full).queue.producer_broadcasts ≡ 1
unfolding methods
step-tells_producers_example = step-tells_producers (takes true false) full refl refl

step-tells_consumers_example :
    (step (submits (msg 3 5 30)) (start 0 1 false)).queue.consumer_broadcasts ≡ 1
unfolding methods
step-tells_consumers_example =
    step-tells_consumers (submits (msg 3 5 30)) (start 0 1 false) refl (λ e. cc)

drain-unsaturates_example : (run (take_times 1) full).queue.saturated ≡ false
unfolding methods
drain-unsaturates_example =
    (drain-unsaturates num_of_msgs 0 1 full full-IsValid (omega arith) refl).0

full_weight : account (charge num_of_msgs) full < 2 ^ 64
unfolding methods
full_weight = omega arith

first_waits : pick 0 full.waiting ≡ some (msg 2 0 20, [])
unfolding methods
first_waits = refl

drain-relieves_example :
    let t = step (resumes 0 true) (run (take_times 1) full) in
    (full.queue.producer_broadcasts < (run (take_times 1) full).queue.producer_broadcasts)
    × (t.queue.msg_q ≡ msg 2 0 20 ∷ [])
    × (t.waiting ≡ [])
    × (t.answers ≡ (msg 2 0 20, returned_0) ∷ (run (take_times 1) full).answers)
unfolding methods
drain-relieves_example =
    drain-relieves num_of_msgs 0 1 0 full (msg 2 0 20) [] full-IsValid full_weight refl refl
      first_waits

-- A queue with periodic messages, one pending message, and the period over.
abbrev ticking : MessageQ
ticking = enable_periodic_msg true full.queue
