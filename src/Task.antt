-- ===== src/Task.antt =====
-- Tasks: the loop of yat::Task (src/threading/Task.cpp, run_undetached), as a function of what the
-- calls of `next_message` or `next_message_ex` return, one step for each.
-- `handle_message` is the method that a derived class gives; it changes the state of that class and
-- says whether it threw.
use yat.Common.{
  Bool, true, false, ◌||◌, List, [], ◌∷◌, ◌++◌, Option, none, some, ◌==◌, ℕ, if◌then◌else◌,
}
use yat.MessageQ.{Message, task_init, task_exit}
pub mod Loop
pub mod Refs
pub mod Control
pub mod Stop
pub mod Promises
mod Tests

abbrev pub task_wakeup : ℕ
task_wakeup = 3

-- Before TASK_INIT, with what the variable `msg` holds; in the main loop; after TASK_EXIT.
pub data Phase : Type 0 where
  starting : (held : Option Message) → Phase
  working finished : Phase

-- The lists record the messages on which the loop has called `handle_message`, `set_error`,
-- `processed` and `release`, in that order of time; `closed` that it has closed the queue.
pub record Task {ℓ} (A : Type ℓ) : Type ℓ where
  pub phase : Phase
  pub user : A
  pub handled : List Message
  pub failed : List Message
  pub processed : List Message
  pub released : List Message
  pub closed : Bool

abbrev pub started {ℓ} : {A : Type ℓ} → A → Task A
started a = record {
  phase = starting none;
  user = a;
  handled = [];
  failed = [];
  processed = [];
  released = [];
  closed = false;
}

-- `if (msg) msg->release()`.
abbrev pub with_held : Option Message → List Message → List Message
with_held none ms = ms
with_held (some m) ms = ms ++ m ∷ []

abbrev pub release_held {ℓ} : {A : Type ℓ} → Option Message → Task A → Task A
release_held held t = record t { released = with_held held t.released }

-- What the handler left: the state of the derived class, and whether it threw.
pub record Handled {ℓ} (A : Type ℓ) : Type ℓ where
  pub after : A
  pub threw : Bool

abbrev pub is_init : Message → Bool
is_init m = m.type == task_init

abbrev pub is_exit : Message → Bool
is_exit m = m.type == task_exit

abbrev pub is_wakeup : Message → Bool
is_wakeup m = m.type == task_wakeup

module _ {ℓ} {A : Type ℓ} (handle_message : A → Message → Handled A) where
  -- The body of the main loop from `handle_message` on.
  unfoldable pub handle : Message → Task A → Task A
  handle m t =
      let h = handle_message t.user m in
      record {
        phase = if is_exit m then finished else working;
        user = h.after;
        handled = t.handled ++ m ∷ [];
        failed = if h.threw then t.failed ++ m ∷ [] else t.failed;
        processed = t.processed ++ m ∷ [];
        released = t.released ++ m ∷ [];
        closed = is_exit m || t.closed;
      }

  -- One answer of the queue, null or a message, in each phase.
  unfoldable pub step_in : Phase → Option Message → Task A → Task A
  step_in (starting held) none t = record (release_held held t) { phase = starting none }
  step_in (starting held) (some m) t =
      let t1 = release_held held t in
      if is_init m then handle m t1 else record t1 { phase = starting (some m) }
  step_in working none t = t
  step_in working (some m) t =
      if is_init m || is_wakeup m then release_held (some m) t else handle m t
  step_in finished r t = t

  unfoldable pub step : Option Message → Task A → Task A
  step r t = step_in t.phase r t

  -- The loop for a sequence of answers; it asks for no more after TASK_EXIT.
  unfoldable pub run_undetached : List (Option Message) → Task A → Task A
  run_undetached [] t = t
  run_undetached (r ∷ answers) t = run_undetached answers (step r t)
