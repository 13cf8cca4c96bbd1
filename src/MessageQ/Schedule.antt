-- ===== src/MessageQ/Schedule.antt =====
-- Threads that share a queue. `lock_` is a mutex, so a run is a sequence of critical sections in
-- some order: a schedule. Between them the producers that wait for room stand in `waiting`.
use yat.Common.{ℕ, zero, suc, Bool, List, [], ◌∷◌, ◌++◌, Option, none, some}
use yat.MessageQ.{Message, MessageQ, init}
use yat.MessageQ.Post.{Progress, done, waits, Outcome, post, post_resume}
use yat.MessageQ.Next.{
  Next, message, periodic_message, timeout_message, no_message, consumer_waits, next_resume,
}
use yat.MessageQ.Clear.{clear, clear_pending_messages, close, statistics, reset_statistics}

-- `answers` holds what the calls of `post` have given, the latest first.
pub record System : Type 0 where
  pub queue : MessageQ
  pub waiting : List Message
  pub delivered : List Message
  pub answers : List (Message × Outcome)

-- One critical section. `resumes i b`: the waiting producer `i` gets `b` from `timed_wait`.
-- `takes b expired`: a consumer enters, or gets `b` from its own wait.
pub data Event : Type 0 where
  submits : Message → Event
  resumes : ℕ → Bool → Event
  takes : Bool → Bool → Event
  clears closes reads_statistics resets_statistics : Event
  clears_pending : ℕ → Event

-- The element at a position, and the others.
unfoldable pub pick {ℓ} : {A : Type ℓ} → ℕ → List A → Option (A × List A)
pick i [] = none
pick zero (x ∷ xs) = some (x, xs)
pick (suc i) (x ∷ xs) = elim (pick i xs) [ none ↦ none | some (y, ys) ↦ some (y, x ∷ ys) ]

unfoldable pub after_post : Message → Progress → System → System
after_post m (done o q) s = record s { queue = q; answers = (m, o) ∷ s.answers }
after_post m (waits q) s = record s { queue = q; waiting = s.waiting ++ m ∷ [] }

unfoldable pub after_next : Next → System → System
after_next (message m q) s = record s { queue = q; delivered = s.delivered ++ m ∷ [] }
after_next (periodic_message q) s = record s { queue = q }
after_next (timeout_message q) s = record s { queue = q }
after_next (no_message q) s = record s { queue = q }
after_next (consumer_waits q) s = record s { queue = q }

unfoldable pub resume : Option (Message × List Message) → Bool → System → System
unfolding after_post
resume none signalled s = s
resume (some (m, others)) signalled s =
    after_post m (post_resume signalled m s.queue) (record s { waiting = others })

unfoldable pub step : Event → System → System
unfolding after_post after_next resume
step (submits m) s = after_post m (post (some m) s.queue) s
step (resumes i signalled) s = resume (pick i s.waiting) signalled s
step (takes signalled expired) s = after_next (next_resume signalled expired s.queue) s
step clears s = record s { queue = (clear s.queue).0 }
step closes s = record s { queue = close s.queue }
step reads_statistics s = record s { queue = statistics s.queue }
step resets_statistics s = record s { queue = reset_statistics s.queue }
step (clears_pending t) s = record s { queue = (clear_pending_messages t s.queue).0 }

unfoldable pub run : List Event → System → System
unfolding step
run [] s = s
run (e ∷ es) s = run es (step e s)

-- A queue that nobody has used yet.
unfoldable pub start : ℕ → ℕ → Bool → System
unfolding init
start lo hi throws = record {
  queue = init lo hi throws;
  waiting = [];
  delivered = [];
  answers = [];
}

-- The messages that a schedule hands to `post`.
abbrev pub submitted : List Event → List Message
submitted [] = []
submitted (submits m ∷ es) = m ∷ submitted es
submitted (_ ∷ es) = submitted es
