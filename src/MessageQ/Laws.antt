-- ===== src/MessageQ/Laws.antt =====
-- What holds in every state that a schedule leads to.
use yat.Common.{
  ℕ, zero, suc, ◌+◌, ◌^◌, ◌<◌, ◌≡◌, refl, Bool, List, [], ◌∷◌, Option, none, some, arith,
}
use yat.MessageQ.{Message, WmUnit, charge, insert_i}
use yat.MessageQ.Post.{Progress, done, waits, post, post_resume}
use yat.MessageQ.Next.{Next, message, next_resume}
use yat.MessageQ.Clear.{close, statistics, reset_statistics}
use yat.MessageQ.Charge.{
  tally, tally-append, tally-insert_msg, IsValid, state_after, state_of_next, post-IsValid,
  post_resume-IsValid, next_resume-IsValid,
}
use yat.MessageQ.Marks.{set_wm_unit}
use yat.MessageQ.Sweep.{
  tally-others, clear_pending_lem, clear_pending-IsValid, clear_lem, clear-IsValid,
}
use yat.MessageQ.Schedule.{
  System, Event, submits, resumes, takes, clears, closes, reads_statistics, resets_statistics,
  clears_pending, pick, after_post, after_next, resume, step, run, start, submitted,
}

-- All messages that the system answers for: pending, delivered or released, or a producer's that
-- still waits.
abbrev pub account : (Message → ℕ) → System → ℕ
account f s =
    tally f s.queue.msg_q + tally f s.waiting + tally f s.delivered + tally f s.queue.released

-- What picking a waiting producer leaves.
abbrev Picked : (Message → ℕ) → List Message → Option (Message × List Message) → Type 0
Picked f xs none = Unit {0}
Picked f xs (some (m, ys)) = tally f xs ≡ f m + tally f ys

tally-pick : (f : Message → ℕ) (i : ℕ) (xs : List Message) → Picked f xs (pick i xs)
unfolding pick tally
tally-pick f i [] = tt
tally-pick f zero (x ∷ xs) = refl
tally-pick f (suc i) (x ∷ xs) = push (pick i xs) (tally-pick f i xs)
  where
    push :
        (o : Option (Message × List Message))
        → Picked f xs o
        → Picked f (x ∷ xs) (elim o [ none ↦ none | some (y, ys) ↦ some (y, x ∷ ys) ])
    push none h = tt
    push (some (y, ys)) h = omega arith

-- A section of `post` moves its message to one place.
after_post-account :
    (f : Message → ℕ) (m : Message) (s : System)
    → account f (after_post m (post (some m) s.queue) s) ≡ f m + account f s
unfolding after_post post insert_i tally
after_post-account f m s =
    ground (arith, tally-insert_msg f m s.queue.msg_q, tally-append f s.waiting (m ∷ []))

after_resume-account :
    (f : Message → ℕ) (signalled : Bool) (s : System) (o : Option (Message × List Message))
    → Picked f s.waiting o
    → account f (resume o signalled s) ≡ account f s
unfolding resume post_resume insert_i tally
after_resume-account f signalled s none h = refl
after_resume-account f signalled s (some (m, ys)) h =
    ground (arith, tally-insert_msg f m s.queue.msg_q, tally-append f ys (m ∷ []))

after_next-account :
    (f : Message → ℕ) (signalled expired : Bool) (s : System)
    → account f (after_next (next_resume signalled expired s.queue) s) ≡ account f s
unfolding after_next next_resume tally
after_next-account f signalled expired s = grind (arith, tally-append)

abbrev new_weight : (Message → ℕ) → Event → ℕ
new_weight f (submits m) = f m
new_weight f _ = 0

step-account :
    (f : Message → ℕ) (e : Event) (s : System) → account f (step e s) ≡ new_weight f e + account f s
unfolding step tally close statistics reset_statistics
step-account f (submits m) s = after_post-account f m s
step-account f (resumes i signalled) s =
    omega (arith, after_resume-account f signalled s (pick i s.waiting) (tally-pick f i s.waiting))
step-account f (takes signalled expired) s = omega (arith, after_next-account f signalled expired s)
step-account f clears s = ground (arith, clear_lem f s.queue)
step-account f (clears_pending t) s =
    ground (arith, clear_pending_lem f t s.queue, tally-others f t s.queue.msg_q)
step-account f _ s = omega arith

-- No message is lost and none is handled twice: whatever is counted, the messages that were
-- submitted are those pending, those whose producer waits, those delivered and those released.
pub run-account :
    (f : Message → ℕ) (es : List Event) (s : System)
    → account f (run es s) ≡ tally f (submitted es) + account f s
unfolding run tally
run-account f [] s = omega arith
run-account f (submits m ∷ es) s =
    omega (arith, run-account f es (step (submits m) s), step-account f (submits m) s)
run-account f (resumes i b ∷ es) s =
    omega (arith, run-account f es (step (resumes i b) s), step-account f (resumes i b) s)
run-account f (e ∷ es) s = omega (arith, run-account f es (step e s), step-account f e s)

-- The invariant of the shared queue, with the weight that is still to come.
abbrev pub load : WmUnit → System → ℕ
load u s = tally (charge u) s.queue.msg_q + tally (charge u) s.waiting

module _ (u : WmUnit) (lo hi : ℕ) where
  after_post-IsValid :
      (m : Message) (p : Progress) (s : System)
      → IsValid u lo hi (state_after p)
      → IsValid u lo hi (after_post m p s).queue
  unfolding after_post
  after_post-IsValid m (done o q) s v = v
  after_post-IsValid m (waits q) s v = v

  after_next-IsValid :
      (n : Next) (s : System)
      → IsValid u lo hi (state_of_next n)
      → IsValid u lo hi (after_next n s).queue
  unfolding after_next
  after_next-IsValid (message m q) s v = v
  after_next-IsValid _ s v = v

  resume-IsValid :
      (signalled : Bool) (s : System) (o : Option (Message × List Message))
      → Picked (charge u) s.waiting o
      → IsValid u lo hi s.queue
      → load u s < 2 ^ 64
      → IsValid u lo hi (resume o signalled s).queue
  unfolding resume
  resume-IsValid signalled s none h v fits = v
  resume-IsValid signalled s (some (m, ys)) h v fits =
      after_post-IsValid m (post_resume signalled m s.queue) (record s { waiting = ys })
        (post_resume-IsValid signalled m s.queue v (omega arith))

  step-IsValid :
      (e : Event) (s : System)
      → IsValid u lo hi s.queue
      → new_weight (charge u) e + load u s < 2 ^ 64
      → IsValid u lo hi (step e s).queue
  unfolding step close statistics reset_statistics
  step-IsValid (submits m) s v fits =
      after_post-IsValid m (post (some m) s.queue) s (post-IsValid m s.queue v (omega arith))
  step-IsValid (resumes i signalled) s v fits =
      resume-IsValid signalled s (pick i s.waiting) (tally-pick (charge u) i s.waiting) v
        (omega arith)
  step-IsValid (takes signalled expired) s v fits =
      after_next-IsValid (next_resume signalled expired s.queue) s
        (next_resume-IsValid signalled expired s.queue v)
  step-IsValid clears s v fits = clear-IsValid u lo hi s.queue v
  step-IsValid (clears_pending t) s v fits = clear_pending-IsValid u lo hi t s.queue v
  step-IsValid closes s v fits = ground arith
  step-IsValid reads_statistics s v fits = ground arith
  step-IsValid resets_statistics s v fits = ground arith

  pub run-IsValid :
      (es : List Event) (s : System)
      → IsValid u lo hi s.queue
      → tally (charge u) (submitted es) + account (charge u) s < 2 ^ 64
      → IsValid u lo hi (run es s).queue
  unfolding run tally
  run-IsValid [] s v fits = v
  run-IsValid (submits m ∷ es) s v fits =
      run-IsValid es (step (submits m) s) (step-IsValid (submits m) s v (omega arith))
        (omega (arith, step-account (charge u) (submits m) s))
  run-IsValid (resumes i b ∷ es) s v fits =
      run-IsValid es (step (resumes i b) s) (step-IsValid (resumes i b) s v (omega arith))
        (omega (arith, step-account (charge u) (resumes i b) s))
  run-IsValid (e ∷ es) s v fits =
      run-IsValid es (step e s) (step-IsValid e s v (omega arith))
        (omega (arith, step-account (charge u) e s))

-- A queue that nobody has used yet, in either unit.
abbrev pub start_in : WmUnit → ℕ → ℕ → Bool → System
start_in u lo hi throws = let s = start lo hi throws in record s { queue = set_wm_unit u s.queue }

start_in-IsValid :
    (u : WmUnit) (lo hi : ℕ) (throws : Bool)
    → lo < hi
    → IsValid u lo hi (start_in u lo hi throws).queue
unfolding start set_wm_unit tally
start_in-IsValid u lo hi throws h = ground arith

account-start_in :
    (f : Message → ℕ) (u : WmUnit) (lo hi : ℕ) (throws : Bool)
    → account f (start_in u lo hi throws) ≡ 0
unfolding start set_wm_unit tally
account-start_in f u lo hi throws = refl

-- From an unused queue with its low mark below its high mark, every schedule whose messages weigh
-- less than 2 ^ 64 together leads to a queue that is sorted, whose `pending_charge_` is exactly
-- the charge of its messages, and which lies above the low mark as long as it is saturated.
pub reachable-IsValid :
    (u : WmUnit) (lo hi : ℕ) (throws : Bool) (es : List Event)
    → lo < hi
    → tally (charge u) (submitted es) < 2 ^ 64
    → IsValid u lo hi (run es (start_in u lo hi throws)).queue
reachable-IsValid u lo hi throws es marks fits =
    run-IsValid u lo hi es (start_in u lo hi throws) (start_in-IsValid u lo hi throws marks)
      (omega (arith, account-start_in (charge u) u lo hi throws))

-- From an unused queue, the submitted messages are those pending, waiting, delivered or released.
pub reachable-account :
    (f : Message → ℕ) (u : WmUnit) (lo hi : ℕ) (throws : Bool) (es : List Event)
    → account f (run es (start_in u lo hi throws)) ≡ tally f (submitted es)
reachable-account f u lo hi throws es =
    omega (arith, run-account f es (start_in u lo hi throws), account-start_in f u lo hi throws)
