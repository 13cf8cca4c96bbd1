-- ===== src/MessageQ/Wakeups.antt =====
-- Who is woken: MessageQ::post, next_message, clear and clear_pending_messages broadcast whenever
-- they make true what the other side waits for.
use mathlib.Core.List.{append-nil, append_assoc}
use yat.Common.{
  ℕ, zero, suc, ◌+◌, ◌^◌, ◌<◌, ◌≡◌, refl, sym, ◌∙◌, ap, Bool, true, false, List, [], ◌∷◌, ◌++◌,
  Option, none, some, arith, ◌≢◌, Bool-cases, inl, inr, length, replicate,
}
use yat.MessageQ.{Message, MessageQ, WmUnit, charge, insert_i, check_lo_wm}
use yat.MessageQ.Post.{Progress, done, waits, post, post_resume}
use yat.MessageQ.Next.{Next, message, periodic_message, next_message, next_resume}
use yat.MessageQ.Clear.{clear, clear_pending_messages, close, statistics, reset_statistics}
use yat.MessageQ.Charge.{tally, IsValid, state_after, state_of_next}
use yat.MessageQ.Sweep.{others, sweep-Swept, clear_lem, clear_pending_lem}
use yat.MessageQ.Laws.{account, run-IsValid}
use yat.MessageQ.Schedule.{
  System, Event, submits, resumes, takes, clears, closes, reads_statistics, resets_statistics,
  clears_pending, pick, after_post, after_next, resume, step, run, submitted,
}

-- `saturated` fell only together with a broadcast to the producers.
abbrev ProducersTold : MessageQ → MessageQ → Type 0
ProducersTold q q' =
    q.saturated ≡ true → q'.saturated ≡ false → q'.producer_broadcasts ≡ q.producer_broadcasts + 1

-- The list grew only together with a broadcast to the consumers.
abbrev ConsumersTold : MessageQ → MessageQ → Type 0
ConsumersTold q q' =
    q.msg_q ≡ [] → q'.msg_q ≢ [] → q'.consumer_broadcasts ≡ q.consumer_broadcasts + 1

post-Told :
    (m : Message) (q : MessageQ)
    → ProducersTold q (state_after (post (some m) q))
      × ConsumersTold q (state_after (post (some m) q))
unfolding post insert_i
post-Told m q = (λ a b. ground arith, λ a b. ground arith)

post_resume-Told :
    (signalled : Bool) (m : Message) (q : MessageQ)
    → ProducersTold q (state_after (post_resume signalled m q))
      × ConsumersTold q (state_after (post_resume signalled m q))
unfolding post_resume insert_i
post_resume-Told signalled m q = (λ a b. ground arith, λ a b. ground arith)

next_resume-Told :
    (signalled expired : Bool) (q : MessageQ)
    → ProducersTold q (state_of_next (next_resume signalled expired q))
      × ConsumersTold q (state_of_next (next_resume signalled expired q))
unfolding next_resume
next_resume-Told signalled expired q = (λ a b. ground arith, λ a b. ground arith)

-- What one section tells the threads that wait.
abbrev Told : MessageQ → MessageQ → Type 0
Told q q' = ProducersTold q q' × ConsumersTold q q'

after_post-Told :
    (m : Message) (q : MessageQ) (p : Progress) (s : System)
    → Told q (state_after p)
    → Told q (after_post m p s).queue
unfolding after_post
after_post-Told m q (done o q') s h = h
after_post-Told m q (waits q') s h = h

after_next-Told :
    (q : MessageQ) (n : Next) (s : System)
    → Told q (state_of_next n)
    → Told q (after_next n s).queue
unfolding after_next
after_next-Told q (message m q') s h = h
after_next-Told q _ s h = h

Told-refl : (q q' : MessageQ) → q.saturated ≡ q'.saturated → q.msg_q ≡ q'.msg_q → Told q q'
Told-refl q q' e f = (λ a b. ground arith, λ a b. absurd (b (sym f ∙ a)))

resume-Told :
    (signalled : Bool) (s : System) (o : Option (Message × List Message))
    → Told s.queue (resume o signalled s).queue
unfolding resume
resume-Told signalled s none = Told-refl s.queue s.queue refl refl
resume-Told signalled s (some (m, ws)) =
    after_post-Told m s.queue (post_resume signalled m s.queue) (record s { waiting = ws })
      (post_resume-Told signalled m s.queue)

clear-Told : (q : MessageQ) → Told q (clear q).0
clear-Told q =
    let done = clear_lem (charge q.wm_unit) q in (λ a b. ground arith, λ a b. absurd (b done.0))

clear_pending-ProducersTold :
    (t : ℕ) (q : MessageQ) → ProducersTold q (clear_pending_messages t q).0
unfolding clear_pending_messages check_lo_wm
clear_pending-ProducersTold t q a b =
    let done = sweep-Swept t q.msg_q (record { queue = q; copy = []; cnt = 0 }) in
    ground (
      arith,
      ap (λ (r : MessageQ). r.saturated) done.kept,
      ap (λ (r : MessageQ). r.producer_broadcasts) done.kept,
    )

clear_pending-Told : (t : ℕ) (q : MessageQ) → Told q (clear_pending_messages t q).0
unfolding others
clear_pending-Told t q = (
  clear_pending-ProducersTold t q,
  λ a b. absurd (b ((clear_pending_lem (charge q.wm_unit) t q).0 ∙ ap (others t) a)),
)

step-Told : (e : Event) (s : System) → Told s.queue (step e s).queue
unfolding step close statistics reset_statistics
step-Told (submits m) s = after_post-Told m s.queue (post (some m) s.queue) s (post-Told m s.queue)
step-Told (resumes i signalled) s = resume-Told signalled s (pick i s.waiting)
step-Told (takes signalled expired) s =
    after_next-Told s.queue (next_resume signalled expired s.queue) s
      (next_resume-Told signalled expired s.queue)
step-Told clears s = clear-Told s.queue
step-Told (clears_pending t) s = clear_pending-Told t s.queue
step-Told closes s = Told-refl s.queue (close s.queue) refl refl
step-Told reads_statistics s = Told-refl s.queue (statistics s.queue) refl refl
step-Told resets_statistics s = Told-refl s.queue (reset_statistics s.queue) refl refl

-- No wake-up is lost: in every section in which the queue leaves saturation, the waiting producers
-- are notified once.
pub step-tells_producers :
    (e : Event) (s : System)
    → s.queue.saturated ≡ true
    → (step e s).queue.saturated ≡ false
    → (step e s).queue.producer_broadcasts ≡ s.queue.producer_broadcasts + 1
step-tells_producers e s = (step-Told e s).0

-- In every section in which an empty queue gets a message, the waiting consumers are notified once.
pub step-tells_consumers :
    (e : Event) (s : System)
    → s.queue.msg_q ≡ []
    → (step e s).queue.msg_q ≢ []
    → (step e s).queue.consumer_broadcasts ≡ s.queue.consumer_broadcasts + 1
step-tells_consumers e s = (step-Told e s).1

-- `n` consumers in a row, each woken while there may be a message.
abbrev pub take_times : ℕ → List Event
take_times n = replicate n (takes true false)

take_one :
    (m : Message) (ms : List Message) (s : System)
    → s.queue.msg_q ≡ m ∷ ms
    → s.queue.enable_periodic_msg ≡ false
    → ((step (takes true false) s).queue.msg_q ≡ ms)
      × ((step (takes true false) s).queue.enable_periodic_msg ≡ false)
      × ((step (takes true false) s).delivered ≡ s.delivered ++ m ∷ [])
unfolding step after_next next_resume
take_one m ms s e off = ground arith

pub drained :
    (ms : List Message) (s : System)
    → s.queue.msg_q ≡ ms
    → s.queue.enable_periodic_msg ≡ false
    → ((run (take_times (length ms)) s).queue.msg_q ≡ [])
      × ((run (take_times (length ms)) s).delivered ≡ s.delivered ++ ms)
unfolding run
drained [] s e off = (e, sym (append-nil s.delivered))
drained (m ∷ ms) s e off =
    let (rest, still, got) = take_one m ms s e off in
    let (empty, all) = drained ms (step (takes true false) s) rest still in
    (empty, all ∙ ap (λ (l : List Message). l ++ ms) got ∙ append_assoc s.delivered (m ∷ []) ms)

take_times-submits : (n : ℕ) → submitted (take_times n) ≡ []
take_times-submits zero = refl
take_times-submits (suc n) = take_times-submits n

-- As long as no periodic message intervenes, as many extractions as there are messages deliver
-- them all, in order, and leave the queue unsaturated.
pub drain-unsaturates :
    (u : WmUnit) (lo hi : ℕ) (s : System)
    → IsValid u lo hi s.queue
    → account (charge u) s < 2 ^ 64
    → s.queue.enable_periodic_msg ≡ false
    → let s' = run (take_times (length s.queue.msg_q)) s in
      (s'.queue.saturated ≡ false) × (s'.delivered ≡ s.delivered ++ s.queue.msg_q)
unfolding tally
drain-unsaturates u lo hi s v fits off =
    let n = length s.queue.msg_q in
    let (empty, all) = drained s.queue.msg_q s refl off in
    let end : IsValid u lo hi (run (take_times n) s).queue =
      run-IsValid u lo hi (take_times n) s v (rw (take_times-submits n) (omega arith)) in
    (
      elim (Bool-cases (run (take_times n) s).queue.saturated) [
        | inl full ↦ absurd (ground (arith, end.high, end.charged, ap (tally (charge u)) empty))
        | inr free ↦ free
      ],
      all,
    )

periodic-keeps :
    (expired : Bool) (q q' : MessageQ)
    → q.msg_q ≢ []
    → next_message expired q ≡ periodic_message q'
    → (q'.msg_q ≡ q.msg_q) × (q'.last_returned_msg_periodic ≡ true)
unfolding next_message
periodic-keeps expired q q' some_left e = ground arith

takes_after_periodic :
    (later : Bool) (m : Message) (ms : List Message) (q : MessageQ)
    → q.msg_q ≡ m ∷ ms
    → q.last_returned_msg_periodic ≡ true
    → (next_message later q ≡ message m (state_of_next (next_message later q)))
      × ((state_of_next (next_message later q)).msg_q ≡ ms)
unfolding next_message
takes_after_periodic later m ms q e last = ground arith

-- Two calls in a row at a queue with a message: if the first gives a periodic message instead, the
-- second gives the message, whatever the clock says.
pub periodic_then_message :
    (expired later : Bool) (m : Message) (ms : List Message) (q q' : MessageQ)
    → q.msg_q ≡ m ∷ ms
    → next_message expired q ≡ periodic_message q'
    → (q'' : MessageQ) × (next_message later q' ≡ message m q'') × (q''.msg_q ≡ ms)
unfolding next_message
periodic_then_message expired later m ms q q' e first =
    let (same, last) = periodic-keeps expired q q' (λ none_left. cc) first in
    let (taken, rest) = takes_after_periodic later m ms q' (same ∙ e) last in
    (state_of_next (next_message later q'), taken, rest)
