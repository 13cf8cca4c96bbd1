-- ===== src/MessageQ/Fifo.antt =====
-- "It is a FIFO message queue for equal priority messages" (include/yat/threading/MessageQ.h):
-- in the order of each priority, what was delivered and what is pending form one sequence that
-- grows at its end.
use mathlib.Core.List.{append-nil, append_assoc}
use yat.Common.{
  ℕ, ◌≡◌, refl, sym, ◌∙◌, ap, Bool, List, [], ◌∷◌, ◌++◌, Option, none, some, arith, ◌⊎◌, inl, inr,
}
use yat.MessageQ.{Message, MessageQ, insert_msg, insert_i}
use yat.MessageQ.Order.{
  AtMost, IsSorted, of_priority, of_priority-append, of_priority-insert, insert_msg-eq-insert,
}
use yat.MessageQ.Post.{Progress, done, waits, post, post_resume}
use yat.MessageQ.Next.{Next, message, next_message, next_resume}
use yat.MessageQ.Clear.{close, statistics, reset_statistics}
use yat.MessageQ.Charge.{state_after}
use yat.MessageQ.Schedule.{
  System, Event, submits, resumes, takes, clears, closes, reads_statistics, resets_statistics,
  clears_pending, pick, after_post, after_next, resume, step,
}

of_priority-insert_msg :
    (p : ℕ) (m : Message) (ms : List Message)
    → IsSorted ms
    → of_priority p (insert_msg m ms) ≡ of_priority p ms ++ of_priority p (m ∷ [])
of_priority-insert_msg p m ms s = rw (insert_msg-eq-insert m ms) (of_priority-insert p m ms s)

-- A delivered message was the first of its own priority, no pending message has a higher one, and
-- the sequence of every priority is what it was, less the message.
pub next_message-Delivers :
    (expired : Bool) (p : ℕ) (q q' : MessageQ) (m : Message)
    → IsSorted q.msg_q
    → next_message expired q ≡ message m q'
    → AtMost m.priority q.msg_q
      × (of_priority m.priority q.msg_q ≡ m ∷ of_priority m.priority q'.msg_q)
      × (of_priority p q.msg_q ≡ of_priority p (m ∷ []) ++ of_priority p q'.msg_q)
unfolding next_message of_priority
next_message-Delivers expired p q q' m s e = (ground arith, ground arith, ground arith)

-- The delivered and the pending messages of a priority, in order.
abbrev pub history : ℕ → List Message → List Message → List Message
history p delivered pending = of_priority p delivered ++ of_priority p pending

-- From `d` delivered and `q` pending to `d'` and `q'`, the history of each priority has only grown
-- at its end.
abbrev Grows : (d q d' q' : List Message) → Type 0
Grows d q d' q' = (p : ℕ) → (new : List Message) × (history p d' q' ≡ history p d q ++ new)

Grows-refl : (d q q' : List Message) → q' ≡ q → Grows d q d q'
Grows-refl d q q' e p = ([], rw e (sym (append-nil (history p d q))))

Grows-insert :
    (m : Message) (d q q' : List Message) → IsSorted q → q' ≡ insert_msg m q → Grows d q d q'
Grows-insert m d q q' sorted e p = (
  of_priority p (m ∷ []),
  rw (e, of_priority-insert_msg p m q sorted)
      (sym (append_assoc (of_priority p d) (of_priority p q) _)),
)

-- The same between two states of the system.
abbrev pub SystemGrows : System → System → Type 0
SystemGrows s s' = Grows s.delivered s.queue.msg_q s'.delivered s'.queue.msg_q

-- A section of `post` leaves the list as it is, or inserts its message.
abbrev Inserts : Message → MessageQ → Progress → Type 0
Inserts m q p = ((state_after p).msg_q ≡ q.msg_q) ⊎ ((state_after p).msg_q ≡ insert_msg m q.msg_q)

post-Inserts : (m : Message) (q : MessageQ) → Inserts m q (post (some m) q)
unfolding post insert_i
post-Inserts m q = ground arith

post_resume-Inserts :
    (signalled : Bool) (m : Message) (q : MessageQ) → Inserts m q (post_resume signalled m q)
unfolding post_resume insert_i
post_resume-Inserts signalled m q = ground arith

after_post-Grows :
    (m : Message) (s : System) (ws : List Message) (p : Progress)
    → IsSorted s.queue.msg_q
    → Inserts m s.queue p
    → SystemGrows s (after_post m p (record s { waiting = ws }))
unfolding after_post
after_post-Grows m s ws (done o q) sorted (inl e) = Grows-refl s.delivered s.queue.msg_q q.msg_q e
after_post-Grows m s ws (done o q) sorted (inr e) =
    Grows-insert m s.delivered s.queue.msg_q q.msg_q sorted e
after_post-Grows m s ws (waits q) sorted (inl e) = Grows-refl s.delivered s.queue.msg_q q.msg_q e
after_post-Grows m s ws (waits q) sorted (inr e) =
    Grows-insert m s.delivered s.queue.msg_q q.msg_q sorted e

resume-Grows :
    (signalled : Bool) (s : System) (o : Option (Message × List Message))
    → IsSorted s.queue.msg_q
    → SystemGrows s (resume o signalled s)
unfolding resume
resume-Grows signalled s none sorted = Grows-refl s.delivered s.queue.msg_q _ refl
resume-Grows signalled s (some (m, ws)) sorted =
    after_post-Grows m s ws (post_resume signalled m s.queue) sorted
      (post_resume-Inserts signalled m s.queue)

-- The consumer takes the first message, or the list stays.
abbrev Takes : MessageQ → Next → Type 0
Takes q (message m q') = q.msg_q ≡ m ∷ q'.msg_q
Takes q (Next.periodic_message q') = q'.msg_q ≡ q.msg_q
Takes q (Next.timeout_message q') = q'.msg_q ≡ q.msg_q
Takes q (Next.no_message q') = q'.msg_q ≡ q.msg_q
Takes q (Next.consumer_waits q') = q'.msg_q ≡ q.msg_q

next_resume-Takes :
    (signalled expired : Bool) (q : MessageQ) → Takes q (next_resume signalled expired q)
unfolding next_resume
next_resume-Takes signalled expired q = ground arith

after_next-Grows : (s : System) (n : Next) → Takes s.queue n → SystemGrows s (after_next n s)
unfolding after_next of_priority
after_next-Grows s (message m q) e = λ p. (
  [],
  rw (e, of_priority-append p s.delivered (m ∷ []), append-nil)
      (append_assoc (of_priority p s.delivered) (of_priority p (m ∷ [])) (of_priority p q.msg_q)
        ∙ ap (λ (l : List Message). of_priority p s.delivered ++ l)
            (sym (of_priority-append p (m ∷ []) q.msg_q))),
)
after_next-Grows s (Next.periodic_message q) e = Grows-refl s.delivered s.queue.msg_q q.msg_q e
after_next-Grows s (Next.timeout_message q) e = Grows-refl s.delivered s.queue.msg_q q.msg_q e
after_next-Grows s (Next.no_message q) e = Grows-refl s.delivered s.queue.msg_q q.msg_q e
after_next-Grows s (Next.consumer_waits q) e = Grows-refl s.delivered s.queue.msg_q q.msg_q e

-- The events that remove messages by another way than delivery.
abbrev pub Removes : Event → Type 0
Removes clears = Unit {0}
Removes (clears_pending t) = Unit {0}
Removes _ = ⊥

-- Every other section lets the history of each priority grow at its end only: messages of equal
-- priority are delivered in the order in which they were inserted, none overtakes another.
pub step-Grows :
    (e : Event) (s : System) → IsSorted s.queue.msg_q → ¬ Removes e → SystemGrows s (step e s)
unfolding step close statistics reset_statistics
step-Grows (submits m) s sorted keeps =
    after_post-Grows m s s.waiting (post (some m) s.queue) sorted (post-Inserts m s.queue)
step-Grows (resumes i signalled) s sorted keeps = resume-Grows signalled s (pick i s.waiting) sorted
step-Grows (takes signalled expired) s sorted keeps =
    after_next-Grows s (next_resume signalled expired s.queue)
      (next_resume-Takes signalled expired s.queue)
step-Grows clears s sorted keeps = absurd (keeps tt)
step-Grows (clears_pending t) s sorted keeps = absurd (keeps tt)
step-Grows closes s sorted keeps = Grows-refl s.delivered s.queue.msg_q _ refl
step-Grows reads_statistics s sorted keeps = Grows-refl s.delivered s.queue.msg_q _ refl
step-Grows resets_statistics s sorted keeps = Grows-refl s.delivered s.queue.msg_q _ refl
