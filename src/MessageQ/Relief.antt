-- ===== src/MessageQ/Relief.antt =====
-- Waiting producers get their turn: consumers that empty a saturated queue wake them, and the one
-- that resumes first inserts its message.
use yat.Common.{
  ℕ, zero, suc, ◌^◌, ◌<◌, ◌≤◌, ◌≡◌, refl, ◌∙◌, ap, true, false, List, [], ◌∷◌, some, arith,
  Bool-cases, inl, inr, length,
}
use yat.MessageQ.{Message, WmUnit, charge, insert_i, insert_msg}
use yat.MessageQ.Post.{returned_0, post_resume}
use yat.MessageQ.Next.{next_resume}
use yat.MessageQ.Charge.{IsValid}
use yat.MessageQ.Laws.{account}
use yat.MessageQ.Schedule.{System, takes, resumes, pick, after_post, after_next, resume, step, run}
use yat.MessageQ.Wakeups.{take_times, drained, drain-unsaturates, step-tells_producers}

-- One extraction leaves the waiting producers where they are and takes no broadcast back.
take_keeps :
    (s : System)
    → ((step (takes true false) s).waiting ≡ s.waiting)
      × (s.queue.producer_broadcasts ≤ (step (takes true false) s).queue.producer_broadcasts)
unfolding step after_next next_resume
take_keeps s = ground arith

takes_keep :
    (n : ℕ) (s : System)
    → let s' = run (take_times n) s in
      (s'.waiting ≡ s.waiting)
      × (s.queue.producer_broadcasts ≤ s'.queue.producer_broadcasts)
      × (s.queue.saturated ≡ true
          → s'.queue.saturated ≡ false
          → s.queue.producer_broadcasts < s'.queue.producer_broadcasts)
unfolding run
takes_keep zero s = (refl, omega arith, λ a b. cc)
takes_keep (suc n) s =
    let next = step (takes true false) s in
    let (same, more) = take_keeps s in
    let (later_same, later_more, told) = takes_keep n next in
    (
      later_same ∙ same,
      omega (arith, more, later_more),
      λ a b. elim (Bool-cases next.queue.saturated) [
        | inl full ↦ omega (arith, more, told full b)
        | inr free ↦ omega (arith, step-tells_producers (takes true false) s a free, later_more)
      ],
    )

-- A producer that resumes at an empty queue that is not saturated.
post_resume-nil :
    (m : Message) (others : List Message) (s : System)
    → s.queue.saturated ≡ false
    → s.queue.msg_q ≡ []
    → let t = resume (some (m, others)) true s in
      (t.queue.msg_q ≡ m ∷ []) × (t.waiting ≡ others) × (t.answers ≡ (m, returned_0) ∷ s.answers)
unfolding resume post_resume after_post insert_i insert_msg
post_resume-nil m others s free empty = ground arith

-- At a saturated queue at which producers wait, with its charge exact and its invariant kept, if all
-- messages pending, waiting, delivered or released weigh less than 2 ^ 64 together and no periodic
-- message intervenes: as many extractions as there are messages notify the producers, and whichever
-- of these then resumes first gets its message into the empty queue and is answered by 0.
pub drain-relieves :
    (u : WmUnit) (lo hi i : ℕ) (s : System) (m : Message) (others : List Message)
    → IsValid u lo hi s.queue
    → account (charge u) s < 2 ^ 64
    → s.queue.enable_periodic_msg ≡ false
    → s.queue.saturated ≡ true
    → pick i s.waiting ≡ some (m, others)
    → let s' = run (take_times (length s.queue.msg_q)) s in
      let t = step (resumes i true) s' in
      (s.queue.producer_broadcasts < s'.queue.producer_broadcasts)
      × (t.queue.msg_q ≡ m ∷ [])
      × (t.waiting ≡ others)
      × (t.answers ≡ (m, returned_0) ∷ s'.answers)
unfolding step
drain-relieves u lo hi i s m others v fits off full waits =
    let s' = run (take_times (length s.queue.msg_q)) s in
    let free = (drain-unsaturates u lo hi s v fits off).0 in
    let empty = (drained s.queue.msg_q s refl off).0 in
    let kept = takes_keep (length s.queue.msg_q) s in
    let still : pick i s'.waiting ≡ some (m, others) = ap (pick i) kept.0 ∙ waits in
    let turn = post_resume-nil m others s' free empty in
    let step_is = ap (λ o. resume o true s') still in
    (
      kept.2 full free,
      ap (λ (t : System). t.queue.msg_q) step_is ∙ turn.0,
      ap (λ (t : System). t.waiting) step_is ∙ turn.1,
      ap (λ (t : System). t.answers) step_is ∙ turn.2,
    )
