-- ===== src/MessageQ/Sweep.antt =====
-- The two ways to clear the queue: MessageQ::clear_i and MessageQ::clear_pending_messages.
use mathlib.Core.List.{append-nil, append_assoc}
use yat.Common.{
  ℕ, ◌+◌, ◌^◌, ◌<◌, ◌≤◌, ◌≡◌, refl, sym, ◌∙◌, ap, false, List, [], ◌∷◌, ◌++◌, ◌==◌, if◌then◌else◌,
  arith, length, Bool-cases, inl, inr,
}
use yat.MessageQ.{Message, MessageQ, WmUnit, charge, check_lo_wm}
use yat.MessageQ.Order.{AtMost, IsSorted}
use yat.MessageQ.Clear.{
  Sweep, sweep, remove_msg, keep_msg, clear_pending_messages, clear, clear_loop, copy_back,
}
use yat.MessageQ.Charge.{IsValid, tally, check_lo_wm-IsValid}

-- The messages of other types, and those of the type.
unfoldable pub others : ℕ → List Message → List Message
others t [] = []
others t (m ∷ ms) = if m.type == t then others t ms else m ∷ others t ms

unfoldable pub of_type : ℕ → List Message → List Message
of_type t [] = []
of_type t (m ∷ ms) = if m.type == t then m ∷ of_type t ms else of_type t ms

AtMost-others : (t p : ℕ) (ms : List Message) → AtMost p ms → AtMost p (others t ms)
unfolding others
AtMost-others t p [] a = tt
AtMost-others t p (m ∷ ms) a = ground (arith, AtMost-others t p ms)

others-IsSorted : (t : ℕ) (ms : List Message) → IsSorted ms → IsSorted (others t ms)
unfolding others
others-IsSorted t [] s = tt
others-IsSorted t (m ∷ ms) s = ground (arith, others-IsSorted t ms, AtMost-others t m.priority ms)

pub tally-others :
    (f : Message → ℕ) (t : ℕ) (ms : List Message)
    → tally f (others t ms) + tally f (of_type t ms) ≡ tally f ms
unfolding others of_type tally
tally-others f t [] = refl
tally-others f t (m ∷ ms) = ground (arith, tally-others f t ms)

-- What the loop of `clear_pending_messages` has done when it ends: it started from `s`.
pub record Swept (t : ℕ) (ms : List Message) (s r : Sweep) : Type 0 where
  pub copied : r.copy ≡ s.copy ++ others t ms
  pub counted : r.cnt ≡ s.cnt + length (of_type t ms)
  pub kept :
      r.queue
      ≡ record (s.queue) { pending_charge = r.queue.pending_charge; released = r.queue.released }

pub sweep-Swept : (t : ℕ) (ms : List Message) (s : Sweep) → Swept t ms s (sweep t ms s)
unfolding sweep remove_msg keep_msg others of_type
sweep-Swept t [] s = record { copied = sym (append-nil s.copy); counted = omega arith; kept = refl }
sweep-Swept t (m ∷ ms) s = elim (Bool-cases (m.type == t)) [
  | inl e ↦
      let later = sweep-Swept t ms (remove_msg m s) in
      rw (e, sweep)
        (record {
          copied = rw (e, others) later.copied;
          counted = rw (e, of_type) (omega (arith, later.counted));
          kept = later.kept;
        })
  | inr e ↦
      let later = sweep-Swept t ms (keep_msg m s) in
      rw (e, sweep)
        (record {
          copied = rw (e, others) (later.copied ∙ append_assoc s.copy (m ∷ []) (others t ms));
          counted = rw (e, of_type) later.counted;
          kept = later.kept;
        })
]

-- Each removed message is released once.
sweep-released :
    (f : Message → ℕ) (t : ℕ) (ms : List Message) (s : Sweep)
    → tally f (sweep t ms s).queue.released ≡ tally f (of_type t ms) + tally f s.queue.released
unfolding sweep remove_msg keep_msg of_type tally
sweep-released f t [] s = omega arith
sweep-released f t (m ∷ ms) s =
    ground (arith, sweep-released f t ms (remove_msg m s), sweep-released f t ms (keep_msg m s))

-- The charge follows, as long as it covers what is left.
sweep-charge :
    (u : WmUnit) (t : ℕ) (ms : List Message) (s : Sweep)
    → s.queue.wm_unit ≡ u
    → tally (charge u) ms ≤ s.queue.pending_charge
    → s.queue.pending_charge < 2 ^ 64
    → (sweep t ms s).queue.pending_charge + tally (charge u) (of_type t ms) ≡ s.queue.pending_charge
unfolding sweep remove_msg keep_msg of_type tally
sweep-charge u t [] s e h b = omega arith
sweep-charge u t (m ∷ ms) s e h b =
    ground (arith, sweep-charge u t ms (remove_msg m s), sweep-charge u t ms (keep_msg m s))

-- The queue after the sweep, before the water mark is looked at.
abbrev swept : ℕ → MessageQ → Sweep
swept t q = sweep t q.msg_q (record { queue = q; copy = []; cnt = 0 })

swept-IsValid :
    (u : WmUnit) (lo hi : ℕ) (t : ℕ) (q : MessageQ)
    → IsValid u lo hi q
    → IsValid u lo hi (check_lo_wm (copy_back (swept t q)))
swept-IsValid u lo hi t q v =
    check_lo_wm-IsValid (copy_back (swept t q))
      (
        ap (λ (r : MessageQ). r.wm_unit) done.kept ∙ v.unit,
        ap (λ (r : MessageQ). r.lo_wm) done.kept ∙ v.lo_is,
        ap (λ (r : MessageQ). r.hi_wm) done.kept ∙ v.hi_is,
        v.marks,
      )
      (rw done.copied (others-IsSorted t q.msg_q v.sorted))
      (rw done.copied (omega (arith, left, tally-others (charge u) t q.msg_q, v.charged)))
      (omega (arith, left, v.charged, v.fits))
  where
    done : Swept t q.msg_q (record { queue = q; copy = []; cnt = 0 }) (swept t q)
    done = sweep-Swept t q.msg_q (record { queue = q; copy = []; cnt = 0 })

    left :
        (swept t q).queue.pending_charge + tally (charge u) (of_type t q.msg_q) ≡ q.pending_charge
    left =
        sweep-charge u t q.msg_q (record { queue = q; copy = []; cnt = 0 }) v.unit
          (omega (arith, v.charged)) (omega (arith, v.charged, v.fits))

pub clear_pending-IsValid :
    (u : WmUnit) (lo hi : ℕ) (t : ℕ) (q : MessageQ)
    → IsValid u lo hi q
    → IsValid u lo hi (clear_pending_messages t q).0
unfolding clear_pending_messages
clear_pending-IsValid u lo hi t q v = ground (arith, swept-IsValid u lo hi t q v)

-- Exactly the messages of the type leave the queue, the others stay in their order, the result is
-- the number that left, and each that left was released.
pub clear_pending_lem :
    (f : Message → ℕ) (t : ℕ) (q : MessageQ)
    → ((clear_pending_messages t q).0.msg_q ≡ others t q.msg_q)
      × ((clear_pending_messages t q).1 ≡ length (of_type t q.msg_q))
      × (tally f (clear_pending_messages t q).0.released
          ≡ tally f (of_type t q.msg_q) + tally f q.released)
unfolding clear_pending_messages check_lo_wm others of_type tally
clear_pending_lem f t q =
    let done = sweep-Swept t q.msg_q (record { queue = q; copy = []; cnt = 0 }) in
    (
      ground (arith, done),
      ground (arith, done),
      ground (arith, sweep-released f t q.msg_q (record { queue = q; copy = []; cnt = 0 })),
    )

-- The loop of `clear_i` empties the list, releases each message and touches nothing else.
clear_loop_lem :
    (ms : List Message) (q : MessageQ)
    → clear_loop ms q ≡ record q { msg_q = []; released = (clear_loop ms q).released }
unfolding clear_loop
clear_loop_lem [] q = refl
clear_loop_lem (m ∷ ms) q = clear_loop_lem ms _

clear_loop-released :
    (f : Message → ℕ) (ms : List Message) (q : MessageQ)
    → tally f (clear_loop ms q).released ≡ tally f ms + tally f q.released
unfolding clear_loop tally
clear_loop-released f [] q = omega arith
clear_loop-released f (m ∷ ms) q =
    omega (arith, clear_loop-released f ms (record q { msg_q = ms; released = m ∷ q.released }))

-- After `clear` the queue is empty, uncharged and unsaturated, every message that was in it has
-- been released, their number is returned, and producers are woken just if it was saturated.
pub clear_lem :
    (f : Message → ℕ) (q : MessageQ)
    → ((clear q).0.msg_q ≡ [])
      × ((clear q).0.pending_charge ≡ 0)
      × ((clear q).0.saturated ≡ false)
      × ((clear q).1 ≡ length q.msg_q)
      × (tally f (clear q).0.released ≡ tally f q.msg_q + tally f q.released)
      × ((clear q).0.producer_broadcasts
          ≡ (if q.saturated then q.producer_broadcasts + 1 else q.producer_broadcasts))
unfolding clear
clear_lem f q = rw (clear_loop_lem q.msg_q q) (
  ground arith,
  ground arith,
  ground arith,
  refl,
  ground (arith, clear_loop-released f q.msg_q q),
  ground arith,
)

pub clear-IsValid :
    (u : WmUnit) (lo hi : ℕ) (q : MessageQ) → IsValid u lo hi q → IsValid u lo hi (clear q).0
unfolding clear tally
clear-IsValid u lo hi q v = rw (clear_loop_lem q.msg_q q) (ground arith)
