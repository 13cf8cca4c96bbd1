-- ===== src/MessageQ/Charge.antt =====
-- What the pending messages weigh, and the invariant of the queue: `pending_charge_` is the charge
-- of the list, the list is sorted, and a saturated queue lies above its low water mark.
use yat.Common.{ℕ, ◌+◌, ◌^◌, ◌<◌, ◌≡◌, ◌⊎◌, refl, Bool, false, List, [], ◌∷◌, ◌++◌, some, arith}
use yat.MessageQ.{
  Message, MessageQ, WmUnit, charge, insert_msg, insert_at_upper_bound, insert_i, check_lo_wm,
}
use yat.MessageQ.Order.{IsSorted, insert_msg-eq-insert, insert_msg-IsSorted}
use yat.MessageQ.Post.{Progress, done, waits, post, post_resume}
use yat.MessageQ.Next.{
  Next, message, periodic_message, timeout_message, no_message, consumer_waits, next_message,
  next_resume,
}

-- The sum of a weight over a list.
unfoldable pub tally : (Message → ℕ) → List Message → ℕ
tally f [] = 0
tally f (m ∷ ms) = f m + tally f ms

pub tally-append :
    (f : Message → ℕ) (xs ys : List Message) → tally f (xs ++ ys) ≡ tally f xs + tally f ys
unfolding tally
tally-append f [] ys = omega arith
tally-append f (x ∷ xs) ys = omega (arith, tally-append f xs ys)

tally-insert :
    (f : Message → ℕ) (m : Message) (ms : List Message)
    → tally f (insert_at_upper_bound m ms) ≡ f m + tally f ms
unfolding tally insert_at_upper_bound
tally-insert f m [] = refl
tally-insert f m (x ∷ xs) = ground (arith, tally-insert f m xs)

pub tally-insert_msg :
    (f : Message → ℕ) (m : Message) (ms : List Message)
    → tally f (insert_msg m ms) ≡ f m + tally f ms
unfolding insert_at_upper_bound
tally-insert_msg f m ms = rw (insert_msg-eq-insert m ms) (tally-insert f m ms)

-- The settings are those of a running queue: `lo` lies below `hi`.
pub record IsValid (u : WmUnit) (lo hi : ℕ) (q : MessageQ) : Type 0 where
  pub unit : q.wm_unit ≡ u
  pub lo_is : q.lo_wm ≡ lo
  pub hi_is : q.hi_wm ≡ hi
  pub marks : lo < hi
  pub sorted : IsSorted q.msg_q
  pub charged : q.pending_charge ≡ tally (charge u) q.msg_q
  pub fits : tally (charge u) q.msg_q < 2 ^ 64
  pub high : (q.saturated ≡ false) ⊎ (lo < q.pending_charge)

-- The state in which a section ends.
abbrev pub state_after : Progress → MessageQ
state_after (done o q) = q
state_after (waits q) = q

abbrev pub state_of_next : Next → MessageQ
state_of_next (message m q) = q
state_of_next (periodic_message q) = q
state_of_next (timeout_message q) = q
state_of_next (no_message q) = q
state_of_next (consumer_waits q) = q

module _ {u : WmUnit} {lo hi : ℕ} where
  insert_i-IsValid :
      (m : Message) (q : MessageQ)
      → IsValid u lo hi q
      → charge u m + tally (charge u) q.msg_q < 2 ^ 64
      → IsValid u lo hi (insert_i m q)
  unfolding insert_i
  insert_i-IsValid m q v fits =
      ground (arith, tally-insert_msg (charge u) m q.msg_q, insert_msg-IsSorted m q.msg_q)

  pub check_lo_wm-IsValid :
      (q : MessageQ)
      → (q.wm_unit ≡ u) × (q.lo_wm ≡ lo) × (q.hi_wm ≡ hi) × (lo < hi)
      → IsSorted q.msg_q
      → q.pending_charge ≡ tally (charge u) q.msg_q
      → q.pending_charge < 2 ^ 64
      → IsValid u lo hi (check_lo_wm q)
  unfolding check_lo_wm
  check_lo_wm-IsValid q settings s c small = ground arith

  -- Entering `post` keeps the invariant, on every branch.
  pub post-IsValid :
      (m : Message) (q : MessageQ)
      → IsValid u lo hi q
      → charge u m + tally (charge u) q.msg_q < 2 ^ 64
      → IsValid u lo hi (state_after (post (some m) q))
  unfolding post insert_i
  post-IsValid m q v fits =
      ground (arith, tally-insert_msg (charge u) m q.msg_q, insert_msg-IsSorted m q.msg_q)

  -- So does resuming after a wait.
  pub post_resume-IsValid :
      (signalled : Bool) (m : Message) (q : MessageQ)
      → IsValid u lo hi q
      → charge u m + tally (charge u) q.msg_q < 2 ^ 64
      → IsValid u lo hi (state_after (post_resume signalled m q))
  unfolding post_resume insert_i
  post_resume-IsValid signalled m q v fits =
      ground (arith, tally-insert_msg (charge u) m q.msg_q, insert_msg-IsSorted m q.msg_q)

  -- Extraction, and each way in which `next_message` goes without it.
  pub next_message-IsValid :
      (expired : Bool) (q : MessageQ)
      → IsValid u lo hi q
      → IsValid u lo hi (state_of_next (next_message expired q))
  unfolding next_message tally
  next_message-IsValid expired q v = ground arith

  pub next_resume-IsValid :
      (signalled expired : Bool) (q : MessageQ)
      → IsValid u lo hi q
      → IsValid u lo hi (state_of_next (next_resume signalled expired q))
  unfolding next_resume tally
  next_resume-IsValid signalled expired q v = ground arith
