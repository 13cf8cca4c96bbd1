-- ===== src/MessageQ/Clear.antt =====
-- MessageQ::clear_i, clear, clear_pending_messages, close, statistics and reset_statistics.
use yat.Common.{ℕ, ◌+◌, Bool, true, false, List, [], ◌∷◌, ◌++◌, ◌==◌, if◌then◌else◌, length, u64}
use yat.MessageQ.{
  Message, MessageQ, closed, no_statistics, is_empty, dec_pending_charge, release, leave_saturation,
  broadcast_producers, check_lo_wm,
}

-- The loop of `clear_i`: the front message is released and popped, until none is left.
unfoldable pub clear_loop : List Message → MessageQ → MessageQ
unfolding release
clear_loop [] q = record q { msg_q = [] }
clear_loop (m ∷ ms) q = clear_loop ms (release m (record q { msg_q = ms }))

unfoldable pub clear_saturation : Bool → MessageQ → MessageQ
unfolding leave_saturation broadcast_producers
clear_saturation notify_waiters q =
    if q.saturated
    then (if notify_waiters then broadcast_producers (leave_saturation q) else leave_saturation q)
    else q

-- Returns the number of messages that were in the queue.
unfoldable pub clear_i : Bool → MessageQ → MessageQ × ℕ
unfolding clear_loop clear_saturation
clear_i notify_waiters q = (
  clear_saturation notify_waiters (record (clear_loop q.msg_q q) { pending_charge = 0 }),
  length q.msg_q,
)

unfoldable pub clear : MessageQ → MessageQ × ℕ
unfolding clear_i
clear q = clear_i true q

unfoldable pub close : MessageQ → MessageQ
close q = record q { state = closed }

-- The destructor.
unfoldable pub destroy : MessageQ → MessageQ
unfolding clear_i
destroy q = (clear_i false (record q { state = closed })).0

-- The variables of the loop of `clear_pending_messages`; `copy` is the part of the copied list
-- that stands before the iterator `cit`.
pub record Sweep : Type 0 where
  pub queue : MessageQ
  pub copy : List Message
  pub cnt : ℕ

-- The message is released, and erased from the copy.
unfoldable pub remove_msg : Message → Sweep → Sweep
unfolding release dec_pending_charge
remove_msg m s = record s { queue = release m (dec_pending_charge m s.queue); cnt = s.cnt + 1 }

unfoldable pub keep_msg : Message → Sweep → Sweep
keep_msg m s = record s { copy = s.copy ++ m ∷ [] }

unfoldable pub sweep_step : ℕ → Message → Sweep → Sweep
sweep_step msg_type m s = if m.type == msg_type then remove_msg m s else keep_msg m s

unfoldable pub sweep : ℕ → List Message → Sweep → Sweep
unfolding sweep_step
sweep msg_type [] s = s
sweep msg_type (m ∷ ms) s = sweep msg_type ms (sweep_step msg_type m s)

abbrev pub copy_back : Sweep → MessageQ
copy_back s = record (s.queue) { msg_q = s.copy }

unfoldable pub clear_pending_messages : ℕ → MessageQ → MessageQ × ℕ
unfolding sweep check_lo_wm
clear_pending_messages msg_type q =
    if is_empty q.msg_q
    then (q, 0)
    else let s = sweep msg_type q.msg_q (record { queue = q; copy = []; cnt = 0 }) in
      (check_lo_wm (copy_back s), s.cnt)

-- The accessor brings two of the figures up to date.
unfoldable pub statistics : MessageQ → MessageQ
statistics q = record q {
  stats = record (q.stats) {
    pending_charge = q.pending_charge;
    pending_mgs = u64 (length q.msg_q);
  };
}

-- `memset` to zero, so the unit becomes the first of its enumeration.
unfoldable pub reset_statistics : MessageQ → MessageQ
reset_statistics q = record q { stats = no_statistics }
