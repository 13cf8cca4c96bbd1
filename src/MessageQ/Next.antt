-- ===== src/MessageQ/Next.antt =====
-- MessageQ::next_message and MessageQ::wait_not_empty_i. Whether `periodic_tmo_expired_i` holds
-- depends on a clock, and is an argument; `timer_restarted` tells that the call restarts it.
use yat.Common.{Bool, true, false, not, ◌&&◌, List, [], ◌∷◌, if◌then◌else◌}
use yat.MessageQ.{Message, MessageQ, is_task_ctrl_message, dec_pending_charge, check_lo_wm}

-- What the consumer gets: a message of the queue, a new TASK_PERIODIC (whose timer is then
-- restarted), a new TASK_TIMEOUT, the null pointer; or it waits.
pub data Next : Type 0 where
  message : Message → MessageQ → Next
  periodic_message timeout_message no_message consumer_waits : MessageQ → Next

set_last_periodic : Bool → MessageQ → MessageQ
set_last_periodic b q = record q { last_returned_msg_periodic = b }

-- Extraction of the first message: the same steps for a control message and for any other.
unfoldable pub extract : Message → List Message → MessageQ → Next
unfolding set_last_periodic dec_pending_charge check_lo_wm
extract m rest q =
    message m
      (check_lo_wm (dec_pending_charge m (set_last_periodic false (record q { msg_q = rest }))))

-- At least one message is there.
unfoldable pub next_ready : Bool → Message → List Message → MessageQ → Next
unfolding extract
next_ready expired m rest q =
    if is_task_ctrl_message m
    then extract m rest q
    else if q.enable_periodic_msg && (expired && not q.last_returned_msg_periodic)
    then periodic_message (set_last_periodic true q)
    else extract m rest q

-- `wait_not_empty_i` has returned false.
unfoldable pub next_expired : Bool → MessageQ → Next
unfolding set_last_periodic
next_expired expired q =
    if q.enable_periodic_msg && expired
    then periodic_message (set_last_periodic true q)
    else if q.enable_timeout_msg
    then timeout_message (set_last_periodic false q)
    else no_message (set_last_periodic false q)

next_by : List Message → Bool → MessageQ → Next
next_by [] expired q = consumer_waits q
next_by (m ∷ rest) expired q = next_ready expired m rest q

-- The call up to its outcome or its first wait; and a round of the wait that was signalled.
unfoldable pub next_message : Bool → MessageQ → Next
unfolding next_by next_ready
next_message expired q = next_by q.msg_q expired q

-- From the answer of `timed_wait`.
unfoldable pub next_resume : Bool → Bool → MessageQ → Next
unfolding next_message next_expired
next_resume signalled expired q =
    if not signalled then next_expired expired q else next_message expired q
