-- ===== src/MessageQ/Post.antt =====
-- MessageQ::post and MessageQ::wait_not_full_i: a producer enters, may wait for room, and resumes
-- with the answer of `timed_wait` on the queue as it is by then.
use yat.Common.{
  Bool, true, not, ◌&&◌, ◌||◌, Option, none, some, ltb, leb, ◌==◌, if◌then◌else◌, length, add64,
}
use yat.MessageQ.{
  Message, MessageQ, task_timeout, task_periodic, is_task_ctrl_message, is_opened, insert_i,
  release, broadcast_consumers,
}

-- What a call gives to its caller: a returned code, or the exception TIMEOUT_EXPIRED.
pub data Outcome : Type 0 where
  returned_0 returned_minus_1 timeout_expired : Outcome

-- A critical section ends with the call's outcome, or in `timed_wait`.
pub data Progress : Type 0 where
  done : Outcome → MessageQ → Progress
  waits : MessageQ → Progress

count_trashed : MessageQ → MessageQ
count_trashed q = record q {
  stats = record (q.stats) { trashed_msg_counter = add64 q.stats.trashed_msg_counter 1 };
}

count_without_waiting : MessageQ → MessageQ
count_without_waiting q = record q {
  stats = record (q.stats) {
    posted_without_waiting_msg_counter = add64 q.stats.posted_without_waiting_msg_counter 1;
  };
}

count_with_waiting : MessageQ → MessageQ
count_with_waiting q = record q {
  stats = record (q.stats) {
    posted_with_waiting_msg_counter = add64 q.stats.posted_with_waiting_msg_counter 1;
  };
}

count_post_tmo : MessageQ → MessageQ
count_post_tmo q = record q {
  stats = record (q.stats) {
    trashed_on_post_tmo_counter = add64 q.stats.trashed_on_post_tmo_counter 1;
  };
}

-- Is the queue saturated?
unfoldable pub check_hi_wm : MessageQ → MessageQ
check_hi_wm q =
    if not q.saturated && leb q.hi_wm q.pending_charge
    then record q {
      saturated = true;
      stats = record (q.stats) { has_been_saturated = add64 q.stats.has_been_saturated 1 };
    }
    else q

unfoldable pub update_maxima : MessageQ → MessageQ
update_maxima q = record q {
  stats = record (q.stats) {
    max_pending_charge_reached =
        if ltb q.stats.max_pending_charge_reached q.pending_charge
        then q.pending_charge
        else q.stats.max_pending_charge_reached;
    max_pending_msgs_reached =
        if ltb q.stats.max_pending_msgs_reached (length q.msg_q)
        then length q.msg_q
        else q.stats.max_pending_msgs_reached;
  };
}

-- There is room: insert, update the statistics, wake the consumers.
unfoldable pub post_insert : Message → MessageQ → Progress
unfolding update_maxima broadcast_consumers
post_insert m q = done returned_0 (broadcast_consumers (update_maxima (insert_i m q)))

-- No room in time: the message is released, and the caller is told by -1 or by an exception.
unfoldable pub post_expired : Message → MessageQ → Progress
unfolding count_post_tmo release
post_expired m q =
    done (if q.throw_on_post_msg_timeout then timeout_expired else returned_minus_1)
      (count_post_tmo (release m q))

-- The first test of `wait_not_full_i`.
unfoldable pub enter_wait_not_full : Message → MessageQ → Progress
unfolding post_insert count_without_waiting
enter_wait_not_full m q =
    if not q.saturated then post_insert m (count_without_waiting q) else waits q

-- `post` up to its outcome or its first wait. `none` is the null pointer.
unfoldable pub post : Option Message → MessageQ → Progress
unfolding release count_trashed count_without_waiting broadcast_consumers enter_wait_not_full
    check_hi_wm
post none q = done returned_0 q
post (some m) q =
    if (m.type == task_timeout) || (m.type == task_periodic)
    then done returned_0 (release m (count_trashed q))
    else if not (is_opened q.state)
    then done returned_0 (release m (count_trashed q))
    else if is_task_ctrl_message m
    then done returned_0 (count_without_waiting (broadcast_consumers (insert_i m q)))
    else enter_wait_not_full m (check_hi_wm q)

-- One round of the loop of `wait_not_full_i`, from the answer of `timed_wait`.
unfoldable pub post_resume : Bool → Message → MessageQ → Progress
unfolding post_expired count_with_waiting post_insert
post_resume signalled m q =
    if not signalled
    then post_expired m q
    else if q.saturated
    then waits (count_with_waiting q)
    else post_insert m (count_with_waiting q)
