-- ===== src/MessageQ/Limits.antt =====
-- The contract of MessageQ::post at the water marks, and the setters of the marks.
use yat.Common.{
  ℕ, ◌+◌, ◌^◌, ◌<◌, ◌≤◌, ◌≡◌, Bool, true, false, ◌∷◌, ◌⊎◌, arith, add64, if◌then◌else◌,
}
use yat.MessageQ.{
  Message, MessageQ, opened, closed, charge, insert_msg, insert_i, is_task_ctrl_message,
  task_timeout, task_periodic,
}
use yat.MessageQ.Post.{
  Progress, done, waits, returned_0, returned_minus_1, timeout_expired, post_resume,
}
use yat.MessageQ.Charge.{state_after}
use yat.MessageQ.Marks.{set_lo_wm, min_lo_water_mark, min_water_marks_diff}

abbrev pub IsMadeByTask : Message → Type 0
IsMadeByTask m = (m.type ≡ task_timeout) ⊎ (m.type ≡ task_periodic)

-- The message was thrown away.
abbrev pub Trashed : Message → MessageQ → MessageQ → Type 0
Trashed m q q' = (q'.msg_q ≡ q.msg_q) × (q'.released ≡ m ∷ q.released)

-- The message is in the queue, and the consumers are told.
abbrev pub Enqueued : Message → MessageQ → MessageQ → Type 0
Enqueued m q q' =
    (q'.msg_q ≡ insert_msg m q.msg_q)
    × (q'.released ≡ q.released)
    × (q'.pending_charge ≡ add64 q.pending_charge (charge q.wm_unit m))
    × (q'.consumer_broadcasts ≡ q.consumer_broadcasts + 1)

abbrev pub Blocked : MessageQ → MessageQ → Type 0
Blocked q q' = (q'.saturated ≡ true) × (q'.msg_q ≡ q.msg_q) × (q'.released ≡ q.released)

-- What `post` may end with, and when.
abbrev pub Posts : Message → MessageQ → Progress → Type 0
Posts m q (done o q') =
    (o ≡ returned_0)
    × (((IsMadeByTask m ⊎ (q.state ≡ closed)) × Trashed m q q')
        ⊎ ((q.state ≡ opened)
            × ((is_task_ctrl_message m ≡ true)
                ⊎ ((q.saturated ≡ false) × (q.pending_charge < q.hi_wm)))
            × Enqueued m q q'))
Posts m q (waits q') =
    (q.state ≡ opened)
    × (is_task_ctrl_message m ≡ false)
    × ((q.saturated ≡ true) ⊎ (q.hi_wm ≤ q.pending_charge))
    × Blocked q q'

-- What resuming may end with.
abbrev pub Resumes : Bool → Message → MessageQ → Progress → Type 0
Resumes signalled m q (done o q') =
    ((signalled ≡ false)
      × (o ≡ (if q.throw_on_post_msg_timeout then timeout_expired else returned_minus_1))
      × Trashed m q q')
    ⊎ ((signalled ≡ true) × (q.saturated ≡ false) × (o ≡ returned_0) × Enqueued m q q')
Resumes signalled m q (waits q') = (signalled ≡ true) × (q.saturated ≡ true) × Blocked q q'

-- A resumed producer looks at `saturated_` and not at the high mark: at an unsaturated queue that
-- has reached its high mark it inserts, and the charge passes the mark.
pub resume_over_hi_wm :
    (m : Message) (q : MessageQ)
    → q.saturated ≡ false
    → q.hi_wm ≤ q.pending_charge
    → 0 < charge q.wm_unit m
    → q.pending_charge + charge q.wm_unit m < 2 ^ 64
    → q.hi_wm < (state_after (post_resume true m q)).pending_charge
unfolding post_resume insert_i
resume_over_hi_wm m q free full some_weight fits = ground arith

-- A low mark that does not exceed the high mark is set, at least to 8, and the high mark is raised
-- to 8 above it if it is nearer.
pub set_lo_wm_lem :
    (lo : ℕ) (q : MessageQ)
    → lo ≤ q.hi_wm
    → min_lo_water_mark ≤ q.hi_wm
    → q.hi_wm + min_water_marks_diff < 2 ^ 64
    → (lo ≤ (set_lo_wm lo q).lo_wm)
      × (min_lo_water_mark ≤ (set_lo_wm lo q).lo_wm)
      × ((set_lo_wm lo q).lo_wm + min_water_marks_diff ≤ (set_lo_wm lo q).hi_wm)
      × (q.hi_wm ≤ (set_lo_wm lo q).hi_wm)
unfolding set_lo_wm
set_lo_wm_lem lo q below least fits = ground arith

-- A low mark above the high mark is set and the high mark stays below it: the difference of the
-- two unsigned marks wraps round, so the test for a small difference fails.
pub set_lo_wm_inverts :
    (lo : ℕ) (q : MessageQ)
    → min_lo_water_mark ≤ lo
    → q.hi_wm < lo
    → lo + min_water_marks_diff ≤ q.hi_wm + 2 ^ 64
    → lo < 2 ^ 64
    → ((set_lo_wm lo q).lo_wm ≡ lo) × ((set_lo_wm lo q).hi_wm ≡ q.hi_wm)
unfolding set_lo_wm
set_lo_wm_inverts lo q least above room fits = ground arith
