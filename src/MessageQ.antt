-- ===== src/MessageQ.antt =====
-- The message queue of tasks: yat::MessageQ (src/threading/MessageQ.cpp,
-- include/yat/threading/MessageQ.i) and what it reads of yat::Message
-- (include/yat/threading/Message.h, Message.i).
-- A critical section is a function from the state to the state; a thread that leaves the lock in
-- `timed_wait` ends one section and begins another, with the answer of the wait as an argument.
use yat.Common.{
  ℕ, ◌+◌, Bool, true, false, ◌||◌, List, [], ◌∷◌, ltb, leb, ◌==◌, if◌then◌else◌, ◌&&◌, add64, sub64,
}
pub mod Post
pub mod Next
pub mod Clear
pub mod Marks
pub mod Order
pub mod Charge
pub mod Sweep
pub mod Schedule
pub mod Laws
pub mod Fifo
pub mod Wakeups
pub mod Relief
pub mod Limits
mod Tests

-- The enumeration MessageType.
abbrev pub task_init : ℕ
task_init = 0

abbrev pub task_timeout : ℕ
task_timeout = 1

abbrev pub task_periodic : ℕ
task_periodic = 2

abbrev pub task_exit : ℕ
task_exit = 4

-- `id` stands for the address of the message.
pub record Message : Type 0 where
  pub id : ℕ
  pub type : ℕ
  pub priority : ℕ
  pub size_in_bytes : ℕ

pub data State : Type 0 where
  opened closed : State

pub data WmUnit : Type 0 where
  num_of_msgs num_of_bytes : WmUnit

pub record Statistics : Type 0 where
  pub has_been_saturated : ℕ
  pub has_been_unsaturated : ℕ
  pub max_pending_charge_reached : ℕ
  pub max_pending_msgs_reached : ℕ
  pub posted_with_waiting_msg_counter : ℕ
  pub posted_without_waiting_msg_counter : ℕ
  pub trashed_msg_counter : ℕ
  pub trashed_on_post_tmo_counter : ℕ
  pub pending_charge : ℕ
  pub pending_mgs : ℕ
  pub wm_unit : WmUnit

-- The last three fields record what the queue does to the outside: the messages on which it has
-- called `release`, and how often it has called `broadcast` on its two conditions.
pub record MessageQ : Type 0 where
  pub msg_q : List Message
  pub state : State
  pub enable_timeout_msg : Bool
  pub enable_periodic_msg : Bool
  pub lo_wm : ℕ
  pub hi_wm : ℕ
  pub saturated : Bool
  pub throw_on_post_msg_timeout : Bool
  pub last_returned_msg_periodic : Bool
  pub wm_unit : WmUnit
  pub pending_charge : ℕ
  pub stats : Statistics
  pub released : List Message
  pub producer_broadcasts : ℕ
  pub consumer_broadcasts : ℕ

abbrev pub no_statistics : Statistics
no_statistics = record {
  has_been_saturated = 0;
  has_been_unsaturated = 0;
  max_pending_charge_reached = 0;
  max_pending_msgs_reached = 0;
  posted_with_waiting_msg_counter = 0;
  posted_without_waiting_msg_counter = 0;
  trashed_msg_counter = 0;
  trashed_on_post_tmo_counter = 0;
  pending_charge = 0;
  pending_mgs = 0;
  wm_unit = num_of_msgs;
}

-- The constructor takes the water marks as they are given.
unfoldable pub init : ℕ → ℕ → Bool → MessageQ
init lo hi throws = record {
  msg_q = [];
  state = opened;
  enable_timeout_msg = false;
  enable_periodic_msg = false;
  lo_wm = lo;
  hi_wm = hi;
  saturated = false;
  throw_on_post_msg_timeout = throws;
  last_returned_msg_periodic = false;
  wm_unit = num_of_msgs;
  pending_charge = 0;
  stats = no_statistics;
  released = [];
  producer_broadcasts = 0;
  consumer_broadcasts = 0;
}

unfoldable pub is_task_ctrl_message : Message → Bool
is_task_ctrl_message m = (m.type == task_init) || (m.type == task_exit)

abbrev pub is_opened : State → Bool
is_opened opened = true
is_opened closed = false

abbrev pub is_empty {ℓ} : {A : Type ℓ} → List A → Bool
is_empty [] = true
is_empty (x ∷ xs) = false

-- What a message weighs in the unit of the water marks.
unfoldable pub charge : WmUnit → Message → ℕ
charge num_of_msgs m = 1
charge num_of_bytes m = m.size_in_bytes

unfoldable pub inc_pending_charge : Message → MessageQ → MessageQ
inc_pending_charge m q = record q { pending_charge = add64 q.pending_charge (charge q.wm_unit m) }

unfoldable pub dec_pending_charge : Message → MessageQ → MessageQ
dec_pending_charge m q = record q { pending_charge = sub64 q.pending_charge (charge q.wm_unit m) }

unfoldable pub release : Message → MessageQ → MessageQ
release m q = record q { released = m ∷ q.released }

-- `insert_msg_criterion m1 m2`, the predicate that `std::upper_bound` is called with.
pub insert_msg_criterion : Message → Message → Bool
insert_msg_criterion m1 m2 = ltb m2.priority m1.priority

-- `insert` at `std::upper_bound`: before the first message that the criterion holds for.
pub insert_at_upper_bound : Message → List Message → List Message
unfolding insert_msg_criterion
insert_at_upper_bound m [] = m ∷ []
insert_at_upper_bound m (x ∷ xs) =
    if insert_msg_criterion m x then m ∷ x ∷ xs else x ∷ insert_at_upper_bound m xs

-- An empty queue takes the message at its front, with no regard to the priority.
pub insert_msg : Message → List Message → List Message
insert_msg m [] = m ∷ []
insert_msg m (x ∷ xs) = insert_at_upper_bound m (x ∷ xs)

unfoldable pub insert_i : Message → MessageQ → MessageQ
unfolding inc_pending_charge
insert_i m q = inc_pending_charge m (record q { msg_q = insert_msg m q.msg_q })

unfoldable pub broadcast_consumers : MessageQ → MessageQ
broadcast_consumers q = record q { consumer_broadcasts = q.consumer_broadcasts + 1 }

unfoldable pub broadcast_producers : MessageQ → MessageQ
broadcast_producers q = record q { producer_broadcasts = q.producer_broadcasts + 1 }

-- A message is extracted, or messages were removed: at the low water mark the producers that wait
-- for room are woken.
unfoldable pub leave_saturation : MessageQ → MessageQ
leave_saturation q = record q {
  saturated = false;
  stats = record (q.stats) { has_been_unsaturated = add64 q.stats.has_been_unsaturated 1 };
}

unfoldable pub check_lo_wm : MessageQ → MessageQ
unfolding leave_saturation broadcast_producers
check_lo_wm q =
    if q.saturated && leb q.pending_charge q.lo_wm
    then broadcast_producers (leave_saturation q)
    else q
