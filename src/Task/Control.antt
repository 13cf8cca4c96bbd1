-- ===== src/Task/Control.antt =====
-- How a task is started, asked to do something and stopped: Task::go, go_asynchronously,
-- wait_msg_handled and exit (src/threading/Task.cpp), as functions of what the calls that they make
-- answer, with the calls that matter as a list in the order of time.
use yat.Common.{
  ℕ, Bool, true, false, not, ◌&&◌, List, [], ◌∷◌, Option, none, some, ◌==◌, if◌then◌else◌,
}
use yat.MessageQ.{task_init}
use yat.MessageQ.Post.{Outcome, timeout_expired}
use yat.Task.Refs.{Op, duplicates, releases}

-- How a call ends for its caller.
pub data Ending : Type 0 where
  returns throws_handler_error throws_invalid_argument throws_internal_error
        throws_timeout_expired :
      Ending
  throws_programming_error throws_out_of_memory throws_thread_error : Ending
  throws_software_error throws_unknown_error : Ending

-- The operations on the count of the message, and the ending.
pub record Waited : Type 0 where
  pub ops : List Op
  pub ending : Ending

-- Whether `post` threw: its other outcomes make no difference.
abbrev pub post_threw : Outcome → Bool
post_threw timeout_expired = true
post_threw o = false

-- The message is null, or waitable or not. `posted` is how `post` ended, `in_time` the answer of
-- `wait_processed`, `gave_error` that of `has_error`.
unfoldable pub wait_msg_handled : Option Bool → Outcome → Bool → Bool → Waited
wait_msg_handled none posted in_time gave_error = record {
  ops = [];
  ending = throws_invalid_argument;
}
wait_msg_handled (some waitable) posted in_time gave_error =
    if not waitable
    then record { ops = releases true ∷ []; ending = throws_invalid_argument }
    else if post_threw posted
    then record { ops = duplicates ∷ releases true ∷ []; ending = throws_internal_error }
    else record {
      ops = duplicates ∷ releases true ∷ [];
      ending =
          if in_time
          then (if gave_error then throws_handler_error else returns)
          else throws_timeout_expired;
    }

-- What `go` reads of a message: its type, and whether it is waitable.
pub record InitMsg : Type 0 where
  pub type : ℕ
  pub waitable : Bool

-- Thread::State.
pub data ThreadState : Type 0 where
  state_new state_running state_terminated : ThreadState

-- Thread::spawn, which `start_undetached` calls: `none` is the exception for a thread that the
-- system does not create.
unfoldable pub spawn : Bool → ThreadState → Option ThreadState
spawn created state_new = if created then some state_running else none
spawn created state = some state

-- A call that first starts the thread: the state of the thread behind it, and how it ends.
pub record Gone : Type 0 where
  pub state : ThreadState
  pub waited : Waited

abbrev pub throws : ThreadState → Ending → Gone
throws state e = record { state = state; waited = record { ops = []; ending = e } }

-- Behind `start_undetached`.
abbrev pub after_spawn : Option ThreadState → (ThreadState → Gone) → Gone
after_spawn none next = throws state_new throws_thread_error
after_spawn (some state) next = next state

-- `go` without a message: whether one could be allocated.
unfoldable pub go_now : Bool → ThreadState → Bool → Outcome → Bool → Bool → Gone
unfolding spawn wait_msg_handled
go_now created state allocated posted in_time gave_error = after_spawn (spawn created state) (λ st.
    if not allocated
    then throws st throws_out_of_memory
    else record { state = st; waited = wait_msg_handled (some true) posted in_time gave_error })

abbrev pub is_valid_init : Option InitMsg → Bool
is_valid_init none = false
is_valid_init (some m) = (m.type == task_init) && m.waitable

abbrev pub waitable_of : Option InitMsg → Option Bool
waitable_of none = none
waitable_of (some m) = some m.waitable

unfoldable pub go : Bool → ThreadState → Option InitMsg → Outcome → Bool → Bool → Gone
unfolding spawn wait_msg_handled
go created state msg posted in_time gave_error = after_spawn (spawn created state) (λ st.
    if not (is_valid_init msg) then throws st throws_programming_error else record {
      state = st;
      waited = wait_msg_handled (waitable_of msg) posted in_time gave_error;
    })

-- How `post` ends for the caller of `go_asynchronously`.
abbrev pub posted_ending : Outcome → Ending
posted_ending timeout_expired = throws_timeout_expired
posted_ending o = returns

unfoldable pub go_asynchronously_now : Bool → ThreadState → Bool → Outcome → Gone
unfolding spawn
go_asynchronously_now created state allocated posted =
    after_spawn (spawn created state)
      (λ st. throws st (if not allocated then throws_out_of_memory else posted_ending posted))

abbrev pub has_init_type : Option InitMsg → Bool
has_init_type none = false
has_init_type (some m) = m.type == task_init

unfoldable pub go_asynchronously : Bool → ThreadState → Option InitMsg → Outcome → Gone
unfolding spawn
go_asynchronously created state msg posted = after_spawn (spawn created state) (λ st.
    throws st (if not (has_init_type msg) then throws_programming_error else posted_ending posted))

-- What `exit` and `join` do, in the order of time; `locks` and `unlocks` are on `m_lock`.
pub data Action : Type 0 where
  locks unlocks waits_for_exit joins_thread deletes_self : Action

pub data Allocation : Type 0 where
  allocated failed_with_exception failed_otherwise : Allocation

pub record Exited : Type 0 where
  pub actions : List Action
  pub ending : Ending

-- Thread::join: `joined` is that the system's join has no error.
unfoldable pub join : ThreadState → Bool → Bool → List Action
join state_new detached joined = locks ∷ deletes_self ∷ unlocks ∷ []
join state true joined = locks ∷ unlocks ∷ []
join state false false = locks ∷ unlocks ∷ joins_thread ∷ []
join state false true = locks ∷ unlocks ∷ joins_thread ∷ deletes_self ∷ []

-- `later` is the state of the thread when TASK_EXIT was waited for; what the wait and the join
-- throw is ignored.
unfoldable pub exit : ThreadState → Allocation → ThreadState → Bool → Bool → Exited
unfolding join
exit state_running allocated later detached joined = record {
  actions = locks ∷ unlocks ∷ waits_for_exit ∷ join later detached joined;
  ending = returns;
}
exit state_running failed_with_exception later detached joined = record {
  actions = locks ∷ unlocks ∷ [];
  ending = throws_software_error;
}
exit state_running failed_otherwise later detached joined = record {
  actions = locks ∷ unlocks ∷ [];
  ending = throws_unknown_error;
}
exit state_new a later detached joined = record {
  actions = locks ∷ unlocks ∷ deletes_self ∷ [];
  ending = returns;
}
exit state_terminated a later detached joined = record {
  actions = locks ∷ unlocks ∷ [];
  ending = returns;
}
