-- ===== src/Croutine.antt =====
-- croutine/croutine.h and croutine/croutine.cpp: a routine as the scheduler sees it. The stack and its
-- swap are not modelled: what the routine's function does up to its next swap is an argument.
pub mod Wakeup
use cmw.Prelude.{ℕ, ◌+◌, Bool, true, false, not, ◌&&◌, [], ltb, if◌then◌else◌}
use cmw.Prelude.Assoc.{Text}

pub data RoutineState : Type 0 where
  ready finished sleeping io_wait data_wait : RoutineState

pub record Croutine : Type 0 where
  pub name : Text
  pub wake_time : ℕ
  pub state : RoutineState
  pub locked : Bool
  pub updated : Bool
  pub force_stop : Bool
  pub priority : ℕ
  pub id : ℕ
  pub group_name : Text

abbrev pub is_ready : RoutineState → Bool
is_ready ready = true
is_ready finished = false
is_ready sleeping = false
is_ready io_wait = false
is_ready data_wait = false

abbrev pub is_sleeping : RoutineState → Bool
is_sleeping sleeping = true
is_sleeping ready = false
is_sleeping finished = false
is_sleeping io_wait = false
is_sleeping data_wait = false

-- `state_ == DATA_WAIT || state_ == IO_WAIT`
abbrev pub waits_for_data : RoutineState → Bool
waits_for_data data_wait = true
waits_for_data io_wait = true
waits_for_data ready = false
waits_for_data finished = false
waits_for_data sleeping = false

-- The constructor, with the id and the name that `CreateTask` sets; the group is still empty.
unfoldable pub create : (now id : ℕ) → Text → Croutine
create now id name = record {
  name = name;
  wake_time = now;
  state = ready;
  locked = false;
  updated = true;
  force_stop = false;
  priority = 0;
  id = id;
  group_name = [];
}

-- `Acquire`: `test_and_set` of the lock's flag
unfoldable pub acquire : Croutine → Croutine × Bool
acquire cr = (record cr { locked = true }, not cr.locked)

unfoldable pub release : Croutine → Croutine
release cr = record cr { locked = false }

unfoldable pub set_update_flag : Croutine → Croutine
set_update_flag cr = record cr { updated = false }

unfoldable pub update_state : (now : ℕ) → Croutine → Croutine × RoutineState
update_state now cr =
    if is_sleeping cr.state && ltb cr.wake_time now
    then (record cr { state = ready }, ready)
    else if not cr.updated && waits_for_data cr.state
    then (record cr { updated = true; state = ready }, ready)
    else (record cr { updated = true }, cr.state)

unfoldable pub stop : Croutine → Croutine
stop cr = record cr { force_stop = true }

unfoldable pub wake : Croutine → Croutine
wake cr = record cr { state = ready }

-- `HangUp` and `Sleep` up to the swap to the main stack
unfoldable pub hang_up : Croutine → Croutine
hang_up cr = record cr { state = data_wait }

unfoldable pub sleep : (now duration : ℕ) → Croutine → Croutine
sleep now duration cr = record cr { wake_time = now + duration; state = sleeping }

-- `Resume`: `function` is what runs between the two swaps.
unfoldable pub resume : (Croutine → Croutine) → Croutine → Croutine × RoutineState
resume function cr =
    if cr.force_stop
    then (record cr { state = finished }, finished)
    else if not (is_ready cr.state)
    then (cr, cr.state)
    else (let cr' = function cr in (cr', cr'.state))
