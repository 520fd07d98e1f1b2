-- ===== src/Croutine/Wakeup.antt =====
-- How a message wakes the routine that reads its channel: the loop of `CreateRoutineFactory` for one
-- channel (croutine/croutine_factory.h), `UpdateState` of the processor that holds the routine, and
-- `Dispatch` with `NotifyProcessor` in the writers' threads, as atomic steps in any order. One place
-- stands for the processor, since the routine's lock admits one. `CreateTask` (scheduler/scheduler.cpp)
-- registers the callback that notifies after it has dispatched the routine, so that step is one of them.
-- The callback of the routine is taken not to yield.

pub mod Kept
use cmw.Prelude.{
  ℕ, ◌&&◌, Bool, true, false, List, [], ◌∷◌, Option, none, some, if◌then◌else◌, get_elem?, set,
  replicate,
}
use cmw.Croutine.{
  Croutine, RoutineState, ready, data_wait, is_ready, waits_for_data, acquire, release,
  set_update_flag,
}
use cmw.Data.CacheBuffer.{CacheBuffer, store}
use cmw.Data.ChannelBuffer.{Outcome, miss, fault, hit, try_fetch}

-- The routine: swapped out, before it sets `DATA_WAIT`, before `TryFetch`, behind one that failed, in
-- the callback, behind the `READY` of `Yield`, or behind a read out of range.
pub data RoutinePc : Type 0 where
  parked starting fetching missed handling yielding crashed : RoutinePc

-- The processor: without the routine, behind `Acquire`, in `UpdateState` with the update flag found
-- clear, behind `UpdateState`, or in `Resume`.
pub data ProcessorPc : Type 0 where
  away holding flagged checked resumed : ProcessorPc

-- A writer's thread: outside, behind `Fill`, or having seen that the routine waits.
pub data WriterPc : Type 0 where
  outside filled seen : WriterPc

pub record Channel (A S : Type 0) : Type 0 where
  pub buffer : CacheBuffer A S
  pub next_msg_index : ℕ
  pub cr : Croutine
  pub routine : RoutinePc
  pub processor : ProcessorPc
  pub writers : List WriterPc
  pub registered : Bool

pub data Event (A : Type 0) : Type 0 where
  processor_acts : Event A
  writer_acts : ℕ → A → Event A
  creator_registers : Event A

-- What `TryFetch` leads to
unfoldable pub after_fetch : {A : Type 0} → Outcome A → RoutinePc
after_fetch miss = missed
after_fetch (hit m) = handling
after_fetch fault = crashed

module _ {A S : Type 0} where
  -- The next step of the routine while `Resume` runs it. Swapped out, `Resume` returns, and the
  -- processor releases the routine.
  unfoldable pub routine_step : RoutinePc → Channel A S → Channel A S
  unfolding after_fetch release
  routine_step parked w = record w { cr = release w.cr; processor = away }
  routine_step starting w = record w { cr = record w.cr { state = data_wait }; routine = fetching }
  routine_step fetching w =
      let (found, index) = try_fetch w.buffer w.next_msg_index in
      record w { next_msg_index = index; routine = after_fetch found }
  routine_step missed w = record w { routine = parked }
  routine_step handling w = record w { cr = record w.cr { state = ready }; routine = yielding }
  routine_step yielding w = record w { routine = parked }
  routine_step crashed w = w

  -- The step from `Acquire` on when the routine's lock is free
  unfoldable pub acquired : Croutine × Bool → Channel A S → Channel A S
  acquired (cr', true) w = record w { cr = cr'; processor = holding }
  acquired (cr', false) w = w

  -- `Resume` goes on where the routine swapped out: at the top of its loop.
  unfoldable pub processor_step : ProcessorPc → Channel A S → Channel A S
  unfolding acquired acquire release routine_step
  processor_step away w = acquired (acquire w.cr) w
  processor_step holding w = record w {
    cr = record w.cr { updated = true };
    processor = if w.cr.updated then checked else flagged;
  }
  processor_step flagged w =
      if waits_for_data w.cr.state
      then record w { cr = record w.cr { state = ready }; processor = checked }
      else record w { processor = checked }
  processor_step checked w =
      if is_ready w.cr.state
      then record w { routine = starting; processor = resumed }
      else record w { cr = release w.cr; processor = away }
  processor_step resumed w = routine_step w.routine w

  -- `Dispatch` fills the buffer; if the callback is registered, `NotifyProcessor` then reads the state, and
  -- then it clears the flag.
  unfoldable pub writer_step : A → WriterPc → Channel A S → Channel A S × WriterPc
  unfolding set_update_flag
  writer_step m outside w = (record w { buffer = store w.buffer m }, filled)
  writer_step m filled w = (w, if w.registered && waits_for_data w.cr.state then seen else outside)
  writer_step m seen w = (record w { cr = set_update_flag w.cr }, outside)

  unfoldable pub step : Channel A S → Event A → Channel A S
  unfolding processor_step writer_step
  step w processor_acts = processor_step w.processor w
  step w creator_registers = record w { registered = true }
  step w (writer_acts i m) = elim (get_elem? w.writers i) [
    | none ↦ w
    | some pc ↦ let (w', pc') = writer_step m pc w in record w' { writers = set w.writers i pc' }
  ]

  unfoldable pub run : Channel A S → List (Event A) → Channel A S
  unfolding step
  run w [] = w
  run w (e ∷ es) = run (step w e) es
