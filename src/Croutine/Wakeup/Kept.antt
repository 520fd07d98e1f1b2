-- ===== src/Croutine/Wakeup/Kept.antt =====
-- No message is left behind: a routine that will not be run again as things stand has nothing to read.
use cmw.Prelude.{
  zero, suc, ◌++◌, sym, subst, ◌∙◌, ℕ, ◌≡◌, refl, ◌⊎◌, inl, inr, Bool, true, false, not, ◌&&◌, ◌||◌,
  List, [], ◌∷◌, some, get_elem?, set, replicate, arith, ◌==◌, total, total-set, Option-cases,
}
use cmw.Croutine.{
  Croutine, RoutineState, ready, is_ready, waits_for_data, acquire, release, set_update_flag,
  create, update_state,
}
use cmw.Prelude.Assoc.{Text}
use cmw.Data.CacheBuffer.{CacheBuffer}
use cmw.Data.ChannelBuffer.{try_fetch}
use cmw.Data.ChannelBuffer.Fetch.{is_miss, try_fetch-miss}
use cmw.Croutine.Wakeup.{
  RoutinePc, parked, starting, fetching, missed, handling, yielding, crashed, ProcessorPc, away,
  holding, flagged, checked, resumed, WriterPc, outside, filled, seen, Channel, after_fetch,
  routine_step, acquired, processor_step, writer_step, Event, processor_acts, writer_acts,
  creator_registers, step, run,
}

abbrev busy : WriterPc → ℕ
busy outside = 0
busy filled = 1
busy seen = 1

abbrev is_flagged : ProcessorPc → Bool
is_flagged flagged = true
is_flagged away = false
is_flagged holding = false
is_flagged checked = false
is_flagged resumed = false

abbrev is_resumed : ProcessorPc → Bool
is_resumed resumed = true
is_resumed away = false
is_resumed holding = false
is_resumed checked = false
is_resumed flagged = false

-- `TryFetch` has failed since the routine last set `DATA_WAIT`, and nothing made it ready since.
abbrev sleeps : RoutinePc → RoutineState → Bool
sleeps missed state = true
sleeps parked state = not (is_ready state)
sleeps starting state = false
sleeps fetching state = false
sleeps handling state = false
sleeps yielding state = false
sleeps crashed state = false

-- The states that the steps of the loop leave, and where the routine stands while no processor runs it.
abbrev fits : RoutinePc → RoutineState → ProcessorPc → Bool
fits parked state processor = is_ready state || waits_for_data state
fits starting state processor = is_resumed processor && (is_ready state || waits_for_data state)
fits fetching state processor = is_resumed processor && waits_for_data state
fits missed state processor = is_resumed processor && waits_for_data state
fits handling state processor = is_resumed processor && waits_for_data state
fits yielding state processor = is_resumed processor && is_ready state
fits crashed state processor = is_resumed processor

-- A message waits for a routine that sleeps, and nothing under way will wake it.
abbrev lost : RoutinePc → RoutineState → (empty updated : Bool) → (busy : ℕ) → ProcessorPc → Bool
lost routine state empty updated n processor =
    sleeps routine state && not empty && updated && (n == 0) && not (is_flagged processor)

module _ {A S : Type 0} where
  abbrev empty : Channel A S → Bool
  empty w = is_miss (try_fetch w.buffer w.next_msg_index).0

  abbrev pub writing : Channel A S → ℕ
  writing w = total busy w.writers

  record Kept (w : Channel A S) : Type 0 where
    not_lost : lost w.routine w.cr.state (empty w) w.cr.updated (writing w) w.processor ≡ false
    in_place : fits w.routine w.cr.state w.processor ≡ true

  module _ (w : Channel A S) (k : Kept w) where
    fetched-Kept : w.routine ≡ fetching → w.processor ≡ resumed → Kept (routine_step fetching w)
    unfolding routine_step after_fetch
    fetched-Kept here runs = ground (arith, try_fetch-miss w.buffer w.next_msg_index)

    routine-Kept : (r : RoutinePc) → w.routine ≡ r → w.processor ≡ resumed → Kept (routine_step r w)
    unfolding routine_step release
    routine-Kept parked here runs = ground arith
    routine-Kept starting here runs = ground arith
    routine-Kept fetching here runs = fetched-Kept here runs
    routine-Kept missed here runs = ground arith
    routine-Kept handling here runs = ground arith
    routine-Kept yielding here runs = ground arith
    routine-Kept crashed here runs = k

    acquired-Kept :
        (got : Bool) → w.processor ≡ away → Kept (acquired (record w.cr { locked = true }, got) w)
    unfolding acquired
    acquired-Kept true e = ground arith
    acquired-Kept false e = k

    processor-Kept : (p : ProcessorPc) → w.processor ≡ p → Kept (processor_step p w)
    unfolding processor_step acquire release
    processor-Kept away e = acquired-Kept _ e
    processor-Kept holding e = ground arith
    processor-Kept flagged e = ground arith
    processor-Kept checked e = ground arith
    processor-Kept resumed e = routine-Kept w.routine refl e

    writer-Kept :
        (m : A) (i : ℕ) (pc : WriterPc)
        → get_elem? w.writers i ≡ some pc
        → w.registered ≡ true
        → Kept (record (writer_step m pc w).0 { writers = set w.writers i (writer_step m pc w).1 })
    unfolding writer_step set_update_flag
    writer-Kept m i outside here on = ground (arith, total-set busy w.writers i outside filled here)
    writer-Kept m i filled here on = ground (
      arith,
      total-set busy w.writers i filled outside here,
      total-set busy w.writers i filled seen here,
    )
    writer-Kept m i seen here on = ground (arith, total-set busy w.writers i seen outside here)

  registers-Kept : (w : Channel A S) → Kept w → Kept (step w creator_registers)
  unfolding step
  registers-Kept w k = record { not_lost = k.not_lost; in_place = k.in_place }

  step-Kept : (w : Channel A S) (e : Event A) → w.registered ≡ true → Kept w → Kept (step w e)
  unfolding step
  step-Kept w processor_acts on k = processor-Kept w k w.processor refl
  step-Kept w creator_registers on k = registers-Kept w k
  step-Kept w (writer_acts i m) on k = elim (Option-cases (get_elem? w.writers i)) [
    | inl out ↦ rw (out, step) k
    | inr (pc, here) ↦ rw (here, step) (writer-Kept w k m i pc here on)
  ]

  routine-registered :
      (r : RoutinePc) (w : Channel A S) → (routine_step r w).registered ≡ w.registered
  unfolding routine_step
  routine-registered r w = ground arith

  acquired-registered :
      (got : Croutine × Bool) (w : Channel A S) → (acquired got w).registered ≡ w.registered
  unfolding acquired
  acquired-registered (cr', true) w = refl
  acquired-registered (cr', false) w = refl

  writer-registered :
      (m : A) (pc : WriterPc) (w : Channel A S) → (writer_step m pc w).0.registered ≡ w.registered
  unfolding writer_step
  writer-registered m outside w = refl
  writer-registered m filled w = refl
  writer-registered m seen w = refl

  processor-registered :
      (p : ProcessorPc) (w : Channel A S) → (processor_step p w).registered ≡ w.registered
  unfolding processor_step
  processor-registered away w = acquired-registered (acquire w.cr) w
  processor-registered holding w = refl
  processor-registered flagged w = ground arith
  processor-registered checked w = ground arith
  processor-registered resumed w = routine-registered w.routine w

  -- A callback that is registered stays so.
  step-registered :
      (w : Channel A S) (e : Event A) → w.registered ≡ true → (step w e).registered ≡ true
  unfolding step writer_step
  step-registered w processor_acts on = processor-registered w.processor w ∙ on
  step-registered w creator_registers on = refl
  step-registered w (writer_acts i m) on = elim (Option-cases (get_elem? w.writers i)) [
    | inl out ↦ rw (out, step) on
    | inr (pc, here) ↦ rw (here, step) (writer-registered m pc w ∙ on)
  ]

  run-Kept :
      (w : Channel A S) (es : List (Event A)) → w.registered ≡ true → Kept w → Kept (run w es)
  unfolding run
  run-Kept w [] on k = k
  run-Kept w (e ∷ es) on k = run-Kept (step w e) es (step-registered w e on) (step-Kept w e on k)

  -- `n` steps of the processor, before the callback is registered
  early-Kept : (n : ℕ) (w : Channel A S) → Kept w → Kept (run w (replicate n processor_acts))
  unfolding run step
  early-Kept zero w k = k
  early-Kept (suc n) w k =
      early-Kept n (processor_step w.processor w) (processor-Kept w k w.processor refl)

  run-append : (w : Channel A S) (xs ys : List (Event A)) → run w (xs ++ ys) ≡ run (run w xs) ys
  unfolding run
  run-append w [] ys = refl
  run-append w (x ∷ xs) ys = run-append (step w x) xs ys

  -- A new routine at its channel, before a processor takes it up and the callback is registered, with `n` threads that may write
  abbrev pub opened : CacheBuffer A S → (index : ℕ) → (now id : ℕ) → Text → (n : ℕ) → Channel A S
  opened b index now id name n = record {
    buffer = b;
    next_msg_index = index;
    cr = create now id name;
    routine = parked;
    processor = away;
    writers = replicate n outside;
    registered = false;
  }

  opened-Kept :
      (b : CacheBuffer A S) (index now id : ℕ) (name : Text) (n : ℕ)
      → Kept (opened b index now id name n)
  unfolding create
  opened-Kept b index now id name n = ground arith

  Kept-wakes :
      (w : Channel A S) (later : ℕ)
      → Kept w
      → writing w ≡ 0
      → w.processor ≡ away
      → (is_miss (try_fetch w.buffer w.next_msg_index).0 ≡ true)
        ⊎ ((update_state later w.cr).1 ≡ ready)
  unfolding update_state
  Kept-wakes w later k quiet free = ground arith

  -- The channel after `early` steps of the processor, the registration of the callback, and then any steps
  abbrev pub ran :
      CacheBuffer A S → (index now id : ℕ) → Text → (n early : ℕ) → List (Event A) → Channel A S
  ran b index now id name n early es =
      run (opened b index now id name n) (replicate early processor_acts ++ creator_registers ∷ es)

  ran-Kept :
      (b : CacheBuffer A S) (index now id : ℕ) (name : Text) (n early : ℕ) (es : List (Event A))
      → Kept (ran b index now id name n early es)
  unfolding run
  ran-Kept b index now id name n early es =
      let start = opened b index now id name n in
      let before = run start (replicate early processor_acts) in
      let on : (step before creator_registers).registered ≡ true = unfold step in refl in
      subst Kept (sym (run-append start (replicate early processor_acts) (creator_registers ∷ es)))
        (run-Kept (step before creator_registers) es on
          (registers-Kept before (early-Kept early start (opened-Kept b index now id name n))))

  -- Whatever the order of the steps of the processor and of any number of writers, if no writer takes a step
  -- before the callback that notifies is registered, and where the routine's own callback does not yield: at
  -- any later moment at which no writer is between `Fill` and the end of `NotifyProcessor`, and no processor
  -- holds the routine, either `TryFetch` would find nothing or `UpdateState` makes the routine
  -- ready, so that no wakeup is lost.
  pub run_wakes :
      (b : CacheBuffer A S) (index now id : ℕ) (name : Text) (n early : ℕ) (es : List (Event A))
      (later : ℕ)
      → writing (ran b index now id name n early es) ≡ 0
      → (ran b index now id name n early es).processor ≡ away
      → (let w = ran b index now id name n early es in
          (is_miss (try_fetch w.buffer w.next_msg_index).0 ≡ true)
          ⊎ ((update_state later w.cr).1 ≡ ready))
  run_wakes b index now id name n early es later quiet free =
      Kept-wakes _ later (ran-Kept b index now id name n early es) quiet free
