-- ===== src/Scheduler/Processor.antt =====
-- scheduler/processor.cpp: a turn of the loop of `Run`, in the steps between which other threads may act.
-- The snapshot and the clock readings are left out.
use cmw.Prelude.{ℕ, Option, none, some, set, get_elem?, ◌>>=◌}
use cmw.Croutine.{Croutine, resume, release}
use cmw.Scheduler.ClassicContext.{Shared, ClassicContext, next_routine, waited}

-- `NextRoutine`, and `Wait` when it gives none
unfoldable pub turn : (now : ℕ) → ClassicContext → Shared → Shared × Option ℕ
unfolding next_routine waited
turn now c s =
    let (s', found) = next_routine now c s in
    elim found [ some p ↦ (s', some p) | none ↦ (waited c s', none) ]

-- `Resume` and `Release` of the routine that the turn gave; `function` is what it does meanwhile.
unfoldable pub run_routine : (Croutine → Croutine) → ℕ → Shared → Option Shared
unfolding resume release
run_routine function p s = do
  cr ← get_elem? s.routines p
  some (record s { routines = set s.routines p (release (resume function cr).0) })
