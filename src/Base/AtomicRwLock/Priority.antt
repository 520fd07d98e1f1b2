-- ===== src/Base/AtomicRwLock/Priority.antt =====
-- A lock that lets writers go first admits no further reader while a writer waits.
use cmw.Prelude.{
  ℕ, ◌≤◌, ◌<◌, ◌≡◌, inl, inr, true, List, [], ◌∷◌, arith, get_elem?, Option-cases, total, total-set,
}
use cmw.Base.AtomicRwLock.{
  AtomicRwLock, Pc, idle, loading, reading, claiming, claimed, writing, checking, swapping, Choice,
  act, Threads, step, run, must_wait, read_swap, write_swap, announce, withdraw, read_unlock,
  write_unlock,
}

-- Threads past the test of the inner loop, and those that read.
abbrev passes : Pc → ℕ
passes (swapping n) = 1
passes reading = 1
passes idle = 0
passes loading = 0
passes claiming = 0
passes claimed = 0
passes writing = 0
passes (checking n) = 0

abbrev pub passers : List Pc → ℕ
passers = total passes

-- A writer waits before each step of the schedule.
unfoldable pub WaitsThroughout : Threads → List (ℕ × Choice) → Type 0
WaitsThroughout t [] = Unit
WaitsThroughout t (e ∷ es) = (0 < t.lock.write_lock_wait_num) × WaitsThroughout (step t e) es

module _ (c : Choice) (l : AtomicRwLock) (first : l.write_first ≡ true) where
  act-write_first : (p : Pc) → (act c p l).1.write_first ≡ true
  unfolding act must_wait read_swap write_swap announce withdraw read_unlock write_unlock
  act-write_first p = ground arith

  act-passes : (p : Pc) → 0 < l.write_lock_wait_num → passes (act c p l).0 ≤ passes p
  unfolding act must_wait read_swap write_swap announce withdraw read_unlock write_unlock
  act-passes p wait = ground arith

step-passers :
    (t : Threads) (e : ℕ × Choice)
    → t.lock.write_first ≡ true
    → 0 < t.lock.write_lock_wait_num
    → ((step t e).lock.write_first ≡ true) × (passers (step t e).pcs ≤ passers t.pcs)
unfolding step
step-passers t (i, c) first wait = elim (Option-cases (get_elem? t.pcs i)) [
  | inl out ↦ rw (out, step) (first, omega arith)
  | inr (p, here) ↦
      rw (here, step)
        (
          act-write_first c t.lock first p,
          omega (
            arith,
            total-set passes t.pcs i p (act c p t.lock).0 here,
            act-passes c t.lock first p wait,
          ),
        )
]

-- While some writer waits before every step, a lock that lets writers go first has at the end no more
-- threads that read or are past the test of `ReadLock` than at the start.
pub run-passers :
    (t : Threads) (es : List (ℕ × Choice))
    → t.lock.write_first ≡ true
    → WaitsThroughout t es
    → passers (run t es).pcs ≤ passers t.pcs
unfolding run WaitsThroughout
run-passers t [] first w = omega arith
run-passers t (e ∷ es) first w =
    let (first', le) = step-passers t e first w.0 in
    omega (arith, run-passers (step t e) es first' w.1, le)
