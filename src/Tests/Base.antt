-- ===== src/Tests/Base.antt =====
-- A queue with a bound of two, and a map with four buckets, at concrete calls.
use cmw.Prelude.{ℕ, pos, Held, true, false, ◌≤◌, ◌≡◌, refl, List, [], ◌∷◌, some, none, arith}
use cmw.Base.BoundedQueue.{init}
use cmw.Base.BoundedQueue.Runs.{Call, enqueues, dequeues, sizes, answers, list_answers, fifo_lem}
use cmw.Base.AtomicHashMap.{AtomicHashMap, new, get, has}
use cmw.Base.AtomicHashMap.Buckets.{is_some}
use cmw.Base.AtomicHashMap.Updates.{put_all, latest_of, updates_lem}
use cmw.Base.AtomicRwLock
use cmw.Base.AtomicRwLock.{run, act, must_wait, write_swap, reading, claiming, loading}
use cmw.Base.AtomicRwLock.Exclusion.{unused, readers, writers, waiting, run_rw_lock}
use cmw.Base.AtomicRwLock.Priority.{WaitsThroughout, passers, run-passers}

abbrev calls : List (Call ℕ)
calls = enqueues 5 ∷ enqueues 6 ∷ enqueues 7 ∷ dequeues ∷ sizes ∷ enqueues 8 ∷ dequeues ∷ []

fifo_lem_example : answers calls (init 2 0) ≡ some (list_answers 2 calls [])
fifo_lem_example = fifo_lem 2 0 calls (omega arith) (omega arith)

abbrev updates : List (ℕ × ℕ)
updates = (9, 1) ∷ (5, 2) ∷ (2, 3) ∷ (9, 4) ∷ (1, 5) ∷ []

updates_lem_example :
    (m : AtomicHashMap ℕ) × (put_all updates (new 4) ≡ some m)
    × ((key : ℕ)
        → (get m key ≡ some (latest_of key updates none))
          × (has m key ≡ some (is_some (latest_of key updates none))))
updates_lem_example = updates_lem 4 updates (omega arith)

abbrev reads : AtomicRwLock.Choice
reads = record { wants_write = false; spurious = false }

abbrev writes : AtomicRwLock.Choice
writes = record { wants_write = true; spurious = false }

-- A reader holds the lock, then a writer waits, then another reader comes.
abbrev schedule : List (ℕ × AtomicRwLock.Choice)
schedule =
    (0, reads)
    ∷ (0, reads)
    ∷ (0, reads)
    ∷ (0, reads)
    ∷ (1, writes)
    ∷ (1, writes)
    ∷ (2, reads)
    ∷ (2, reads)
    ∷ []

run_rw_lock_example :
    (let t = run (unused true 3) schedule in
      Held t.lock.lock_num (readers t.pcs) (writers t.pcs)
      × (t.lock.write_lock_wait_num ≡ waiting t.pcs))
run_rw_lock_example = run_rw_lock true 3 schedule (omega arith)

-- The state in which the writer waits and another reader is about to load
abbrev crowded : AtomicRwLock.Threads
crowded = record {
  lock = record { write_lock_wait_num = 1; lock_num = pos 1; write_first = true };
  pcs = reading ∷ claiming ∷ loading ∷ [];
}

run-passers_example :
    passers (run crowded ((2, reads) ∷ (1, writes) ∷ (2, reads) ∷ [])).pcs ≤ passers crowded.pcs
unfolding WaitsThroughout AtomicRwLock.step act must_wait write_swap
run-passers_example =
    run-passers crowded ((2, reads) ∷ (1, writes) ∷ (2, reads) ∷ []) refl
      (omega arith, (omega arith, (omega arith, tt)))
