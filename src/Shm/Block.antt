-- ===== src/Shm/Block.antt =====
-- transport/shm/block.cpp: the lock of a block, a count of readers or -1 for a writer.
pub mod Exclusion
use cmw.Prelude.{
  ℕ, zero, suc, ◌+◌, Bool, true, false, not, ◌&&◌, List, Option, none, some, ◌==◌, if◌then◌else◌,
  get_elem?, set, ℤ, pos, negsuc, inc, dec, is_negative, int_eq,
}

abbrev pub rw_lock_free : ℤ
rw_lock_free = pos 0

abbrev pub write_exclusive : ℤ
write_exclusive = negsuc 0

abbrev pub max_try_lock_times : ℕ
max_try_lock_times = 5

pub record Block : Type 0 where
  pub lock_num : ℤ
  pub msg_size : ℕ
  pub msg_info_size : ℕ

abbrev pub fresh : Block
fresh = record { lock_num = rw_lock_free; msg_size = 0; msg_info_size = 0 }

-- `TryLockForWrite`. A weak compare-and-swap may fail for no reason: `spurious`.
unfoldable pub try_lock_for_write : Bool → ℤ → Bool × ℤ
try_lock_for_write spurious lock_num =
    if not spurious && int_eq lock_num rw_lock_free
    then (true, write_exclusive)
    else (false, lock_num)

-- Where a thread stands with a block: outside, before the load of `TryLockForRead` with so many
-- failed tries, before its compare-and-swap with the value that it loaded, or holding the lock.
pub data Pc : Type 0 where
  idle reading writing : Pc
  loading : ℕ → Pc
  trying : ℤ → ℕ → Pc

-- The load of `lock_num_`: a thread that sees a writer returns false.
unfoldable pub load_step : ℤ → ℕ → Pc
load_step lock_num tries = if is_negative lock_num then idle else trying lock_num tries

-- The compare-and-swap: the lock, one more try, or `false` at the last of the tries. At 2^31 - 1 readers
-- the `lock_num + 1` of the source overflows, which is undefined; here it wraps.
unfoldable pub cas_step : Bool → ℤ → ℤ → ℕ → Pc × ℤ
cas_step spurious lock_num seen tries =
    if not spurious && int_eq lock_num seen
    then (reading, inc lock_num)
    else if tries + 1 == max_try_lock_times
    then (idle, lock_num)
    else (loading (tries + 1), lock_num)

unfoldable pub release_read_lock : ℤ → ℤ
release_read_lock lock_num = dec lock_num

unfoldable pub release_write_lock : ℤ → ℤ
release_write_lock lock_num = inc lock_num

-- What a thread outside does next, and how its compare-and-swap fares.
pub record Choice : Type 0 where
  pub wants_write : Bool
  pub spurious : Bool

-- The first step of a call of `TryLockForWrite` or `TryLockForRead`
unfoldable pub enter : Choice → ℤ → Pc × ℤ
unfolding try_lock_for_write
enter c l =
    if c.wants_write
    then (let (won, l') = try_lock_for_write c.spurious l in (if won then writing else idle, l'))
    else (loading 0, l)

-- The next atomic step of a thread
unfoldable pub act : Choice → Pc → ℤ → Pc × ℤ
unfolding enter load_step cas_step release_read_lock release_write_lock
act c idle l = enter c l
act c (loading tries) l = (load_step l tries, l)
act c (trying seen tries) l = cas_step c.spurious l seen tries
act c reading l = (idle, release_read_lock l)
act c writing l = (idle, release_write_lock l)

-- A block's lock and the threads that use it
pub record Threads : Type 0 where
  pub lock : ℤ
  pub pcs : List Pc

-- One step of thread `i`; a thread that does not exist does nothing.
unfoldable pub step : Threads → ℕ × Choice → Threads
unfolding act
step t (i, c) = elim (get_elem? t.pcs i) [
  | none ↦ t
  | some p ↦ let (p', l) = act c p t.lock in record { lock = l; pcs = set t.pcs i p' }
]

-- An interleaving: the threads step in the order of the schedule.
unfoldable pub run : Threads → List (ℕ × Choice) → Threads
unfolding step
run t List.[] = t
run t (List.◌∷◌ e es) = run (step t e) es
