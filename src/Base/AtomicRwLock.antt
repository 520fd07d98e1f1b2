-- ===== src/Base/AtomicRwLock.antt =====
-- base/atomic_rw_lock.h with base/rw_lock_guard.h: a lock that may let writers go first, as the atomic
-- steps of its threads. A guard's constructor and destructor are the calls. The counter of tries only
-- says when a thread yields and is left out.
pub mod Exclusion
pub mod Priority
use cmw.Prelude.{
  ℕ, suc, ◌+◌, ◌-◌, ◌%◌, ◌^◌, ◌<◌, Bool, true, false, not, ◌&&◌, ◌||◌, List, [], ◌∷◌, none, some,
  if◌then◌else◌, ltb, get_elem?, set, ℤ, pos, negsuc, inc, dec, is_negative, int_eq, add32,
}

abbrev pub rw_lock_free : ℤ
rw_lock_free = pos 0

abbrev pub write_exclusive : ℤ
write_exclusive = negsuc 0

pub record AtomicRwLock : Type 0 where
  pub write_lock_wait_num : ℕ
  pub lock_num : ℤ
  pub write_first : Bool

abbrev pub new : Bool → AtomicRwLock
new write_first = record { write_lock_wait_num = 0; lock_num = pos 0; write_first = write_first }

-- Where a thread stands: outside, before a load of `lock_num_` in `ReadLock`, before the test of the
-- value loaded, before the swap of it, reading, before the swap of `WriteLock`, behind it with the
-- count of waiting writers not yet lowered, or writing.
pub data Pc : Type 0 where
  idle loading reading claiming claimed writing : Pc
  checking : ℤ → Pc
  swapping : ℤ → Pc

-- The condition of the inner loop of `ReadLock`
unfoldable pub must_wait : AtomicRwLock → ℤ → Bool
must_wait l seen =
    if l.write_first then is_negative seen || ltb 0 l.write_lock_wait_num else is_negative seen

-- The swap of `ReadLock`: on failure `lock_num` becomes the value found. At 2^31 - 1 readers the `lock_num +
-- 1` of the source overflows, which is undefined; here it wraps.
unfoldable pub read_swap : Bool → AtomicRwLock → ℤ → Pc × AtomicRwLock
read_swap spurious l seen =
    if not spurious && int_eq l.lock_num seen
    then (reading, record l { lock_num = inc seen })
    else (checking l.lock_num, l)

-- The swap of `WriteLock`, which expects a free lock each time.
unfoldable pub write_swap : Bool → AtomicRwLock → Pc × AtomicRwLock
write_swap spurious l =
    if not spurious && int_eq l.lock_num rw_lock_free
    then (claimed, record l { lock_num = write_exclusive })
    else (claiming, l)

-- `fetch_add(1)` and `fetch_sub(1)` of the count of waiting writers
unfoldable pub announce : AtomicRwLock → AtomicRwLock
announce l = record l { write_lock_wait_num = add32 l.write_lock_wait_num 1 }

unfoldable pub withdraw : AtomicRwLock → AtomicRwLock
withdraw l = record l { write_lock_wait_num = add32 l.write_lock_wait_num (2 ^ 32 - 1) }

unfoldable pub read_unlock : AtomicRwLock → AtomicRwLock
read_unlock l = record l { lock_num = dec l.lock_num }

unfoldable pub write_unlock : AtomicRwLock → AtomicRwLock
write_unlock l = record l { lock_num = inc l.lock_num }

-- What a thread outside asks for, and whether its swap fails for no reason.
pub record Choice : Type 0 where
  pub wants_write : Bool
  pub spurious : Bool

unfoldable pub act : Choice → Pc → AtomicRwLock → Pc × AtomicRwLock
unfolding must_wait read_swap write_swap announce withdraw read_unlock write_unlock
act c idle l = if c.wants_write then (claiming, announce l) else (loading, l)
act c loading l = (checking l.lock_num, l)
act c (checking seen) l = if must_wait l seen then (loading, l) else (swapping seen, l)
act c (swapping seen) l = read_swap c.spurious l seen
act c reading l = (idle, read_unlock l)
act c claiming l = write_swap c.spurious l
act c claimed l = (writing, withdraw l)
act c writing l = (idle, write_unlock l)

pub record Threads : Type 0 where
  pub lock : AtomicRwLock
  pub pcs : List Pc

unfoldable pub step : Threads → ℕ × Choice → Threads
unfolding act
step t (i, c) = elim (get_elem? t.pcs i) [
  | none ↦ t
  | some p ↦ let (p', l) = act c p t.lock in record { lock = l; pcs = set t.pcs i p' }
]

unfoldable pub run : Threads → List (ℕ × Choice) → Threads
unfolding step
run t [] = t
run t (e ∷ es) = run (step t e) es
