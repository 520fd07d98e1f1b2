-- ===== src/Base/BoundedQueue.antt =====
-- base/bounded_queue.h, each call on its own: the ring of a queue with a bound. A weak exchange that
-- fails for no reason only tries again, and is left out.
pub mod Fifo
pub mod Runs
use cmw.Prelude.{
  ℕ, ◌+◌, ◌-◌, ◌*◌, ◌/◌, Bool, true, false, List, Option, none, some, add64, sub64, ◌==◌,
  if◌then◌else◌, get_elem?, set, replicate,
}

pub record BoundedQueue (T : Type 0) : Type 0 where
  pub head : ℕ
  pub tail : ℕ
  pub commit : ℕ
  pub pool_size : ℕ
  pub pool : List T

-- What `Dequeue` does: false, or true with an element, or a read outside the pool.
pub data Taken (T : Type 0) : Type 0 where
  empty : Taken T
  taken : T → Taken T
  fault : Taken T

module _ {T : Type 0} where
  -- `Init`, with the memory that it needs; the cells start as `T()`, here `null`.
  unfoldable pub init : ℕ → T → BoundedQueue T
  init size null = record {
    head = 0;
    tail = 1;
    commit = 1;
    pool_size = add64 size 2;
    pool = replicate (add64 size 2) null;
  }

  unfoldable pub get_index : BoundedQueue T → ℕ → ℕ
  get_index b num = num - (num / b.pool_size) * b.pool_size

  -- `Enqueue`. `none` is the wait for a commit that does not come.
  unfoldable pub enqueue : BoundedQueue T → T → Option (Bool × BoundedQueue T)
  unfolding get_index
  enqueue b element =
      let new_tail = add64 b.tail 1 in
      if get_index b new_tail == get_index b b.head
      then some (false, b)
      else if b.commit == b.tail
      then some (
        true,
        record b {
          tail = new_tail;
          pool = set b.pool (get_index b b.tail) element;
          commit = new_tail;
        },
      )
      else none

  -- The element at a position of the pool
  abbrev pub taken_at : Option T → Taken T
  taken_at none = fault
  taken_at (some x) = taken x

  unfoldable pub dequeue : BoundedQueue T → Taken T × BoundedQueue T
  unfolding get_index
  dequeue b =
      let new_head = add64 b.head 1 in
      if new_head == b.commit
      then (empty, b)
      else (taken_at (get_elem? b.pool (get_index b new_head)), record b { head = new_head })

  unfoldable pub size : BoundedQueue T → ℕ
  size b = sub64 (sub64 b.tail b.head) 1

  unfoldable pub is_empty : BoundedQueue T → Bool
  unfolding size
  is_empty b = size b == 0
