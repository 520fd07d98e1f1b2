-- ===== src/Shm/Segment.antt =====
-- transport/shm/segment.cpp: the operations of a segment over the four that posix_segment.cpp and
-- xsi_segment.cpp implement by system calls, which are an argument here. The search of a writer has the
-- steps of the other processes between its own; the other operations are those of one process between
-- the steps of the others (Shm/Block has the interleavings of the lock).
pub mod Acquire
pub mod Release
use cmw.Prelude.{
  ℕ, zero, suc, ◌+◌, ◌%◌, Bool, true, false, not, ◌&&◌, List, [], ◌∷◌, Option, none, some, ◌==◌,
  ltb, leb, if◌then◌else◌, get_elem?, set, ℤ, ◌>>=◌, is_negative, inc,
}
use cmw.Shm.Conf.{ShmConf, update}
use cmw.Shm.State.{State, decrease_reference_counts, fetch_add_seq, set_need_remap}
use cmw.Shm.Block.{Block, try_lock_for_write, release_read_lock, release_write_lock, rw_lock_free}

-- `init_`, `conf_`, and the shared memory as this process maps it. A buffer's address is a number,
-- and a missing one a null pointer.
pub record Segment : Type 0 where
  pub init : Bool
  pub conf : ShmConf
  pub state : State
  pub blocks : List Block
  pub block_buf_addrs : ℕ → Option ℕ

pub record Backend : Type 0 where
  pub reset : Segment → Segment
  pub remove : Segment → Bool × Segment
  pub open_only : Segment → Bool × Segment
  pub open_or_create : Segment → Bool × Segment

-- `WritableBlock` and `ReadableBlock`; the block itself is the segment's at the index.
pub record BlockRef : Type 0 where
  pub index : ℕ
  pub buf : Option ℕ

-- A turn of the search: what the other processes do to the shared memory before the count of the sequence
-- number and between it and the compare-and-swap, and whether that fails for no reason.
pub record Turn : Type 0 where
  pub before : State × List Block → State × List Block
  pub between : State × List Block → State × List Block
  pub spurious : Bool

abbrev pub disturbed : (State × List Block → State × List Block) → Segment → Segment
disturbed f s =
    let (state, blocks) = f (s.state, s.blocks) in record s { state = state; blocks = blocks }

-- Where a search stands: with the block that it took, still looking, or at a block out of range.
pub data Search : Type 0 where
  took : ℕ → Segment → Search
  looking : Segment → Search
  out_of_range : Search

-- `GetNextWritableBlockIndex`, for what happens at its turns
unfoldable pub get_next_writable_block_index : List Turn → Segment → Search
get_next_writable_block_index [] s = looking s
get_next_writable_block_index (t ∷ ts) s =
    let begun = disturbed t.before s in
    let (seq, state) = fetch_add_seq begun.state 1 in
    let try_idx : ℕ = seq % s.conf.block_num in
    let now = disturbed t.between (record begun { state = state }) in
    let rest = get_next_writable_block_index ts now in
    elim (get_elem? now.blocks try_idx) [
      | none ↦ out_of_range
      | some b ↦
          let (won, lock) = try_lock_for_write t.spurious b.lock_num in
          if won
          then took try_idx
              (record now { blocks = set now.blocks try_idx (record b { lock_num = lock }) })
          else rest
    ]

-- `TryLockForRead` with nobody between its load and its compare-and-swap
unfoldable pub try_lock_for_read : ℤ → Bool × ℤ
try_lock_for_read lock_num =
    if is_negative lock_num then (false, lock_num) else (true, inc lock_num)

-- The end of `AcquireBlockToRead`, for the block at the index
unfoldable pub take_for_read : Segment → ℕ → Option Block → Option BlockRef × Segment
unfolding try_lock_for_read
take_for_read s index none = (none, s)
take_for_read s index (some b) =
    let (won, lock) = try_lock_for_read b.lock_num in
    if won
    then (
      some (record { index = index; buf = s.block_buf_addrs index }),
      record s { blocks = set s.blocks index (record b { lock_num = lock }) },
    )
    else (none, s)

-- The lock of block `index` after `f`
abbrev pub with_lock : Segment → ℕ → (ℤ → ℤ) → Segment
with_lock s index f = elim (get_elem? s.blocks index) [
  | none ↦ s
  | some b ↦ record s { blocks = set s.blocks index (record b { lock_num = f b.lock_num }) }
]

unfoldable pub release_written_block : Segment → BlockRef → Segment
release_written_block s w =
    if leb s.conf.block_num w.index then s else with_lock s w.index release_write_lock

unfoldable pub release_read_block : Segment → BlockRef → Segment
release_read_block s r =
    if leb s.conf.block_num r.index then s else with_lock s r.index release_read_lock

module _ (backend : Backend) where
  unfoldable pub remap : Segment → Bool × Segment
  remap s = backend.open_only (backend.reset (record s { init = false }))

  unfoldable pub recreate : Segment → ℕ → Bool × Segment
  recreate s msg_size =
      let marked : Segment = record s { init = false; state = set_need_remap s.state true } in
      let removed : Segment = (backend.remove (backend.reset marked)).1 in
      backend.open_or_create (record removed { conf = update msg_size })

  -- `if(!init_ && !open())` and what follows; the result of a failed opening is `false`.
  unfoldable pub opened : (Segment → Bool × Segment) → Segment → Bool × Segment
  opened open_it s = if s.init then (true, s) else open_it s

  unfoldable pub remapped : Segment → Bool × Segment
  unfolding remap
  remapped s = if s.state.need_remap then remap s else (true, s)

  -- The second assignment of `result` in `AcquireBlockToWrite`
  unfoldable pub resized : ℕ → Bool × Segment → Bool × Segment
  unfolding recreate
  resized msg_size (result, s) =
      if ltb s.conf.ceiling_msg_size msg_size then recreate s msg_size else (result, s)

  -- What a writer gets of a search
  unfoldable pub written : Search → Option (Option BlockRef × Segment)
  written (took index v) = some (some (record { index = index; buf = v.block_buf_addrs index }), v)
  written (looking v) = none
  written out_of_range = none

  -- `none` inside is the source's `false`; `none` outside is a search that has not ended, or a block out
  -- of range.
  unfoldable pub acquire_block_to_write :
      List Turn → ℕ → Segment → Option (Option BlockRef × Segment)
  unfolding written
  acquire_block_to_write turns msg_size s =
      let (is_open, t) = opened backend.open_or_create s in
      let (result, u) = resized msg_size (remapped t) in
      if not is_open
      then some (none, t)
      else if not result
      then some (none, u)
      else written (get_next_writable_block_index turns u)

  unfoldable pub acquire_block_to_read : ℕ → Segment → Option BlockRef × Segment
  acquire_block_to_read index s =
      let (is_open, t) = opened backend.open_only s in
      let (result, u) = remapped t in
      if not is_open
      then (none, t)
      else if leb t.conf.block_num index
      then (none, t)
      else if not result
      then (none, u)
      else take_for_read u index (get_elem? u.blocks index)

  unfoldable pub destroy : Segment → Bool × Segment
  destroy s =
      if not s.init
      then (true, s)
      else (let left : Segment = record s {
        init = false;
        state = decrease_reference_counts s.state;
      } in
          if left.state.reference_count == 0 then backend.remove left else (true, left))
