-- ===== src/Tests/Shm.antt =====
-- Blocks and segments at concrete states.
use cmw.Prelude.{
  ◌++◌, ◌≢◌, ◌+◌, Held, ℕ, ◌*◌, ◌<◌, ◌≡◌, refl, ◌⊎◌, true, false, List, [], ◌∷◌, none, some, arith,
  replicate, get_elem?, ℤ, pos, negsuc,
}
use cmw.Shm.Block.{
  Block, idle, reading, loading, Choice, run, act, step, fresh, enter, try_lock_for_write,
  load_step, cas_step, release_read_lock, release_write_lock,
}
use cmw.Shm.Block.Exclusion.{unused, readers, writers, run_exclusion, attempt, attempt_ends}
use cmw.Shm.ReadableInfo.{ReadableInfo}
use cmw.Shm.ConditionNotifier.{ConditionNotifier, new_indicator, listen, heard, unfinished}
use cmw.Shm.ConditionNotifier.Laps.{newest_in_slot, notify_all, listen_lem, listen_ends}
use cmw.Shm.Conf.{ShmConf, update, get_ceiling_message_size, get_block_buf_size, get_block_num}
use cmw.Shm.Conf.Sizes.{Fits, update-Fits}
use cmw.Shm.State.{fetch_add_seq, set_need_remap}
use cmw.Shm.Segment.{
  Segment, Turn, took, looking, Backend, BlockRef, get_next_writable_block_index,
  acquire_block_to_write, release_read_block, recreate,
}
use cmw.Shm.Segment.Acquire.{Took, IsOpen, search_ends, quiet}
use cmw.Shm.Segment.Release.{read_release, oversized_write}

abbrev reader : Choice
reader = record { wants_write = false; spurious = false }

abbrev writer : Choice
writer = record { wants_write = true; spurious = false }

abbrev unlucky : Choice
unlucky = record { wants_write = false; spurious = true }

-- Two readers and a writer that comes too late
abbrev schedule : List (ℕ × Choice)
schedule =
    (0, reader)
    ∷ (1, reader)
    ∷ (0, reader)
    ∷ (1, reader)
    ∷ (0, reader)
    ∷ (2, writer)
    ∷ (1, reader)
    ∷ []

two_readers : (run (unused 3) schedule).lock ≡ pos 1
unfolding run step act enter try_lock_for_write load_step cas_step release_read_lock
    release_write_lock
two_readers = refl

run_exclusion_example :
    Held
      (run (unused 3) schedule).lock
      (readers (run (unused 3) schedule).pcs)
      (writers (run (unused 3) schedule).pcs)
run_exclusion_example = run_exclusion 3 schedule (omega arith)

-- Ten steps, at each of which the lock has one reader and every swap fails
abbrev attempts : List (ℤ × Choice)
attempts = replicate 10 (pos 1, unlucky)

attempt_ends_example :
    (attempt (loading 0) attempts ≡ idle) ⊎ (attempt (loading 0) attempts ≡ reading)
attempt_ends_example = attempt_ends attempts (omega arith)

update-Fits_example : Fits 70000 (update 70000)
update-Fits_example = update-Fits 70000 (omega arith)

abbrev conf : ShmConf
conf = record {
  ceiling_msg_size = 16384;
  block_buf_size = 17408;
  block_num = 2;
  managed_shm_size = 41984;
}

abbrev held_block : ℤ → Block
held_block l = record { lock_num = l; msg_size = 7; msg_info_size = 24 }

-- A segment of two blocks of which the first is written; the sequence number is about to wrap.
abbrev segment : Segment
segment = record {
  init = true;
  conf = conf;
  state = record {
    need_remap = false;
    seq = 4294967295;
    reference_count = 1;
    ceiling_msg_size = 16384;
  };
  blocks = held_block (negsuc 0) ∷ fresh ∷ [];
  block_buf_addrs = λ i. some (4096 * i);
}

abbrev all_held : Segment
all_held = record segment { blocks = held_block (negsuc 0) ∷ held_block (pos 2) ∷ [] }

segment-IsOpen : IsOpen segment
segment-IsOpen = record {
  init = refl;
  mapped = refl;
  blocks = refl;
  some_block = omega arith;
  whole_rounds = refl;
}

all_held-IsOpen : IsOpen all_held
all_held-IsOpen = record {
  init = refl;
  mapped = refl;
  blocks = refl;
  some_block = omega arith;
  whole_rounds = refl;
}

-- Another process counts on, and the compare-and-swap fails for no reason.
abbrev disturbance : Turn
disturbance = record {
  before = λ (state, blocks). (record state { seq = 7 }, blocks);
  between = λ m. m;
  spurious = true;
}

abbrev looked : Segment
looked = record segment { state = record (segment.state) { seq = 8 } }

still_looking : get_next_writable_block_index (disturbance ∷ []) segment ≡ looking looked
unfolding get_next_writable_block_index fetch_add_seq try_lock_for_write
still_looking = refl

search_ends_example :
    (i : ℕ) × (s' : Segment) × (get_next_writable_block_index
        ((disturbance ∷ []) ++ replicate 2 quiet)
        segment
      ≡ took i s')
    × Took looked i s'
search_ends_example =
    search_ends (disturbance ∷ []) segment looked 1 fresh segment-IsOpen
      ((λ m. refl, λ m. refl), tt) still_looking refl refl

-- System calls that make a segment of fresh blocks as the configuration says
abbrev backend : Backend
backend = record {
  reset = λ s. s;
  remove = λ s. (true, s);
  open_only = λ s. (true, record s { init = true });
  open_or_create = λ s. (
    true,
    record s {
      init = true;
      state = record (s.state) { need_remap = false };
      blocks = replicate (s.conf.block_num) fresh;
    },
  );
}

-- The segment after a writer took its second block
abbrev taken : Segment
taken = record segment {
  blocks = held_block (negsuc 0) ∷ record fresh { lock_num = negsuc 0 } ∷ [];
}

read_release_example :
    (release_read_block
      (record all_held { blocks = held_block (negsuc 0) ∷ held_block (pos 3) ∷ [] })
      (record { index = 1; buf = none })).blocks
    ≡ all_held.blocks
read_release_example =
    read_release {s = all_held} 1 2 (held_block (pos 2)) none all_held-IsOpen refl refl

abbrev remade : Segment
remade = (recreate backend segment 40000000).1

remade-IsOpen : IsOpen remade
unfolding recreate update get_ceiling_message_size get_block_buf_size get_block_num set_need_remap
remade-IsOpen = record {
  init = refl;
  mapped = refl;
  blocks = refl;
  some_block = omega arith;
  whole_rounds = refl;
}

remade_made : (recreate backend segment 40000000).0 ≡ true
unfolding recreate
remade_made = refl

remade_conf : remade.conf ≡ update 40000000
unfolding recreate
remade_conf = refl

remade_block : get_elem? remade.blocks 0 ≡ some fresh
unfolding recreate update get_ceiling_message_size get_block_buf_size get_block_num set_need_remap
remade_block = refl

oversized_write_example :
    (ref : BlockRef) × (s' : Segment) × (acquire_block_to_write backend
        (replicate remade.conf.block_num quiet)
        40000000
        segment
      ≡ some (some ref, s'))
    × (s'.conf.ceiling_msg_size < 40000000)
oversized_write_example =
    oversized_write backend segment 40000000 0 fresh segment-IsOpen (omega arith) (omega arith)
      remade_made remade_conf remade-IsOpen remade_block refl

abbrev notices : List ReadableInfo
notices =
    record { host_id = 1; block_index = 4; channel_id = 8 }
    ∷ record { host_id = 1; block_index = 5; channel_id = 8 }
    ∷ []

abbrev notifier : ConditionNotifier
notifier = record { next_seq = 0; is_shutdown = false }

listen_lem_example :
    (m : ReadableInfo) × (get_elem? notices (newest_in_slot 1 2) ≡ some m)
    × (listen 1 100 ((false, notify_all notifier notices new_indicator) ∷ [])
        ≡ heard m (newest_in_slot 1 2 + 1))
listen_lem_example = listen_lem notifier notices 1 100 [] refl (omega arith) (omega arith)

listen_ends_example :
    listen 0 60 ((false, new_indicator) ∷ (false, new_indicator) ∷ (false, new_indicator) ∷ [])
    ≢ unfinished
listen_ends_example =
    listen_ends 0 60 ((false, new_indicator) ∷ (false, new_indicator) ∷ (false, new_indicator) ∷ [])
      (omega arith)
