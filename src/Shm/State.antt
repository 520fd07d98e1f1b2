-- ===== src/Shm/State.antt =====
-- transport/shm/state.h: the counters that the processes on a segment share. Each function is one
-- atomic step of the source, with its compare-and-swap loop taken when it succeeds.
use cmw.Prelude.{ℕ, ◌-◌, Bool, add32, ◌==◌, if◌then◌else◌}

pub record State : Type 0 where
  pub need_remap : Bool
  pub seq : ℕ
  pub reference_count : ℕ
  pub ceiling_msg_size : ℕ

unfoldable pub decrease_reference_counts : State → State
decrease_reference_counts s =
    if s.reference_count == 0 then s else record s { reference_count = s.reference_count - 1 }

unfoldable pub increase_reference_counts : State → State
increase_reference_counts s = record s { reference_count = add32 s.reference_count 1 }

-- The old sequence number, and the new state
unfoldable pub fetch_add_seq : State → ℕ → ℕ × State
fetch_add_seq s diff = (s.seq, record s { seq = add32 s.seq diff })

unfoldable pub set_need_remap : State → Bool → State
set_need_remap s need = record s { need_remap = need }
