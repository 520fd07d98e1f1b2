-- ===== src/Shm/Conf/Sizes.antt =====
-- The sizes fit together, and hold the message that they are chosen for, up to 32 MiB.
use cmw.Prelude.{ℕ, ◌+◌, ◌*◌, ◌%◌, ◌^◌, ◌≤◌, ◌<◌, ◌≡◌, arith}
use cmw.Shm.Conf.{
  ShmConf, update, message_size_more, extra_size, state_size, block_size, message_info_size,
}

-- A configuration fits a message when a block holds it with its message info, there is a block, the
-- numbers of blocks and of sequence numbers match, and the segment holds all blocks, with no
-- overflow.
pub record Fits (m : ℕ) (c : ShmConf) : Type 0 where
  pub holds : m ≤ c.ceiling_msg_size
  pub buffer : c.block_buf_size ≡ c.ceiling_msg_size + message_info_size
  pub some_block : 0 < c.block_num
  pub whole_rounds : (2 ^ 32) % c.block_num ≡ 0
  pub segment :
      c.managed_shm_size ≡ extra_size + state_size + (block_size + c.block_buf_size) * c.block_num

-- The configuration for a message of up to 32 MiB fits it.
pub update-Fits : (m : ℕ) → m ≤ message_size_more → Fits m (update m)
unfolding update
update-Fits m le = ground arith

-- A message above 32 MiB gets blocks of 32 MiB, which do not hold it.
pub update-too_small :
    (m : ℕ) → message_size_more < m → (update m).ceiling_msg_size ≡ message_size_more
unfolding update
update-too_small m lt = ground arith
