-- ===== src/Shm/Conf.antt =====
-- transport/shm/shm_conf.cpp: the sizes of a segment, chosen by the size of a message.
pub mod Sizes
use cmw.Prelude.{ℕ, ◌+◌, ◌*◌, ◌%◌, ◌^◌, Bool, true, false, leb, ◌==◌, if◌then◌else◌, add64, mul64}

abbrev pub extra_size : ℕ
extra_size = 1024 * 4

abbrev pub state_size : ℕ
state_size = 1024

abbrev pub block_size : ℕ
block_size = 1024

abbrev pub message_info_size : ℕ
message_info_size = 1024

abbrev pub block_num_16k : ℕ
block_num_16k = 512

abbrev pub message_size_16k : ℕ
message_size_16k = 1024 * 16

abbrev pub block_num_128k : ℕ
block_num_128k = 128

abbrev pub message_size_128k : ℕ
message_size_128k = 1024 * 128

abbrev pub block_num_1m : ℕ
block_num_1m = 64

abbrev pub message_size_1m : ℕ
message_size_1m = 1024 * 1024

abbrev pub block_num_8m : ℕ
block_num_8m = 32

abbrev pub message_size_8m : ℕ
message_size_8m = 1024 * 1024 * 8

abbrev pub block_num_16m : ℕ
block_num_16m = 16

abbrev pub message_size_16m : ℕ
message_size_16m = 1024 * 1024 * 16

abbrev pub block_num_more : ℕ
block_num_more = 8

abbrev pub message_size_more : ℕ
message_size_more = 1024 * 1024 * 32

pub record ShmConf : Type 0 where
  pub ceiling_msg_size : ℕ
  pub block_buf_size : ℕ
  pub block_num : ℕ
  pub managed_shm_size : ℕ

unfoldable pub get_ceiling_message_size : ℕ → ℕ
get_ceiling_message_size real_msg_size =
    if leb real_msg_size message_size_16k
    then message_size_16k
    else if leb real_msg_size message_size_128k
    then message_size_128k
    else if leb real_msg_size message_size_1m
    then message_size_1m
    else if leb real_msg_size message_size_8m
    then message_size_8m
    else if leb real_msg_size message_size_16m
    then message_size_16m
    else message_size_more

unfoldable pub get_block_buf_size : ℕ → ℕ
get_block_buf_size ceiling = add64 ceiling message_info_size

-- An unknown size gives no block.
unfoldable pub get_block_num : ℕ → ℕ
get_block_num ceiling =
    if ceiling == message_size_16k
    then block_num_16k
    else if ceiling == message_size_128k
    then block_num_128k
    else if ceiling == message_size_1m
    then block_num_1m
    else if ceiling == message_size_8m
    then block_num_8m
    else if ceiling == message_size_16m
    then block_num_16m
    else if ceiling == message_size_more
    then block_num_more
    else 0

-- `Update`, which sets every field
unfoldable pub update : ℕ → ShmConf
unfolding get_ceiling_message_size get_block_buf_size get_block_num
update real_msg_size =
    let ceiling = get_ceiling_message_size real_msg_size in
    let buf = get_block_buf_size ceiling in
    let num = get_block_num ceiling in
    record {
      ceiling_msg_size = ceiling;
      block_buf_size = buf;
      block_num = num;
      managed_shm_size = add64 (add64 extra_size state_size) (mul64 (add64 block_size buf) num);
    }

-- The default constructor
unfoldable pub default_conf : ShmConf
unfolding update
default_conf = update message_size_16k
