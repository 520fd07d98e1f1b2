-- ===== src/Shm/ReadableInfo.antt =====
-- transport/shm/readable_info.cpp: the notice of a block that can be read, with its bytes. A number is
-- copied as the machine holds it.
use cmw.Prelude.{
  ℕ, ◌+◌, ◌*◌, ◌^◌, ◌<◌, ◌≡◌, sym, ap, ◌∙◌, Bool, true, false, List, ◌++◌, arith, ltb,
  if◌then◌else◌, length, length-append, take, drop, take-append, drop-append, drop-add,
  append_assoc,
}
use cmw.Serialize.Bytes.{ByteOrder, to_memory, from_memory, length-to_memory, from_memory-to_memory}

pub record ReadableInfo : Type 0 where
  pub host_id : ℕ
  pub block_index : ℕ
  pub channel_id : ℕ

-- `ReadableInfo()`
abbrev pub no_info : ReadableInfo
no_info = record { host_id = 0; block_index = 0; channel_id = 0 }

-- `ksize`
abbrev pub info_size : ℕ
info_size = 8 * 2 + 4

module _ (machine : ByteOrder) where
  unfoldable pub serialize_to : ReadableInfo → List ℕ
  serialize_to i =
      to_memory machine 8 i.host_id
      ++ (to_memory machine 4 i.block_index ++ to_memory machine 8 i.channel_id)

  unfoldable pub deserialize_from : ReadableInfo → List ℕ → Bool × ReadableInfo
  deserialize_from i src = if ltb (length src) info_size then (false, i) else (
    true,
    record {
      host_id = from_memory machine (take 8 src);
      block_index = from_memory machine (take 4 (drop 8 src));
      channel_id = from_memory machine (take 8 (drop 12 src));
    },
  )

  take-word : (w n : ℕ) (ys : List ℕ) → take w (to_memory machine w n ++ ys) ≡ to_memory machine w n
  take-word w n ys =
      ap (λ k. take k (to_memory machine w n ++ ys)) (sym (length-to_memory machine w n))
      ∙ take-append (to_memory machine w n) ys

  drop-word : (w n : ℕ) (ys : List ℕ) → drop w (to_memory machine w n ++ ys) ≡ ys
  drop-word w n ys =
      ap (λ k. drop k (to_memory machine w n ++ ys)) (sym (length-to_memory machine w n))
      ∙ drop-append (to_memory machine w n) ys

  module _ (i : ReadableInfo) (more : List ℕ) where
    abbrev host : List ℕ
    host = to_memory machine 8 i.host_id

    abbrev block : List ℕ
    block = to_memory machine 4 i.block_index

    abbrev channel : List ℕ
    channel = to_memory machine 8 i.channel_id

    long_enough : ltb (length (serialize_to i ++ more)) info_size ≡ false
    unfolding serialize_to
    long_enough = ground (
      arith,
      length-append (host ++ (block ++ channel)) more,
      length-append host (block ++ channel),
      length-append block channel,
      length-to_memory machine 8 i.host_id,
      length-to_memory machine 4 i.block_index,
      length-to_memory machine 8 i.channel_id,
    )

    grouped : serialize_to i ++ more ≡ host ++ (block ++ (channel ++ more))
    unfolding serialize_to
    grouped =
        append_assoc host (block ++ channel) more
        ∙ ap (λ l. host ++ l) (append_assoc block channel more)

    after_block : drop 12 (host ++ (block ++ (channel ++ more))) ≡ channel ++ more
    after_block =
        drop-add 8 4 (host ++ (block ++ (channel ++ more)))
        ∙ ap (drop 4) (drop-word 8 i.host_id (block ++ (channel ++ more)))
        ∙ drop-word 4 i.block_index (channel ++ more)

    -- A notice whose numbers fit their types arrives at a machine of the same byte order, whatever
    -- follows its bytes.
    pub readable_info_arrives :
        (old : ReadableInfo)
        → i.host_id < 2 ^ 64
        → i.block_index < 2 ^ 32
        → i.channel_id < 2 ^ 64
        → deserialize_from old (serialize_to i ++ more) ≡ (true, i)
    unfolding deserialize_from
    readable_info_arrives old fits_host fits_block fits_channel =
        rw (long_enough, grouped)
          (λ k. (
            true,
            record {
              host_id =
                  (ap (from_memory machine) (take-word 8 i.host_id (block ++ (channel ++ more)))
                      ∙ from_memory-to_memory machine 8 i.host_id fits_host)
                    k;
              block_index =
                  (ap (λ l. from_memory machine (take 4 l))
                        (drop-word 8 i.host_id (block ++ (channel ++ more)))
                      ∙ ap (from_memory machine) (take-word 4 i.block_index (channel ++ more))
                      ∙ from_memory-to_memory machine 4 i.block_index fits_block)
                    k;
              channel_id =
                  (ap (λ l. from_memory machine (take 8 l)) after_block
                      ∙ ap (from_memory machine) (take-word 8 i.channel_id more)
                      ∙ from_memory-to_memory machine 8 i.channel_id fits_channel)
                    k;
            },
          ))
