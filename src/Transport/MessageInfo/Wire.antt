-- ===== src/Transport/MessageInfo/Wire.antt =====
-- The round trip of a message info, and what is refused.
use cmw.Prelude.{
  ℕ, ◌^◌, ◌<◌, ◌≡◌, ◌≢◌, sym, ap, ◌∙◌, true, false, List, [], ◌++◌, arith, ◌==◌, ==_ne, length,
  length-append, take, drop, take-append, drop-append, drop-add, append-nil,
}
use cmw.Serialize.Bytes.{ByteOrder, to_memory, from_memory, length-to_memory, from_memory-to_memory}
use cmw.Transport.MessageInfo.{
  Identity, MessageInfo, info_size, set_data, serialize_to, deserialize_from,
}

module _ (hash : List ℕ → ℕ) (machine : ByteOrder) where
  -- An identity of eight bytes whose hash is up to date.
  pub record IsIdentity (i : Identity) : Type 0 where
    pub size : length i.data_bytes ≡ 8
    pub hashed : i.hash_value ≡ hash i.data_bytes

  pub record IsInfo (m : MessageInfo) : Type 0 where
    pub sender : IsIdentity m.sender_id
    pub spare : IsIdentity m.spare_id
    pub seq : m.seq_num < 2 ^ 64

  take-eight : (xs ys : List ℕ) → length xs ≡ 8 → take 8 (xs ++ ys) ≡ xs
  take-eight xs ys e = ap (λ n. take n (xs ++ ys)) (sym e) ∙ take-append xs ys

  drop-eight : (xs ys : List ℕ) → length xs ≡ 8 → drop 8 (xs ++ ys) ≡ ys
  drop-eight xs ys e = ap (λ n. drop n (xs ++ ys)) (sym e) ∙ drop-append xs ys

  set_data_lem :
      (i : Identity) (ys : List ℕ) → IsIdentity i → set_data hash (i.data_bytes ++ ys) ≡ i
  unfolding set_data
  set_data_lem i ys v =
      ap (λ l. record { data_bytes = l; hash_value = hash l }) (take-eight i.data_bytes ys v.size)
      ∙ ap (λ h. record { data_bytes = i.data_bytes; hash_value = h }) (sym v.hashed)

  pub length-serialize_to :
      (m : MessageInfo) → IsInfo m → length (serialize_to machine m) ≡ info_size
  unfolding serialize_to
  length-serialize_to m v =
      let w = to_memory machine 8 m.seq_num in
      omega (
        arith,
        length-append m.sender_id.data_bytes (w ++ m.spare_id.data_bytes),
        length-append w m.spare_id.data_bytes,
        length-to_memory machine 8 m.seq_num,
        v.sender.size,
        v.spare.size,
      )

  sender_lem : (m : MessageInfo) → IsInfo m → set_data hash (serialize_to machine m) ≡ m.sender_id
  unfolding serialize_to
  sender_lem m v = set_data_lem m.sender_id _ v.sender

  seq_lem :
      (m : MessageInfo)
      → IsInfo m
      → from_memory machine (take 8 (drop 8 (serialize_to machine m))) ≡ m.seq_num
  unfolding serialize_to
  seq_lem m v =
      let w = to_memory machine 8 m.seq_num in
      ap (λ l. from_memory machine (take 8 l)) (drop-eight m.sender_id.data_bytes _ v.sender.size)
      ∙ ap (from_memory machine)
          (take-eight w m.spare_id.data_bytes (length-to_memory machine 8 m.seq_num))
      ∙ from_memory-to_memory machine 8 m.seq_num v.seq

  spare_lem :
      (m : MessageInfo) → IsInfo m → set_data hash (drop 16 (serialize_to machine m)) ≡ m.spare_id
  unfolding serialize_to
  spare_lem m v =
      let w = to_memory machine 8 m.seq_num in
      ap (set_data hash) (
        drop-add 8 8 (serialize_to machine m)
        ∙ ap (drop 8) (drop-eight m.sender_id.data_bytes _ v.sender.size)
        ∙ drop-eight w m.spare_id.data_bytes (length-to_memory machine 8 m.seq_num)
        ∙ sym (append-nil m.spare_id.data_bytes))
      ∙ set_data_lem m.spare_id [] v.spare

  -- A message info with identities of eight bytes and up-to-date hashes, and a sequence number of 64 bits:
  -- what it serializes, another one on a machine of the same byte order takes over, both identities with
  -- their hashes and the sequence number. The channel id does not travel.
  pub deserialize-serialize :
      (m old : MessageInfo)
      → IsInfo m
      → deserialize_from hash machine old (serialize_to machine m)
        ≡ (true, record m { channel_id = old.channel_id })
  unfolding deserialize_from
  deserialize-serialize m old v =
      let sized : (length (serialize_to machine m) == info_size) ≡ true =
        ground (arith, length-serialize_to m v) in
      rw sized (λ i. (
        true,
        record m {
          channel_id = old.channel_id;
          sender_id = sender_lem m v i;
          seq_num = seq_lem m v i;
          spare_id = spare_lem m v i;
        },
      ))

  -- Bytes of any other length are refused, and change nothing.
  pub deserialize_refused :
      (old : MessageInfo) (src : List ℕ)
      → length src ≢ info_size
      → deserialize_from hash machine old src ≡ (false, old)
  unfolding deserialize_from
  deserialize_refused old src ne = rw (==_ne ne)
