-- ===== src/Transport/MessageInfo.antt =====
-- transport/message/message_info.cpp and transport/common/identity.cpp. A number is copied as the
-- machine holds it. `hash` is `common::Hash`, the standard library's hash of a string.
pub mod Wire
use cmw.Prelude.{
  ℕ, ◌+◌, Bool, true, false, List, ◌++◌, Option, none, some, ◌==◌, ltb, if◌then◌else◌, length, take,
  replicate, drop,
}
use cmw.Serialize.Bytes.{ByteOrder, to_memory, from_memory}

abbrev pub id_size : ℕ
id_size = 8

pub record Identity : Type 0 where
  pub data_bytes : List ℕ
  pub hash_value : ℕ

pub record MessageInfo : Type 0 where
  pub sender_id : Identity
  pub channel_id : ℕ
  pub seq_num : ℕ
  pub spare_id : Identity

-- `MessageInfo::kSize`
abbrev pub info_size : ℕ
info_size = 24

module _ (machine : ByteOrder) where
  -- `SerializeTo(std::string*)`
  unfoldable pub serialize_to : MessageInfo → List ℕ
  serialize_to m =
      m.sender_id.data_bytes ++ (to_memory machine 8 m.seq_num ++ m.spare_id.data_bytes)

  -- `SerializeTo(char*, len)` into a buffer of `len` bytes
  unfoldable pub serialize_into : MessageInfo → List ℕ → Bool × List ℕ
  unfolding serialize_to
  serialize_into m dst =
      if ltb (length dst) info_size
      then (false, dst)
      else (true, serialize_to m ++ drop info_size dst)

module _ (hash : List ℕ → ℕ) where
  -- `Identity::set_data` and `Update`, from a pointer to at least eight bytes
  unfoldable pub set_data : List ℕ → Identity
  set_data src = record { data_bytes = take id_size src; hash_value = hash (take id_size src) }

  -- `Identity(bool)`, given the bytes of a new UUID
  unfoldable pub new_identity : Bool → List ℕ → Identity
  unfolding set_data
  new_identity need_generate uuid =
      if need_generate
      then set_data uuid
      else record { data_bytes = replicate id_size 0; hash_value = 0 }

  -- `DeserializeFrom`, into the fields of `m`
  unfoldable pub deserialize_from : ByteOrder → MessageInfo → List ℕ → Bool × MessageInfo
  deserialize_from machine m src =
      if length src == info_size
      then (
        true,
        record m {
          sender_id = set_data src;
          seq_num = from_memory machine (take 8 (drop id_size src));
          spare_id = set_data (drop (id_size + 8) src);
        },
      )
      else (false, m)
