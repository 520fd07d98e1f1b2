-- ===== src/Discovery/Role.antt =====
-- config/RoleAttributes.h, config/qos_profile.h and discovery/role/role.cpp. An enumeration is its
-- number.
use cmw.Prelude.{ℕ, Bool, true, false, ◌==◌, ltb, if◌then◌else◌, not}
use cmw.Prelude.Assoc.{Text, text_beq}

pub record QosProfile : Type 0 where
  pub history : ℕ
  pub depth : ℕ
  pub mps : ℕ
  pub msg_size : ℕ
  pub reliability : ℕ
  pub durability : ℕ

pub record RoleAttributes : Type 0 where
  pub host_name : Text
  pub host_ip : Text
  pub process_id : ℕ
  pub channel_name : Text
  pub channel_id : ℕ
  pub qos_profile : QosProfile
  pub id : ℕ
  pub node_name : Text
  pub node_id : ℕ
  pub message_type : Text

-- `RoleBase`, the role of a node, and its subclass `RoleWriter`, which is also the reader's.
pub data Class : Type 0 where
  base writer : Class

pub record Role : Type 0 where
  pub class : Class
  pub attributes : RoleAttributes
  pub timestamp_ns : ℕ

-- `RoleBase::Match`
unfoldable pub base_match : RoleAttributes → RoleAttributes → Bool
base_match own target =
    if not (target.node_id == own.node_id)
    then false
    else if not (target.process_id == own.process_id)
    then false
    else if not (text_beq target.host_name own.host_name)
    then false
    else true

-- `RoleWriter::Match`
unfoldable pub writer_match : RoleAttributes → RoleAttributes → Bool
unfolding base_match
writer_match own target =
    if not (target.channel_id == own.channel_id)
    then false
    else if not (target.id == own.id)
    then false
    else base_match own target

-- The virtual `Match`
unfoldable pub matches : Role → RoleAttributes → Bool
unfolding writer_match base_match
matches r target = elim r.class [
  | base ↦ base_match r.attributes target
  | writer ↦ writer_match r.attributes target
]

unfoldable pub is_earlier_than : Role → Role → Bool
is_earlier_than a b = ltb a.timestamp_ns b.timestamp_ns
