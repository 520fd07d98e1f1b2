-- ===== src/Discovery/Change/Wire.antt =====
-- config/topology_change.h and RoleAttributes.h on the wire: the members that `SERIALIZE` names, in order.
use cmw.Prelude.{ℕ, List, Option, none, some, ◌>>=◌, ◌==◌, leb, length, if◌then◌else◌}
use cmw.Serialize.Bytes.{ByteOrder}
use cmw.Serialize.Stream.{DataType, of_bytes}
use cmw.Serialize.Containers.{
  Codec, word_codec, enum_codec, string_codec, args_pair, args_end, serializable,
}
use cmw.Prelude.Assoc.{Text}
use cmw.Discovery.Role.{RoleAttributes, QosProfile}
use cmw.Discovery.Change.{
  ChangeMsg, ChangeType, change_node, change_channel, change_service, change_participant,
  OperateType, opt_join, opt_leave, RoleType, role_node, role_writer, role_reader, role_server,
  role_client, role_participant, role_code,
}

-- The numbers of the enumerations, and back; another number is none of them.
abbrev pub change_code : ChangeType → ℕ
change_code change_node = 1
change_code change_channel = 2
change_code change_service = 3
change_code change_participant = 4

abbrev pub operate_code : OperateType → ℕ
operate_code opt_join = 1
operate_code opt_leave = 2

abbrev pub change_of_code : ℕ → Option ChangeType
change_of_code n =
    if n == 1
    then some change_node
    else if n == 2
    then some change_channel
    else if n == 3
    then some change_service
    else if n == 4
    then some change_participant
    else none

abbrev pub operate_of_code : ℕ → Option OperateType
operate_of_code n = if n == 1 then some opt_join else if n == 2 then some opt_leave else none

abbrev pub role_of_code : ℕ → Option RoleType
role_of_code n =
    if n == 1
    then some role_node
    else if n == 2
    then some role_writer
    else if n == 3
    then some role_reader
    else if n == 4
    then some role_server
    else if n == 5
    then some role_client
    else if n == 6
    then some role_participant
    else none

-- The members of `QosProfile`, of `RoleAttributes` and of `ChangeMsg`
abbrev pub QosArgs : Type 0
QosArgs = ℕ × (ℕ × (ℕ × (ℕ × (ℕ × (ℕ × Unit {0})))))

abbrev pub AttrArgs : Type 0
AttrArgs = Text × (Text × (ℕ × (Text × (QosArgs × (ℕ × (Text × (ℕ × (Text × Unit {0}))))))))

abbrev pub MsgArgs : Type 0
MsgArgs = ℕ × (ℕ × (ℕ × (ℕ × (AttrArgs × Unit {0}))))

abbrev pub qos_args : QosProfile → QosArgs
qos_args q = (q.history, (q.depth, (q.mps, (q.msg_size, (q.reliability, (q.durability, tt))))))

abbrev pub attr_args : RoleAttributes → AttrArgs
attr_args a = (
  a.host_name,
  (
    a.host_ip,
    (
      a.process_id,
      (
        a.channel_name,
        (qos_args a.qos_profile, (a.id, (a.node_name, (a.node_id, (a.message_type, tt))))),
      ),
    ),
  ),
)

abbrev pub msg_args : ChangeMsg → MsgArgs
msg_args m = (
  m.timestamp,
  (
    change_code m.change_type,
    (operate_code m.operate_type, (role_code m.role_type, (attr_args m.role_attr, tt))),
  ),
)

-- The members put into an object
abbrev pub take_attr : RoleAttributes → AttrArgs → RoleAttributes
take_attr old
      (
        host_name,
        (
          host_ip,
          (
            process_id,
            (
              channel_name,
              ((h, (d, (m, (s, (r, (u, _)))))), (id, (node_name, (node_id, (message_type, _))))),
            ),
          ),
        ),
      ) =
    record old {
      host_name = host_name;
      host_ip = host_ip;
      process_id = process_id;
      channel_name = channel_name;
      qos_profile = record {
        history = h;
        depth = d;
        mps = m;
        msg_size = s;
        reliability = r;
        durability = u;
      };
      id = id;
      node_name = node_name;
      node_id = node_id;
      message_type = message_type;
    }

unfoldable pub take_msg : ChangeMsg → MsgArgs → Option ChangeMsg
take_msg old (timestamp, (change, (operate, (role, (attr, _))))) = change_of_code change >>= λ c.
    operate_of_code operate >>= λ o. role_of_code role >>= λ r. some (record {
      timestamp = timestamp;
      change_type = c;
      operate_type = o;
      role_type = r;
      role_attr = take_attr old.role_attr attr;
    })

module _ (junk : ℕ) (machine : ByteOrder) where
  abbrev text : Codec Text
  text = string_codec machine junk

  abbrev int32 : Codec ℕ
  int32 = word_codec machine junk DataType.int32 4

  abbrev uint32 : Codec ℕ
  uint32 = word_codec machine junk DataType.uint32 4

  abbrev uint64 : Codec ℕ
  uint64 = word_codec machine junk DataType.uint64 8

  abbrev enum : Codec ℕ
  enum = enum_codec machine junk

  unfoldable pub qos_codec : Codec QosArgs
  qos_codec = serializable (
      args_pair enum (
        args_pair uint32
          (args_pair uint32 (args_pair uint32 (args_pair enum (args_pair enum args_end))))))

  unfoldable pub attr_codec : Codec AttrArgs
  unfolding qos_codec
  attr_codec = serializable (
      args_pair text (
        args_pair text (
          args_pair int32 (
            args_pair text (
              args_pair qos_codec (
                args_pair uint64 (args_pair text (args_pair uint64 (args_pair text args_end)))))))))

  unfoldable pub msg_codec : Codec MsgArgs
  unfolding attr_codec
  msg_codec = serializable (
      args_pair uint64
        (args_pair enum (args_pair enum (args_pair enum (args_pair attr_codec args_end)))))

-- The copy of a message's bytes in `Manager::Write` into a payload that was made for 255; `none` is a copy
-- past its end.
unfoldable pub payload : List ℕ → Option (List ℕ)
payload bytes = if leb (length bytes) 255 then some bytes else none

-- A `ChangeMsg` read into an old one from the bytes of a message, on a machine of some byte order
unfoldable pub receive : ℕ → ByteOrder → ChangeMsg → List ℕ → Option ChangeMsg
unfolding msg_codec take_msg
receive junk machine old bytes =
    (msg_codec junk machine).read (msg_args old) (of_bytes machine bytes) >>= λ (_, args, _).
    take_msg old args
