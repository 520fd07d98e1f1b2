-- ===== src/Discovery/Change/Arrival.antt =====
-- What of a message arrives.
use cmw.Prelude.{leb, true, ◌≤◌, ℕ, ◌^◌, ◌<◌, ◌≡◌, refl, ap, ◌∙◌, List, some, ◌>>=◌, arith, length}
use cmw.Serialize.Bytes.{ByteOrder}
use cmw.Serialize.Stream.{DataType}
use cmw.Serialize.Containers.RoundTrip.{word-RoundTrips, string-RoundTrips}
use cmw.Serialize.Containers.Customs.{pair-RoundTrips, end-RoundTrips, serializable-RoundTrips}
use cmw.Serialize.Transfer.{sent, transfer}
use cmw.Discovery.Role.{RoleAttributes, QosProfile}
use cmw.Discovery.Change.{
  ChangeMsg, ChangeType, change_node, change_channel, change_service, change_participant,
  OperateType, opt_join, opt_leave, RoleType, role_node, role_writer, role_reader, role_server,
  role_client, role_participant, role_code,
}
use cmw.Discovery.Change.Wire.{
  change_code, operate_code, change_of_code, operate_of_code, role_of_code, msg_args, take_msg,
  qos_codec, attr_codec, msg_codec, receive, payload,
}

-- The numbers of a QoS profile and of a role's attributes fit their types, and the texts have fewer than
-- 2^31 bytes.
abbrev pub QosFits : QosProfile → Type 0
QosFits q =
    (q.history < 256 ^ 4)
    × (q.depth < 256 ^ 4)
    × (q.mps < 256 ^ 4)
    × (q.msg_size < 256 ^ 4)
    × (q.reliability < 256 ^ 4)
    × (q.durability < 256 ^ 4)

abbrev pub AttrFits : RoleAttributes → Type 0
AttrFits a =
    (length a.host_name < 2 ^ 31)
    × (length a.host_ip < 2 ^ 31)
    × (a.process_id < 256 ^ 4)
    × (length a.channel_name < 2 ^ 31)
    × (a.id < 256 ^ 8)
    × (length a.node_name < 2 ^ 31)
    × (a.node_id < 256 ^ 8)
    × (length a.message_type < 2 ^ 31)

change_small : (c : ChangeType) → change_code c < 256 ^ 4
change_small change_node = omega arith
change_small change_channel = omega arith
change_small change_service = omega arith
change_small change_participant = omega arith

operate_small : (o : OperateType) → operate_code o < 256 ^ 4
operate_small opt_join = omega arith
operate_small opt_leave = omega arith

role_small : (r : RoleType) → role_code r < 256 ^ 4
role_small role_node = omega arith
role_small role_writer = omega arith
role_small role_reader = omega arith
role_small role_server = omega arith
role_small role_client = omega arith
role_small role_participant = omega arith

change_back : (c : ChangeType) → change_of_code (change_code c) ≡ some c
change_back change_node = refl
change_back change_channel = refl
change_back change_service = refl
change_back change_participant = refl

operate_back : (o : OperateType) → operate_of_code (operate_code o) ≡ some o
operate_back opt_join = refl
operate_back opt_leave = refl

role_back : (r : RoleType) → role_of_code (role_code r) ≡ some r
role_back role_node = refl
role_back role_writer = refl
role_back role_reader = refl
role_back role_server = refl
role_back role_client = refl
role_back role_participant = refl

-- The message with the channel id of another
abbrev pub with_channel_id : ChangeMsg → ChangeMsg → ChangeMsg
with_channel_id old msg = record msg {
  role_attr = record (msg.role_attr) { channel_id = old.role_attr.channel_id };
}

take_msg-msg_args :
    (old msg : ChangeMsg) → take_msg old (msg_args msg) ≡ some (with_channel_id old msg)
unfolding take_msg
take_msg-msg_args old msg =
    rw (change_back msg.change_type, operate_back msg.operate_type, role_back msg.role_type) refl

-- The bytes of a message on a machine of some byte order
abbrev pub send : ℕ → ByteOrder → ChangeMsg → List ℕ
send junk machine msg = sent (msg_codec junk) machine (msg_args msg)

-- A `ChangeMsg` whose numbers fit their types and whose texts have fewer than 2^31 bytes, sent from a
-- machine of either byte order to one of either byte order, and whose bytes are 255 at most, which is the
-- size of the payload that `Write` copies them into: the receiver gets it with every member but
-- the channel id, which is the one that its own `ChangeMsg` had before.
pub receive-send :
    (junk : ℕ) (from to : ByteOrder) (old msg : ChangeMsg)
    → msg.timestamp < 256 ^ 8
    → AttrFits msg.role_attr
    → QosFits msg.role_attr.qos_profile
    → length (send junk from msg) ≤ 255
    → (payload (send junk from msg) >>= receive junk to old) ≡ some (with_channel_id old msg)
unfolding receive msg_codec attr_codec qos_codec payload
receive-send junk from to old msg time (hn, hi, pi, cn, id, nn, ni, mt) (h, d, m, sz, r, u) short =
    let trips = λ (m : ByteOrder).
      let enum = word-RoundTrips m junk DataType.int32 4 in
      let uint32 = word-RoundTrips m junk DataType.uint32 4 in
      let uint64 = word-RoundTrips m junk DataType.uint64 8 in
      let text = string-RoundTrips m junk in
      let qos = serializable-RoundTrips (
        pair-RoundTrips enum (
          pair-RoundTrips uint32 (
            pair-RoundTrips uint32 (
              pair-RoundTrips uint32
                (pair-RoundTrips enum (pair-RoundTrips enum (end-RoundTrips m))))))) in
      let attr = serializable-RoundTrips (
        pair-RoundTrips text (
          pair-RoundTrips text (
            pair-RoundTrips enum (
              pair-RoundTrips text (
                pair-RoundTrips qos (
                  pair-RoundTrips uint64 (
                    pair-RoundTrips text
                      (pair-RoundTrips uint64 (pair-RoundTrips text (end-RoundTrips m)))))))))) in
      serializable-RoundTrips (
        pair-RoundTrips uint64 (
          pair-RoundTrips enum (
            pair-RoundTrips enum
              (pair-RoundTrips enum (pair-RoundTrips attr (end-RoundTrips m)))))) in
    let arrived =
      transfer trips from to (msg_args msg) (msg_args old)
        (
          time,
          (
            change_small msg.change_type,
            (
              operate_small msg.operate_type,
              (
                role_small msg.role_type,
                (
                  (
                    hn,
                    (
                      hi,
                      (pi, (cn, ((h, (d, (m, (sz, (r, (u, tt)))))), (id, (nn, (ni, (mt, tt))))))),
                    ),
                  ),
                  tt,
                ),
              ),
            ),
          ),
        )
        (omega arith) in
    let fits : leb (length (send junk from msg)) 255 ≡ true = ground arith in
    rw fits
      (ap (λ o. o >>= λ (_, args, _). take_msg old args) arrived.2 ∙ take_msg-msg_args old msg)
