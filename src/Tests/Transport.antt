-- ===== src/Tests/Transport.antt =====
-- Message infos at concrete bytes.
use cmw.Prelude.{ℕ, ◌+◌, ◌≡◌, refl, true, List, [], ◌∷◌, arith}
use cmw.Serialize.Bytes.{big_endian}
use cmw.Transport.MessageInfo.{Identity, MessageInfo, serialize_to, deserialize_from}
use cmw.Transport.MessageInfo.Wire.{IsInfo, deserialize-serialize}

-- Some hash: the sum of the bytes
abbrev hash : List ℕ → ℕ
hash [] = 0
hash (b ∷ bs) = b + hash bs

abbrev sender : Identity
sender = record { data_bytes = 1 ∷ 2 ∷ 3 ∷ 4 ∷ 5 ∷ 6 ∷ 7 ∷ 8 ∷ []; hash_value = 36 }

abbrev spare : Identity
spare = record { data_bytes = 9 ∷ 0 ∷ 0 ∷ 0 ∷ 0 ∷ 0 ∷ 0 ∷ 1 ∷ []; hash_value = 10 }

abbrev info : MessageInfo
info = record { sender_id = sender; channel_id = 5; seq_num = 258; spare_id = spare }

abbrev old_info : MessageInfo
old_info = record { sender_id = spare; channel_id = 77; seq_num = 0; spare_id = spare }

info-IsInfo : IsInfo hash big_endian info
info-IsInfo = record {
  sender = record { size = refl; hashed = refl };
  spare = record { size = refl; hashed = refl };
  seq = omega arith;
}

deserialize-serialize_example :
    deserialize_from hash big_endian old_info (serialize_to big_endian info)
    ≡ (true, record info { channel_id = 77 })
deserialize-serialize_example = deserialize-serialize hash big_endian info old_info info-IsInfo
