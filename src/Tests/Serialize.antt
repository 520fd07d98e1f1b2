-- ===== src/Tests/Serialize.antt =====
-- Values that cross the wire, at concrete inputs.
use cmw.Prelude.{
  ◌≤◌, ◌^◌, ℕ, ◌+◌, ◌*◌, ◌-◌, ◌≡◌, ◌↔◌, refl, sym, ◌++◌, append-nil, true, List, [], ◌∷◌, some,
  arith, length, ltb, drop, replicate,
}
use cmw.Serialize.Bytes.{
  ByteOrder, big_endian, little_endian, byteorder_lem, to_memory, little, byteorder,
}
use cmw.Serialize.Stream.{
  DataType, write_word, write_string, empty, DataStream, advance, of_bytes, reserve_cap,
}
use cmw.Serialize.Stream.Scalars.{Ahead, word_wire}
use cmw.Serialize.Stream.Growth.{Enough, reserve_cap_lem}
use cmw.Serialize.Containers.{
  Codec, RawVector, word_codec, string_codec, map_codec, write_entries, args_pair, args_end,
  read_vector,
}
use cmw.Serialize.Containers.RoundTrip.{counted_wire, word-RoundTrips, string-RoundTrips}
use cmw.Serialize.Containers.Vectors.{vector_wire, copied, read_vector_lem, read_vector_iff}
use cmw.Serialize.Transfer.{sent, Arrives, map-Arrives}

abbrev int_codec : ByteOrder → Codec ℕ
int_codec machine = word_codec machine 99 DataType.int32 4

abbrev text_codec : ByteOrder → Codec (List ℕ)
text_codec machine = string_codec machine 99

-- A class with an int and a string
abbrev members : ByteOrder → Codec (ℕ × (List ℕ × Unit {0}))
members machine = args_pair (int_codec machine) (args_pair (text_codec machine) args_end)

map_small :
    length (
      sent
        (λ o. map_codec o 99 ltb (int_codec o) (text_codec o))
        big_endian
        ((3, 98 ∷ []) ∷ (5, []) ∷ []))
    ≤ 2 ^ 30
unfolding map_codec write_entries write_word write_string empty to_memory little byteorder
map_small = omega arith

map-Arrives_example :
    Arrives
      (λ o. map_codec o 99 ltb (int_codec o) (text_codec o))
      big_endian
      little_endian
      ((3, 98 ∷ []) ∷ (5, []) ∷ [])
      []
map-Arrives_example =
    map-Arrives 99 big_endian little_endian (λ o. word-RoundTrips o 99 DataType.int32 4)
      (λ o. string-RoundTrips o 99) ltb ((3, 98 ∷ []) ∷ (5, []) ∷ []) [] (omega arith)
      ((omega arith, omega arith), ((omega arith, omega arith), tt)) (((refl, refl), tt), (tt, tt))
      map_small

reserve_cap_lem_example : (c : ℕ) × (reserve_cap 5 8 6 ≡ some c) × Enough (5 + 6) 8 c
reserve_cap_lem_example = reserve_cap_lem 5 8 6 (omega arith)

-- Two elements of two bytes each, 1 and 2
abbrev pair_vector : RawVector
pair_vector = record { count = 2; memory = 1 ∷ 0 ∷ 2 ∷ 0 ∷ [] }

abbrev vector_stream : DataStream
vector_stream = of_bytes little_endian (vector_wire pair_vector)

vector_order : vector_stream.m_byteorder ≡ little_endian
unfolding of_bytes
vector_order = byteorder_lem little_endian

vector_small : length vector_stream.m_buf ≤ 2 ^ 30
unfolding of_bytes vector_wire counted_wire word_wire little
vector_small = omega arith

vector-Ahead : Ahead vector_stream (vector_wire pair_vector ++ [])
unfolding of_bytes
vector-Ahead = record {
  within = omega arith;
  unread = sym (append-nil (vector_wire pair_vector));
  small = vector_small;
}

read_vector_lem_example :
    read_vector little_endian 99 2 vector_stream
    ≡ some (true, copied 2 pair_vector, advance vector_stream (length (vector_wire pair_vector)))
read_vector_lem_example =
    read_vector_lem little_endian pair_vector vector_stream vector_order 99 2 [] (omega arith)
      vector-Ahead

copied_loses : copied 2 pair_vector ≡ record { count = 2; memory = 1 ∷ 0 ∷ 0 ∷ 0 ∷ [] }
unfolding copied
copied_loses = refl

read_vector_iff_example :
    (read_vector little_endian 99 2 vector_stream
      ≡ some (true, pair_vector, advance vector_stream (length (vector_wire pair_vector))))
    ↔ (drop pair_vector.count pair_vector.memory ≡ replicate (2 * 2 - 2) 0)
read_vector_iff_example =
    read_vector_iff little_endian pair_vector vector_stream 99 2 [] vector_order refl (omega arith)
      vector-Ahead
