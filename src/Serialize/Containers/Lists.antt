-- ===== src/Serialize/Containers/Lists.antt =====
-- `std::list`: the round trip of a container whose elements survive the stream.
use cmw.Prelude.{
  ℕ, ◌+◌, ◌^◌, ◌<◌, ◌≡◌, sym, ap, ◌∙◌, subst, true, List, [], ◌∷◌, ◌++◌, some, arith, length,
  length-append, append-nil, append_assoc, ◌>>=◌, All,
}
use cmw.Serialize.Bytes.{ByteOrder}
use cmw.Serialize.Stream.{DataType, DataStream, write_raw, write_tag, write_int32, advance}
use cmw.Serialize.Stream.Scalars.{Ahead, advance-Ahead, byteorder-write_word, write_raw-write_raw}
use cmw.Serialize.Containers.{Codec, rounds, write_items, read_items, list_codec}
use cmw.Serialize.Containers.RoundTrip.{
  RoundTrips, counted_wire, length-counted_wire, write-counted, counted-items, read-counted,
}

unfoldable pub items_wire : {A : Type 0} → (A → List ℕ) → List A → List ℕ
items_wire wire [] = []
items_wire wire (x ∷ xs) = wire x ++ items_wire wire xs

pub rounds_lem : (n : ℕ) → n < 2 ^ 31 → rounds n ≡ n
rounds_lem n lt = ground arith

module _ {A : Type 0} {machine : ByteOrder} {c : Codec A} {wire : A → List ℕ} {Fit : A → Type 0}
    (trip : RoundTrips machine c wire Fit) where
  pub write_items_lem :
      (xs : List A) (s : DataStream)
      → s.m_byteorder ≡ machine
      → write_items c xs s ≡ write_raw s (items_wire wire xs)
  unfolding write_items items_wire
  write_items_lem [] s same = ap (λ l. record s { m_buf = l }) (sym (append-nil s.m_buf))
  write_items_lem (x ∷ xs) s same =
      ap (write_items c xs) (trip.writes x s same)
      ∙ write_items_lem xs (write_raw s (wire x)) same
      ∙ write_raw-write_raw s (wire x) (items_wire wire xs)

  -- The first item is read, and the others stand behind it.
  pub read-item :
      (x : A) (rest r : List ℕ) (s : DataStream)
      → s.m_byteorder ≡ machine
      → Fit x
      → Ahead s ((wire x ++ rest) ++ r)
      → (c.read c.blank s ≡ some (true, x, advance s (length (wire x))))
        × Ahead (advance s (length (wire x))) (rest ++ r)
  read-item x rest r s same fit a =
      let next = subst (Ahead s) (append_assoc (wire x) rest r) a in
      (trip.reads x c.blank s (rest ++ r) same fit next, advance-Ahead (wire x) (rest ++ r) next)

  read_items_lem :
      (xs acc : List A) (r : List ℕ) (s : DataStream)
      → s.m_byteorder ≡ machine
      → All Fit xs
      → Ahead s (items_wire wire xs ++ r)
      → read_items c (length xs) acc s
        ≡ some (true, acc ++ xs, advance s (length (items_wire wire xs)))
  unfolding read_items items_wire
  read_items_lem [] acc r s same fit a =
      let stay : s.m_pos ≡ s.m_pos + 0 = omega arith in
      ap (λ l. some (true, l, s)) (sym (append-nil acc))
      ∙ ap (λ p. some (true, acc ++ [], record s { m_pos = p })) stay
  read_items_lem (x ∷ xs) acc r s same fit a =
      let step = read-item x (items_wire wire xs) r s same fit.0 a in
      let here = length (wire x) in
      let moved : s.m_pos + here + length (items_wire wire xs)
          ≡ s.m_pos + length (wire x ++ items_wire wire xs) =
        omega (arith, length-append (wire x) (items_wire wire xs)) in
      ap (λ o. o >>= λ (_, v, t). read_items c (length xs) (acc ++ v ∷ []) t) step.0
      ∙ read_items_lem xs (acc ++ x ∷ []) r (advance s here) same fit.1 step.1
      ∙ ap (λ l. some (true, l, advance (advance s here) (length (items_wire wire xs))))
          (append_assoc acc (x ∷ []) xs)
      ∙ ap (λ p. some (true, acc ++ x ∷ xs, record s { m_pos = p })) moved

  -- A list of fewer than 2^31 fit elements survives the stream, whatever the element type.
  pub list-RoundTrips :
      (junk : ℕ)
      → RoundTrips machine
          (list_codec machine junk c)
          (λ xs. counted_wire DataType.list (length xs) (items_wire wire xs))
          (λ xs. (length xs < 2 ^ 31) × All Fit xs)
  unfolding list_codec
  list-RoundTrips junk = record {
    writes = λ xs s same.
        write_items_lem xs (write_int32 machine (write_tag s DataType.list) (length xs)) (
          byteorder-write_word machine (write_tag s DataType.list) same DataType.int32 4
            (length xs))
        ∙ write-counted machine s same DataType.list (length xs) (items_wire wire xs);
    reads = λ xs old s r same fit a.
        let body = items_wire wire xs in
        let moved : s.m_pos + 6 + length body
            ≡ s.m_pos + length (counted_wire DataType.list (length xs) body) =
          omega (arith, length-counted_wire DataType.list (length xs) body) in
        read-counted machine s same DataType.list junk (length xs) [] body r
          (λ len u. read_items c (rounds len) [] u) fit.0 a
        ∙ ap (λ n. read_items c n [] (advance s 6)) (rounds_lem (length xs) fit.0)
        ∙ read_items_lem xs [] r (advance s 6) same fit.1
            (counted-items machine s same DataType.list (length xs) body r a)
        ∙ ap (λ p. some (true, xs, record s { m_pos = p })) moved;
  }
