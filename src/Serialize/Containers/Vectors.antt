-- ===== src/Serialize/Containers/Vectors.antt =====
-- `std::vector`: what the byte copy of `write` and `read` keeps of the elements, and what not.
use cmw.Prelude.{
  ℕ, ◌+◌, ◌-◌, ◌*◌, ◌^◌, ◌≤◌, ◌<◌, ◌≡◌, ◌↔◌, sym, ap, ◌∙◌, true, false, List, [], ◌++◌, some, arith,
  length, Option, none, Bool, length-take, length-append, leb, take, drop, take-append-drop,
  drop-append, replicate,
}
use cmw.Serialize.Bytes.{ByteOrder}
use cmw.Serialize.Stream.{DataType, DataStream, write_raw, advance, bytes_at, read_raw}
use cmw.Serialize.Stream.Scalars.{Ahead, length-Ahead, bytes_at-Ahead}
use cmw.Serialize.Containers.{RawVector, write_vector, read_vector}
use cmw.Serialize.Containers.RoundTrip.{
  counted_wire, length-counted_wire, write-counted, counted-items, read-counted,
}

unfoldable pub vector_wire : RawVector → List ℕ
vector_wire v = counted_wire DataType.vector v.count (take v.count v.memory)

-- The elements after a round trip: the first `count` bytes of their memory, and zeroes.
unfoldable pub copied : ℕ → RawVector → RawVector
copied width v = record v {
  memory = take v.count v.memory ++ replicate (v.count * width - v.count) 0;
}

module _ (machine : ByteOrder) (v : RawVector) (s : DataStream)
    (same : s.m_byteorder ≡ machine) where
  pub write_vector_lem : write_vector machine v s ≡ write_raw s (vector_wire v)
  unfolding write_vector vector_wire
  write_vector_lem = write-counted machine s same DataType.vector v.count (take v.count v.memory)

  -- Reading a vector that is next in a stream of 2^30 bytes at most ends with the first bytes of
  -- its elements, as many as there are elements, and zeroes for all others.
  pub read_vector_lem :
      (junk width : ℕ) (r : List ℕ)
      → v.count ≤ length v.memory
      → Ahead s (vector_wire v ++ r)
      → read_vector machine junk width s
        ≡ some (true, copied width v, advance s (length (vector_wire v)))
  unfolding read_vector vector_wire copied read_raw
  read_vector_lem junk width r full a =
      let body = take v.count v.memory in
      let size : length body ≡ v.count = omega (arith, length-take v.count v.memory) in
      let lt : v.count < 2 ^ 31 = omega (
        arith,
        length-Ahead a,
        length-append (counted_wire DataType.vector v.count body) r,
        length-counted_wire DataType.vector v.count body,
        size,
        a.small,
      ) in
      let fits : leb (2 ^ 31) v.count ≡ false = ground arith in
      let items = counted-items machine s same DataType.vector v.count body r a in
      let got : bytes_at (advance s 6) v.count ≡ some body =
        ap (bytes_at (advance s 6)) (sym size) ∙ bytes_at-Ahead body r items in
      let moved : s.m_pos + 6 + v.count
          ≡ s.m_pos + length (counted_wire DataType.vector v.count body) =
        omega (arith, length-counted_wire DataType.vector v.count body) in
      read-counted machine s same DataType.vector junk v.count (record { count = 0; memory = [] })
        body r _ lt a
      ∙ rw (fits, got) (ap (λ p. some (true, copied width v, record s { m_pos = p })) moved)

-- The elements are the ones that were written exactly when all their bytes beyond the first `count`
-- are zero: so always for elements of one byte, and not in general for wider ones.
pub copied-eq_iff :
    (width : ℕ) (v : RawVector)
    → length v.memory ≡ v.count * width
    → 0 < width
    → (copied width v ≡ v) ↔ (drop v.count v.memory ≡ replicate (v.count * width - v.count) 0)
unfolding copied
copied-eq_iff width v size pos = (kept, back)
  where
    here : length (take v.count v.memory) ≡ v.count
    here =
        let le : v.count ≤ v.count * width = grind arith in
        omega (arith, length-take v.count v.memory)

    rest : List ℕ
    rest = replicate (v.count * width - v.count) 0

    behind : drop v.count (take v.count v.memory ++ rest) ≡ rest
    behind =
        ap (λ n. drop n (take v.count v.memory ++ rest)) (sym here)
        ∙ drop-append (take v.count v.memory) rest

    kept : copied width v ≡ v → drop v.count v.memory ≡ rest
    kept e = ap (λ (w : RawVector). drop v.count w.memory) (sym e) ∙ behind

    back : drop v.count v.memory ≡ rest → copied width v ≡ v
    back e =
        ap (λ l. record v { memory = l })
          (ap (λ l. take v.count v.memory ++ l) (sym e) ∙ take-append-drop v.count v.memory)

abbrev value_read : RawVector → Option (Bool × RawVector × DataStream) → RawVector
value_read v none = v
value_read v (some (_, w, _)) = w

-- A vector of elements of `width` bytes that is next in a stream of 2^30 bytes at most, which is all that
-- `reserve` can make room for, is read back as it was
-- written exactly when all the bytes of its elements beyond the first `count` are zero: so always for
-- elements of one byte, and not in general for wider ones.
pub read_vector_iff :
    (machine : ByteOrder) (v : RawVector) (s : DataStream) (junk width : ℕ) (r : List ℕ)
    → s.m_byteorder ≡ machine
    → length v.memory ≡ v.count * width
    → 0 < width
    → Ahead s (vector_wire v ++ r)
    → (read_vector machine junk width s ≡ some (true, v, advance s (length (vector_wire v))))
      ↔ (drop v.count v.memory ≡ replicate (v.count * width - v.count) 0)
read_vector_iff machine v s junk width r same size pos a =
    let le : v.count ≤ v.count * width = grind arith in
    let got = read_vector_lem machine v s same junk width r (omega arith) a in
    let same_rest = copied-eq_iff width v size pos in
    (
      λ e. same_rest.0 (ap (value_read v) (sym got ∙ e)),
      λ e. got ∙ ap (λ w. some (true, w, advance s (length (vector_wire v)))) (same_rest.1 e),
    )
