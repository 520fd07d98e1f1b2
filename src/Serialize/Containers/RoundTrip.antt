-- ===== src/Serialize/Containers/RoundTrip.antt =====
-- What it is for a type to survive the stream, and the scalar types and strings, which do.
use cmw.Prelude.{
  ℕ, ◌+◌, ◌^◌, ◌<◌, ◌≡◌, ap, ◌∙◌, subst, Bool, true, List, [], ◌∷◌, ◌++◌, Option, some, arith,
  length, length-append, append_assoc,
}
use cmw.Serialize.Bytes.{ByteOrder}
use cmw.Serialize.Stream.{
  DataType, code, DataStream, write_raw, write_tag, advance, tagged, write_int32, with_length,
}
use cmw.Serialize.Stream.Scalars.{
  Ahead, advance-Ahead, tagged-Ahead, word_wire, length-word_wire, bool_wire, char_wire,
  string_wire, write_raw-write_raw, write_word_lem, read_word_lem, with_length_lem, write_bool_lem,
  read_bool_lem, write_char_lem, read_char_lem, write_string_lem, read_string_lem,
}
use cmw.Serialize.Containers.{Codec, bool_codec, char_codec, word_codec, string_codec}

-- The values that are `Fit` are written as `wire`, and a read in front of `wire` takes off exactly
-- that and yields the value. The wire does not depend on the machine.
pub record RoundTrips {A : Type 0} (machine : ByteOrder) (c : Codec A) (wire : A → List ℕ)
    (Fit : A → Type 0) : Type 0 where
  pub writes :
      (a : A) (s : DataStream) → s.m_byteorder ≡ machine → c.write a s ≡ write_raw s (wire a)
  pub reads :
      (a old : A) (s : DataStream) (r : List ℕ)
      → s.m_byteorder ≡ machine
      → Fit a
      → Ahead s (wire a ++ r)
      → c.read old s ≡ some (true, a, advance s (length (wire a)))

pub bool-RoundTrips :
    (machine : ByteOrder) (blank : Bool)
    → RoundTrips machine (bool_codec blank) bool_wire (λ _. Unit {0})
unfolding bool_wire
bool-RoundTrips machine blank = record {
  writes = λ b s _. write_bool_lem s b;
  reads = λ b old s r _ _ a. read_bool_lem s b old r a;
}

pub char-RoundTrips :
    (machine : ByteOrder) (blank : ℕ)
    → RoundTrips machine (char_codec blank) char_wire (λ _. Unit {0})
unfolding char_wire
char-RoundTrips machine blank = record {
  writes = λ c s _. write_char_lem s c;
  reads = λ c old s r _ _ a. read_char_lem s c old r a;
}

module _ (machine : ByteOrder) (junk : ℕ) where
  pub word-RoundTrips :
      (type : DataType) (width : ℕ)
      → RoundTrips machine
          (word_codec machine junk type width)
          (word_wire type width)
          (λ n. n < 256 ^ width)
  word-RoundTrips type width = record {
    writes = λ n s same. write_word_lem machine s same type width n;
    reads = λ n old s r same fit a. read_word_lem machine s same type width n old r fit a;
  }

  pub string-RoundTrips :
      RoundTrips machine (string_codec machine junk) string_wire (λ v. length v < 2 ^ 31)
  string-RoundTrips = record {
    writes = λ v s same. write_string_lem machine s same v;
    reads = λ v old s r same fit a. read_string_lem machine s same junk v old r fit a;
  }

-- The wire of a container: a tag, the number of its items, and the items.
unfoldable pub counted_wire : DataType → ℕ → List ℕ → List ℕ
counted_wire type n body = code type ∷ (word_wire DataType.int32 4 n ++ body)

pub length-counted_wire :
    (type : DataType) (n : ℕ) (body : List ℕ) → length (counted_wire type n body) ≡ 6 + length body
unfolding counted_wire
length-counted_wire type n body =
    omega (
      arith,
      length-append (word_wire DataType.int32 4 n) body,
      length-word_wire DataType.int32 4 n,
    )

module _ (machine : ByteOrder) (s : DataStream) (same : s.m_byteorder ≡ machine) where
  pub write-counted :
      (type : DataType) (n : ℕ) (body : List ℕ)
      → write_raw (write_int32 machine (write_tag s type) n) body
        ≡ write_raw s (counted_wire type n body)
  unfolding counted_wire
  write-counted type n body =
      ap (λ t. write_raw t body) (write_word_lem machine (write_tag s type) same DataType.int32 4 n)
      ∙ write_raw-write_raw (write_tag s type) _ body
      ∙ write_raw-write_raw s (code type ∷ []) _

  counted-behind :
      (type : DataType) (n : ℕ) (body r : List ℕ)
      → Ahead s (counted_wire type n body ++ r)
      → Ahead (advance s 1) (word_wire DataType.int32 4 n ++ (body ++ r))
  unfolding counted_wire
  counted-behind type n body r a =
      subst (Ahead (advance s 1)) (append_assoc (word_wire DataType.int32 4 n) body r)
        (advance-Ahead (code type ∷ []) _ a)

  counted-tag :
      (type : DataType) (n : ℕ) (body r : List ℕ)
      → Ahead s (counted_wire type n body ++ r)
      → Ahead s (code type ∷ (word_wire DataType.int32 4 n ++ body ++ r))
  unfolding counted_wire
  counted-tag type n body r a = a

  -- The items of a container stand six bytes on.
  pub counted-items :
      (type : DataType) (n : ℕ) (body r : List ℕ)
      → Ahead s (counted_wire type n body ++ r)
      → Ahead (advance s 6) (body ++ r)
  counted-items type n body r a =
      let moved : s.m_pos + 1 + length (word_wire DataType.int32 4 n) ≡ s.m_pos + 6 =
        omega (arith, length-word_wire DataType.int32 4 n) in
      subst (λ p. Ahead (record s { m_pos = p }) (body ++ r)) moved
        (advance-Ahead (word_wire DataType.int32 4 n) (body ++ r) (counted-behind type n body r a))

  pub read-counted :
      {A : Type 0} (type : DataType) (junk n : ℕ) (old : A) (body r : List ℕ)
      (rest : ℕ → DataStream → Option (Bool × A × DataStream))
      → n < 2 ^ 31
      → Ahead s (counted_wire type n body ++ r)
      → tagged type old s (λ t. with_length machine junk t rest) ≡ rest n (advance s 6)
  read-counted type junk n old body r rest lt a =
      let moved : s.m_pos + 1 + 5 ≡ s.m_pos + 6 = omega arith in
      tagged-Ahead type old (λ t. with_length machine junk t rest) (counted-tag type n body r a)
      ∙ with_length_lem machine (advance s 1) same junk n (body ++ r) rest lt
          (counted-behind type n body r a)
      ∙ ap (λ p. rest n (record s { m_pos = p })) moved
