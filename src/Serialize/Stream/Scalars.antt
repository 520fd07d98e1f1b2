-- ===== src/Serialize/Stream/Scalars.antt =====
-- What each write puts on the wire, and that the read of the same type takes it off again, on a
-- machine of either byte order.
use cmw.Serialize.Stream.Growth.{reserved-append}
use cmw.Prelude.{
  ltb, ◌==◌, ℕ, suc, ◌+◌, ◌^◌, ◌≤◌, ◌<◌, ◌≡◌, ◌≢◌, ==_refl, ==_ne, leb, length-drop, ◌>>=◌, sym, ap,
  ◌∙◌, subst, Bool, true, false, List, [], ◌∷◌, ◌++◌, if◌then◌else◌, Option, some, arith, length,
  length-append, drop, drop-head, drop-append, take-append, drop-add, append_assoc,
}
use cmw.Serialize.Bytes.{
  ByteOrder, little, length-little, swap-to_memory, from_memory-swap, to_memory, from_memory,
  swap_if_big,
}
use cmw.Serialize.Stream.{
  DataType, code, DataStream, reserved, next_byte, write_raw, write_tag, advance, bytes_at, tagged,
  write_bool, write_char, read_bool, read_char, write_word, load_word, read_word, write_string,
  with_length, string_body, read_string,
}

-- The bytes that the stream has not read yet. It has no more of them than `reserve`
-- can make room for.
pub record Ahead (s : DataStream) (bytes : List ℕ) : Type 0 where
  pub within : s.m_pos ≤ length s.m_buf
  pub unread : drop s.m_pos s.m_buf ≡ bytes
  pub small : length s.m_buf ≤ 2 ^ 30

module _ {s : DataStream} where
  pub length-Ahead : {r : List ℕ} → Ahead s r → length s.m_buf ≡ s.m_pos + length r
  length-Ahead a = omega (arith, length-drop s.m_pos s.m_buf, ap length a.unread, a.within)

  pub byte-Ahead : {b : ℕ} {r : List ℕ} → Ahead s (b ∷ r) → next_byte s ≡ some b
  unfolding next_byte
  byte-Ahead {b} {r} a =
      let fits : ltb (s.m_pos + 1) (2 ^ 31) ≡ true = ground (arith, length-Ahead a, a.small) in
      rw fits (drop-head s.m_buf s.m_pos a.unread)

  pub bytes_at-Ahead : (ys r : List ℕ) → Ahead s (ys ++ r) → bytes_at s (length ys) ≡ some ys
  unfolding bytes_at
  bytes_at-Ahead ys r a =
      let fits : leb (s.m_pos + length ys) (length s.m_buf) ≡ true =
        ground (arith, length-Ahead a, length-append ys r) in
      let in_int : ltb (s.m_pos + length ys) (2 ^ 31) ≡ true =
        ground (arith, length-Ahead a, length-append ys r, a.small) in
      rw (fits, in_int, a.unread, take-append)

  pub advance-Ahead : (ys r : List ℕ) → Ahead s (ys ++ r) → Ahead (advance s (length ys)) r
  advance-Ahead ys r a = record {
    within = omega (arith, length-Ahead a, length-append ys r);
    unread =
        drop-add s.m_pos (length ys) s.m_buf ∙ ap (drop (length ys)) a.unread ∙ drop-append ys r;
    small = a.small;
  }

  -- A typed read whose tag is next goes on behind the tag.
  pub tagged-Ahead :
      {A : Type 0} (type : DataType) (old : A) (body : DataStream → Option (Bool × A × DataStream))
      {r : List ℕ}
      → Ahead s (code type ∷ r)
      → tagged type old s body ≡ body (advance s 1)
  unfolding tagged
  tagged-Ahead type old body a = rw (byte-Ahead a, ==_refl (code type))

  -- A typed read whose tag is not next returns `false` and takes nothing.
  pub tagged-refused :
      {A : Type 0} (type : DataType) (old : A) (body : DataStream → Option (Bool × A × DataStream))
      {b : ℕ} {r : List ℕ}
      → Ahead s (b ∷ r)
      → b ≢ code type
      → tagged type old s body ≡ some (false, old, s)
  unfolding tagged
  tagged-refused type old body a ne = rw (byte-Ahead a, ==_ne ne)

-- The wire format of a word, a Boolean, a byte and a string: the same for every machine.
unfoldable pub word_wire : DataType → ℕ → ℕ → List ℕ
word_wire type width n = code type ∷ little width n

unfoldable pub bool_wire : Bool → List ℕ
bool_wire b = code DataType.bool ∷ (if b then 1 else 0) ∷ []

unfoldable pub char_wire : ℕ → List ℕ
char_wire c = code DataType.char ∷ c ∷ []

unfoldable pub string_wire : List ℕ → List ℕ
unfolding word_wire
string_wire value = code DataType.string ∷ (word_wire DataType.int32 4 (length value) ++ value)

pub length-word_wire : (type : DataType) (width n : ℕ) → length (word_wire type width n) ≡ suc width
unfolding word_wire
length-word_wire type width n = ap suc (length-little width n)

pub write_raw-write_raw :
    (s : DataStream) (xs ys : List ℕ) → write_raw (write_raw s xs) ys ≡ write_raw s (xs ++ ys)
write_raw-write_raw s xs ys i = record s {
  m_buf = append_assoc s.m_buf xs ys i;
  m_cap =
      (ap (λ n. reserved (reserved s.m_cap (length s.m_buf) xs) n ys) (length-append s.m_buf xs)
          ∙ reserved-append s.m_cap (length s.m_buf) xs ys)
        i;
}

module _ (machine : ByteOrder) (s : DataStream) (same : s.m_byteorder ≡ machine) where
  pub write_word_lem :
      (type : DataType) (width n : ℕ)
      → write_word machine type width s n ≡ write_raw s (word_wire type width n)
  unfolding write_word word_wire
  write_word_lem type width n =
      let bytes : swap_if_big s.m_byteorder (to_memory machine width n) ≡ little width n =
        ap (λ o. swap_if_big o (to_memory machine width n)) same ∙ swap-to_memory machine width n in
      ap (write_raw (write_tag s type)) bytes
      ∙ write_raw-write_raw s (code type ∷ []) (little width n)

  pub byteorder-write_word :
      (type : DataType) (width n : ℕ) → (write_word machine type width s n).m_byteorder ≡ machine
  unfolding write_word
  byteorder-write_word type width n = same

  pub read_word_lem :
      (type : DataType) (width n old : ℕ) (r : List ℕ)
      → n < 256 ^ width
      → Ahead s (word_wire type width n ++ r)
      → read_word machine type width old s
        ≡ some (true, n, advance s (length (word_wire type width n)))
  unfolding read_word word_wire
  read_word_lem type width n old r lt a =
      let behind : Ahead (advance s 1) (little width n ++ r) = advance-Ahead (code type ∷ []) _ a in
      let got : bytes_at (advance s 1) width ≡ some (little width n) =
        ap (bytes_at (advance s 1)) (sym (length-little width n)) ∙ bytes_at-Ahead _ r behind in
      let word : from_memory machine (swap_if_big s.m_byteorder (little width n)) ≡ n =
        ap (λ o. from_memory machine (swap_if_big o (little width n))) same
        ∙ from_memory-swap machine width n lt in
      let moved : s.m_pos + 1 + width ≡ s.m_pos + suc (length (little width n)) =
        omega (arith, length-little width n) in
      tagged-Ahead type old (load_word machine width) a
      ∙ ap
          (λ o. o >>= λ bytes. some (
            true,
            from_memory machine (swap_if_big s.m_byteorder bytes),
            advance (advance s 1) width,
          ))
          got
      ∙ ap (λ m. some (true, m, advance (advance s 1) width)) word
      ∙ ap (λ p. some (true, n, record s { m_pos = p })) moved

  -- The length word is read, and what follows is read behind it.
  pub with_length_lem :
      {R : Type 0} (junk n : ℕ) (r : List ℕ) (body : ℕ → DataStream → Option R)
      → n < 2 ^ 31
      → Ahead s (word_wire DataType.int32 4 n ++ r)
      → with_length machine junk s body ≡ body n (advance s 5)
  unfolding with_length
  with_length_lem junk n r body lt a =
      rw (read_word_lem DataType.int32 4 n junk r (omega arith) a)
        (ap (λ k. body n (advance s k)) (length-word_wire DataType.int32 4 n))

module _ (s : DataStream) where
  pub write_bool_lem : (b : Bool) → write_bool s b ≡ write_raw s (bool_wire b)
  unfolding write_bool bool_wire
  write_bool_lem b = write_raw-write_raw s (code DataType.bool ∷ []) _

  two_on : advance (advance s 1) 1 ≡ advance s 2
  two_on = ap (λ p. record s { m_pos = p }) (omega arith)

  bool_back :
      (b : Bool)
      → ◌≡◌ {A = Option (Bool × Bool × DataStream)}
          (some
            (true, (if (if b then 1 else 0) == 0 then false else true), advance (advance s 1) 1))
          (some (true, b, advance s 2))
  bool_back true = ap (λ t. some (true, true, t)) two_on
  bool_back false = ap (λ t. some (true, false, t)) two_on

  pub read_bool_lem :
      (b old : Bool) (r : List ℕ)
      → Ahead s (bool_wire b ++ r)
      → read_bool old s ≡ some (true, b, advance s 2)
  unfolding read_bool bool_wire
  read_bool_lem b old r a =
      let value = byte-Ahead (advance-Ahead (code DataType.bool ∷ []) _ a) in
      tagged-Ahead DataType.bool old
        (λ t. next_byte t >>= λ b. some (true, (if b == 0 then false else true), advance t 1)) a
      ∙ ap (λ o. o >>= λ b. some (true, (if b == 0 then false else true), advance (advance s 1) 1))
          value
      ∙ bool_back b

  pub write_char_lem : (c : ℕ) → write_char s c ≡ write_raw s (char_wire c)
  unfolding write_char char_wire
  write_char_lem c = write_raw-write_raw s (code DataType.char ∷ []) _

  pub read_char_lem :
      (c old : ℕ) (r : List ℕ)
      → Ahead s (char_wire c ++ r)
      → read_char old s ≡ some (true, c, advance s 2)
  unfolding read_char char_wire
  read_char_lem c old r a =
      let value = byte-Ahead (advance-Ahead (code DataType.char ∷ []) _ a) in
      tagged-Ahead DataType.char old (λ t. next_byte t >>= λ b. some (true, b, advance t 1)) a
      ∙ ap (λ o. o >>= λ b. some (true, b, advance (advance s 1) 1)) value
      ∙ ap (λ t. some (true, c, t)) two_on

string_body_lem :
    (machine : ByteOrder) (s : DataStream) (value old r : List ℕ)
    → length value < 2 ^ 31
    → Ahead s (value ++ r)
    → string_body machine old (length value) s ≡ some (true, value, advance s (length value))
unfolding string_body
string_body_lem machine s value old r lt a =
    let fits : leb (2 ^ 31) (length value) ≡ false = ground arith in
    rw (fits, bytes_at-Ahead value r a)

module _ (machine : ByteOrder) (s : DataStream) (same : s.m_byteorder ≡ machine) where
  pub write_string_lem :
      (value : List ℕ) → write_string machine s value ≡ write_raw s (string_wire value)
  unfolding write_string string_wire
  write_string_lem value =
      ap (λ t. write_raw t value)
        (write_word_lem machine (write_tag s DataType.string) same DataType.int32 4 (length value))
      ∙ write_raw-write_raw (write_tag s DataType.string) _ value
      ∙ write_raw-write_raw s (code DataType.string ∷ []) _

  pub read_string_lem :
      (junk : ℕ) (value old r : List ℕ)
      → length value < 2 ^ 31
      → Ahead s (string_wire value ++ r)
      → read_string machine junk old s ≡ some (true, value, advance s (length (string_wire value)))
  unfolding read_string string_wire
  read_string_lem junk value old r lt a =
      let size = word_wire DataType.int32 4 (length value) in
      let behind : Ahead (advance s 1) (size ++ (value ++ r)) =
        subst (Ahead (advance s 1)) (append_assoc size value r)
          (advance-Ahead (code DataType.string ∷ []) _ a) in
      let text : Ahead (advance (advance s 1) 5) (value ++ r) =
        subst (λ n. Ahead (advance (advance s 1) n) (value ++ r))
          (length-word_wire DataType.int32 4 (length value))
          (advance-Ahead size (value ++ r) behind) in
      let moved : s.m_pos + 1 + 5 + length value ≡ s.m_pos + suc (length (size ++ value)) =
        omega (arith, length-append size value, length-word_wire DataType.int32 4 (length value)) in
      tagged-Ahead DataType.string old (λ t. with_length machine junk t (string_body machine old)) a
      ∙ with_length_lem machine (advance s 1) same junk (length value) (value ++ r)
          (string_body machine old) lt behind
      ∙ string_body_lem machine (advance (advance s 1) 5) value old r lt text
      ∙ ap (λ p. some (true, value, record s { m_pos = p })) moved
