-- ===== src/Serialize/Stream.antt =====
-- serialize/data_stream.cpp: the stream, and its scalars and strings. `machine` is the byte order of
-- the processor. A float or a double is its bit pattern, a signed integer its two's complement.
pub mod Scalars
pub mod Growth
use cmw.Prelude.{
  ℕ, zero, suc, ◌+◌, ◌*◌, ◌^◌, ◌&&◌, Bool, true, false, List, [], ◌∷◌, ◌++◌, Option, none, some,
  ◌==◌, ltb, leb, if◌then◌else◌, get_elem?, length, take, drop, ◌>>=◌,
}
use cmw.Serialize.Bytes.{ByteOrder, byteorder, to_memory, from_memory, swap_if_big}

pub data DataType : Type 0 where
  bool char int32 int64 uint32 uint64 float double enum string vector list map set custom : DataType

-- The byte of a tag
abbrev pub code : DataType → ℕ
code DataType.bool = 0
code DataType.char = 1
code DataType.int32 = 2
code DataType.int64 = 3
code DataType.uint32 = 4
code DataType.uint64 = 5
code DataType.float = 6
code DataType.double = 7
code DataType.enum = 8
code DataType.string = 9
code DataType.vector = 10
code DataType.list = 11
code DataType.map = 12
code DataType.set = 13
code DataType.custom = 14

-- `m_cap` is the capacity of `m_buf`; `none` after an `int` of `reserve` has overflowed, from where on the
-- behaviour is undefined.
pub record DataStream : Type 0 where
  pub m_buf : List ℕ
  pub m_pos : ℕ
  pub m_byteorder : ByteOrder
  pub m_cap : Option ℕ

-- The loop of `reserve`: the capacity that it asks for. `none` is the end of the fuel, or an `int`
-- that overflows.
pub grow : ℕ → ℕ → ℕ → Option ℕ
grow zero need cap = none
grow (suc f) need cap =
    let next = (if cap == 0 then 1 else cap * 2) in
    let rest = grow f need next in
    let grown = (if leb (2 ^ 31) next then none else rest) in
    if ltb cap need then grown else some cap

pub reserve_cap : ℕ → ℕ → ℕ → Option ℕ
unfolding grow
reserve_cap size cap len =
    let result = grow (suc (suc (size + len))) (size + len) cap in
    if leb (2 ^ 31) (size + len) then none else result

-- The capacity after `reserve` for some bytes. `reserve(0)` does nothing, as the capacity is never below the
-- size.
abbrev pub reserved : Option ℕ → (size : ℕ) → List ℕ → Option ℕ
reserved cap size [] = cap
reserved cap size (b ∷ bytes) = cap >>= λ c. reserve_cap size c (length (b ∷ bytes))

-- `write(const char*, int)`
abbrev pub write_raw : DataStream → List ℕ → DataStream
write_raw s bytes = record s {
  m_buf = s.m_buf ++ bytes;
  m_cap = reserved s.m_cap (length s.m_buf) bytes;
}

abbrev pub write_tag : DataStream → DataType → DataStream
write_tag s type = write_raw s (code type ∷ [])

abbrev pub advance : DataStream → ℕ → DataStream
advance s n = record s { m_pos = s.m_pos + n }

-- The next `len` bytes; `none` is a read past the end of the buffer, or a position that is no `int`.
unfoldable pub bytes_at : DataStream → ℕ → Option (List ℕ)
bytes_at s len =
    if leb (s.m_pos + len) (length s.m_buf) && ltb (s.m_pos + len) (2 ^ 31)
    then some (take len (drop s.m_pos s.m_buf))
    else none

-- The next byte
unfoldable pub next_byte : DataStream → Option ℕ
next_byte s = if ltb (s.m_pos + 1) (2 ^ 31) then get_elem? s.m_buf s.m_pos else none

-- `read(char*, int)`
unfoldable pub read_raw : DataStream → ℕ → Option (List ℕ × DataStream)
read_raw s len = bytes_at s len >>= λ bytes. some (bytes, advance s len)

-- The prologue of each typed read: leave by `false` if the next byte is another tag. What a read
-- returns is its result, its argument afterwards, and the stream; `none` is undefined behaviour.
unfoldable pub tagged :
    {A : Type 0}
    → DataType
    → A
    → DataStream
    → (DataStream → Option (Bool × A × DataStream))
    → Option (Bool × A × DataStream)
tagged type old s body =
    next_byte s >>= λ byte. if byte == code type then body (advance s 1) else some (false, old, s)

pub clear : DataStream → DataStream
clear s = record s { m_buf = [] }

pub reset : DataStream → DataStream
reset s = record s { m_pos = 0 }

-- `load`, given the bytes of the file
pub load : DataStream → List ℕ → DataStream
load s file = write_raw (record s { m_buf = [] }) file

unfoldable pub write_bool : DataStream → Bool → DataStream
write_bool s value = write_raw (write_tag s DataType.bool) ((if value then 1 else 0) ∷ [])

unfoldable pub write_char : DataStream → ℕ → DataStream
write_char s value = write_raw (write_tag s DataType.char) (value ∷ [])

unfoldable pub read_bool : Bool → DataStream → Option (Bool × Bool × DataStream)
unfolding tagged
read_bool old s =
    tagged DataType.bool old s
      (λ t. next_byte t >>= λ b. some (true, (if b == 0 then false else true), advance t 1))

unfoldable pub read_char : ℕ → DataStream → Option (Bool × ℕ × DataStream)
unfolding tagged
read_char old s = tagged DataType.char old s (λ t. next_byte t >>= λ b. some (true, b, advance t 1))

module _ (machine : ByteOrder) where
  unfoldable pub empty : DataStream
  empty = record { m_buf = []; m_pos = 0; m_byteorder = byteorder machine; m_cap = some 0 }

  -- The constructors from a string and from a pointer and a size
  unfoldable pub of_bytes : List ℕ → DataStream
  unfolding empty
  of_bytes bytes = write_raw empty bytes

  unfoldable pub write_word : DataType → ℕ → DataStream → ℕ → DataStream
  write_word type width s value =
      write_raw (write_tag s type) (swap_if_big s.m_byteorder (to_memory machine width value))

  unfoldable pub load_word : ℕ → DataStream → Option (Bool × ℕ × DataStream)
  unfolding bytes_at
  load_word width s = bytes_at s width >>= λ bytes.
      some (true, from_memory machine (swap_if_big s.m_byteorder bytes), advance s width)

  unfoldable pub read_word : DataType → ℕ → ℕ → DataStream → Option (Bool × ℕ × DataStream)
  unfolding tagged load_word
  read_word type width old s = tagged type old s (load_word width)

  abbrev pub write_int32 : DataStream → ℕ → DataStream
  write_int32 = write_word DataType.int32 4

  abbrev pub write_uint32 : DataStream → ℕ → DataStream
  write_uint32 = write_word DataType.uint32 4

  abbrev pub write_int64 : DataStream → ℕ → DataStream
  write_int64 = write_word DataType.int64 8

  abbrev pub write_uint64 : DataStream → ℕ → DataStream
  write_uint64 = write_word DataType.uint64 8

  abbrev pub write_float : DataStream → ℕ → DataStream
  write_float = write_word DataType.float 4

  abbrev pub write_double : DataStream → ℕ → DataStream
  write_double = write_word DataType.double 8

  abbrev pub read_int32 : ℕ → DataStream → Option (Bool × ℕ × DataStream)
  read_int32 = read_word DataType.int32 4

  abbrev pub read_uint32 : ℕ → DataStream → Option (Bool × ℕ × DataStream)
  read_uint32 = read_word DataType.uint32 4

  abbrev pub read_int64 : ℕ → DataStream → Option (Bool × ℕ × DataStream)
  read_int64 = read_word DataType.int64 8

  abbrev pub read_uint64 : ℕ → DataStream → Option (Bool × ℕ × DataStream)
  read_uint64 = read_word DataType.uint64 8

  abbrev pub read_float : ℕ → DataStream → Option (Bool × ℕ × DataStream)
  read_float = read_word DataType.float 4

  abbrev pub read_double : ℕ → DataStream → Option (Bool × ℕ × DataStream)
  read_double = read_word DataType.double 8

  -- `write(const string&)`, with the length as an `int`
  unfoldable pub write_string : DataStream → List ℕ → DataStream
  unfolding write_word
  write_string s value = write_raw (write_int32 (write_tag s DataType.string) (length value)) value

  -- The bytes of a C string in memory, which end before the first zero; `none` is a missing end.
  pub until_nul : List ℕ → Option (List ℕ)
  until_nul [] = none
  until_nul (b ∷ bs) =
      let rest = until_nul bs in if b == 0 then some [] else rest >>= λ r. some (b ∷ r)

  -- `write(const char*)`
  pub write_c_string : DataStream → List ℕ → Option DataStream
  unfolding until_nul write_string
  write_c_string s memory = until_nul memory >>= λ value. some (write_string s value)

  -- `int len; read(len);` and what follows. `junk` is what the uninitialised `len` holds.
  unfoldable pub with_length {ℓ} :
      {R : Type ℓ} → ℕ → DataStream → (ℕ → DataStream → Option R) → Option R
  unfolding read_word
  with_length junk s body = read_int32 junk s >>= λ (_, len, t). body len t

  unfoldable pub string_body : List ℕ → ℕ → DataStream → Option (Bool × List ℕ × DataStream)
  unfolding bytes_at
  string_body old len s =
      if leb (2 ^ 31) len
      then some (false, old, s)
      else (bytes_at s len >>= λ bytes. some (true, bytes, advance s len))

  unfoldable pub read_string : ℕ → List ℕ → DataStream → Option (Bool × List ℕ × DataStream)
  unfolding tagged with_length string_body
  read_string junk old s = tagged DataType.string old s (λ t. with_length junk t (string_body old))
