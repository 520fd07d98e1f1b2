-- ===== src/Serialize/Containers.antt =====
-- serialize/data_stream.h and serializable.h: the templates, over the write and read of the element
-- type. A `std::map` or `std::set` is the list of its entries in the order of its keys.
pub mod RoundTrip
pub mod Lists
pub mod Maps
pub mod Customs
pub mod Vectors
use cmw.Prelude.{
  ℕ, zero, suc, ◌+◌, ◌-◌, ◌*◌, ◌^◌, Bool, true, false, List, [], ◌∷◌, ◌++◌, Option, none, some, leb,
  ◌==◌, get_elem?, if◌then◌else◌, length, take, replicate, ◌>>=◌,
}
use cmw.Serialize.Bytes.{ByteOrder}
use cmw.Serialize.Stream.{
  DataType, code, DataStream, write_raw, write_tag, advance, next_byte, tagged, read_raw,
  write_int32, with_length, write_bool, read_bool, write_char, read_char, write_word, read_word,
  write_string, read_string,
}

-- The overloads of `write` and `read` for a type, and what a fresh variable `T v;` holds.
pub record Codec (A : Type 0) : Type 0 where
  pub write : A → DataStream → DataStream
  pub read : A → DataStream → Option (Bool × A × DataStream)
  pub blank : A

-- The rounds of `for (int i = 0; i < len; i++)`
abbrev pub rounds : ℕ → ℕ
rounds len = if leb (2 ^ 31) len then 0 else len

module _ {A : Type 0} (c : Codec A) where
  pub write_items : List A → DataStream → DataStream
  write_items [] s = s
  write_items (x ∷ xs) s = write_items xs (c.write x s)

  -- The result of each `read(v)` is dropped by the source.
  pub read_items : ℕ → List A → DataStream → Option (Bool × List A × DataStream)
  read_items zero value s = some (true, value, s)
  read_items (suc n) value s = c.read c.blank s >>= λ (_, v, t). read_items n (value ++ v ∷ []) t

  -- `value.insert(v)` for a set with the order `lt`
  pub read_set_items :
      (A → List A → List A) → ℕ → List A → DataStream → Option (Bool × List A × DataStream)
  read_set_items insert zero value s = some (true, value, s)
  read_set_items insert (suc n) value s =
      c.read c.blank s >>= λ (_, v, t). read_set_items insert n (insert v value) t

-- `std::set::insert` and `std::map::operator[]`, on the entries in order
pub insert_key : {A : Type 0} → (A → A → Bool) → A → List A → List A
insert_key lt v [] = v ∷ []
insert_key lt v (x ∷ xs) =
    let later = insert_key lt v xs in
    if lt v x then v ∷ x ∷ xs else if lt x v then x ∷ later else x ∷ xs

pub assign_key : {K V : Type 0} → (K → K → Bool) → K → V → List (K × V) → List (K × V)
assign_key lt k v [] = (k, v) ∷ []
assign_key lt k v ((j, w) ∷ m) =
    let later = assign_key lt k v m in
    if lt k j then (k, v) ∷ (j, w) ∷ m else if lt j k then (j, w) ∷ later else (j, v) ∷ m

module _ {K V : Type 0} (ck : Codec K) (cv : Codec V) where
  unfoldable pub write_entries : List (K × V) → DataStream → DataStream
  write_entries [] s = s
  write_entries ((k, v) ∷ m) s = write_entries m (cv.write v (ck.write k s))

  pub read_entries :
      (K → K → Bool) → ℕ → List (K × V) → DataStream → Option (Bool × List (K × V) × DataStream)
  read_entries lt zero value s = some (true, value, s)
  read_entries lt (suc n) value s = ck.read ck.blank s >>= λ (_, k, t).
      cv.read cv.blank t >>= λ (_, v, u). read_entries lt n (assign_key lt k v value) u

  -- `write_args` and `read_args`: a first argument, and the rest. The first result is dropped.
  unfoldable pub args_pair : Codec (K × V)
  args_pair = record {
    write = λ (k, v) s. cv.write v (ck.write k s);
    read = λ (k, v) s.
        ck.read k s >>= λ (_, k', t). cv.read v t >>= λ (b, v', u). some (b, (k', v'), u);
    blank = (ck.blank, cv.blank);
  }

-- `write_args()` and `read_args()`
unfoldable pub args_end : Codec (Unit {0})
args_end = record { write = λ _ s. s; read = λ _ s. some (true, tt, s); blank = tt }

-- `serialize` and `unserialize` of a class that names its members in `SERIALIZE`. The tag is taken
-- off the stream also where it is another one.
unfoldable pub serializable : {A : Type 0} → Codec A → Codec A
serializable args = record {
  write = λ a s. args.write a (write_tag s DataType.custom);
  read = λ a s. next_byte s >>= λ byte.
      if byte == code DataType.custom
      then (args.read a (advance s 1) >>= λ (_, b, u). some (true, b, u))
      else some (false, a, advance s 1);
  blank = args.blank;
}

-- A vector of trivially copyable elements: their number, and the bytes of all of them.
pub record RawVector : Type 0 where
  pub count : ℕ
  pub memory : List ℕ

-- `write(const std::vector<T>&)`: after the number of the elements, as many bytes of them.
pub write_vector : ByteOrder → RawVector → DataStream → DataStream
write_vector machine v s =
    write_raw (write_int32 machine (write_tag s DataType.vector) v.count) (take v.count v.memory)

-- The overloads for a Boolean and a byte
abbrev pub bool_codec : Bool → Codec Bool
bool_codec blank = record { write = λ b s. write_bool s b; read = read_bool; blank = blank }

abbrev pub char_codec : ℕ → Codec ℕ
char_codec blank = record { write = λ c s. write_char s c; read = read_char; blank = blank }

module _ (machine : ByteOrder) (junk : ℕ) where
  -- The overloads for words of `width` bytes; `junk` also stands for an uninitialised word.
  abbrev pub word_codec : DataType → ℕ → Codec ℕ
  word_codec type width = record {
    write = λ n s. write_word machine type width s n;
    read = read_word machine type width;
    blank = junk;
  }

  -- An enumeration travels as the `int32_t` that it is cast to.
  abbrev pub enum_codec : Codec ℕ
  enum_codec = word_codec DataType.int32 4

  abbrev pub string_codec : Codec (List ℕ)
  string_codec = record {
    write = λ v s. write_string machine s v;
    read = read_string machine junk;
    blank = [];
  }

  pub list_codec : {A : Type 0} → Codec A → Codec (List A)
  unfolding write_items read_items
  list_codec c = record {
    write = λ xs s. write_items c xs (write_int32 machine (write_tag s DataType.list) (length xs));
    read = λ _ s.
        tagged DataType.list [] s
          (λ t. with_length machine junk t (λ len u. read_items c (rounds len) [] u));
    blank = [];
  }

  pub set_codec : {A : Type 0} → (A → A → Bool) → Codec A → Codec (List A)
  unfolding write_items read_set_items insert_key
  set_codec lt c = record {
    write = λ xs s. write_items c xs (write_int32 machine (write_tag s DataType.set) (length xs));
    read = λ _ s. tagged DataType.set [] s (λ t.
        with_length machine junk t (λ len u. read_set_items c (insert_key lt) (rounds len) [] u));
    blank = [];
  }

  unfoldable pub map_codec :
      {K V : Type 0} → (K → K → Bool) → Codec K → Codec V → Codec (List (K × V))
  unfolding write_entries read_entries
  map_codec lt ck cv = record {
    write =
        λ m s. write_entries ck cv m (write_int32 machine (write_tag s DataType.map) (length m));
    read = λ _ s.
        tagged DataType.map [] s
          (λ t. with_length machine junk t (λ len u. read_entries ck cv lt (rounds len) [] u));
    blank = [];
  }

  -- `read(std::vector<T>&)` for elements of `width` bytes. `resize` zeroes the elements, and throws
  -- (`none`) at a negative length.
  pub read_vector : ℕ → DataStream → Option (Bool × RawVector × DataStream)
  read_vector width s =
      tagged DataType.vector (record { count = 0; memory = [] }) s
        (λ t. with_length machine junk t (λ len u.
          if leb (2 ^ 31) len
          then none
          else (read_raw u len >>= λ (bytes, w). some (
            true,
            record { count = len; memory = bytes ++ replicate (len * width - len) 0 },
            w,
          ))))
