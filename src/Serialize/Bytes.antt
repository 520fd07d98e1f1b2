-- ===== src/Serialize/Bytes.antt =====
-- Words in the memory of a machine of either byte order. A byte is a number below 256.
use cmw.Prelude.{
  ℕ, zero, suc, ◌+◌, ◌*◌, ◌/◌, ◌%◌, ◌^◌, ◌<◌, ◌≡◌, refl, ap, ◌∙◌, List, [], ◌∷◌, arith, length,
  ◌==◌, if◌then◌else◌, length-append, get_or,
}
use mathlib.Core.List.{reverse, reverse-reverse, reverse-cons}
use native.Mathlib.Nat.{pow-suc}

pub data ByteOrder : Type 0 where
  big_endian little_endian : ByteOrder

-- The `w` low bytes of a number, the lowest first.
unfoldable pub little : ℕ → ℕ → List ℕ
little zero n = []
little (suc w) n = (n % 256) ∷ little w (n / 256)

unfoldable pub value_of : List ℕ → ℕ
value_of [] = 0
value_of (b ∷ bs) = b + 256 * value_of bs

-- The `w` bytes of a word as `memcpy` finds them, and the word in given bytes.
unfoldable pub to_memory : ByteOrder → ℕ → ℕ → List ℕ
to_memory little_endian w n = little w n
to_memory big_endian w n = reverse (little w n)

unfoldable pub from_memory : ByteOrder → List ℕ → ℕ
from_memory little_endian bs = value_of bs
from_memory big_endian bs = value_of (reverse bs)

-- `std::reverse` over the bytes of a word, where the stream says so
abbrev pub swap_if_big : ByteOrder → List ℕ → List ℕ
swap_if_big little_endian bs = bs
swap_if_big big_endian bs = reverse bs

-- `DataStream::byteorder` on a machine of the given order
unfoldable pub byteorder : ByteOrder → ByteOrder
unfolding to_memory
byteorder machine =
    if get_or (to_memory machine 4 0x12345678) 0 0 == 0x12 then big_endian else little_endian

pub byteorder_lem : (machine : ByteOrder) → byteorder machine ≡ machine
unfolding byteorder little
byteorder_lem big_endian = refl
byteorder_lem little_endian = refl

pub length-little : (w n : ℕ) → length (little w n) ≡ w
unfolding little
length-little zero n = refl
length-little (suc w) n = ap suc (length-little w (n / 256))

pub length-reverse {ℓ} : {A : Type ℓ} (xs : List A) → length (reverse xs) ≡ length xs
length-reverse [] = refl
length-reverse (x ∷ xs) =
    ap length (reverse-cons x xs)
    ∙ length-append (reverse xs) (x ∷ [])
    ∙ omega (arith, length-reverse xs)

pub length-to_memory : (o : ByteOrder) (w n : ℕ) → length (to_memory o w n) ≡ w
unfolding to_memory
length-to_memory little_endian w n = length-little w n
length-to_memory big_endian w n = length-reverse (little w n) ∙ length-little w n

pub value_of-little : (w n : ℕ) → n < 256 ^ w → value_of (little w n) ≡ n
unfolding value_of little
value_of-little zero n lt = omega arith
value_of-little (suc w) n lt =
    let short : n / 256 < 256 ^ w = omega (arith, pow-suc 256 w) in
    omega (arith, value_of-little w (n / 256) short)

-- On every machine the bytes that reach the stream are the little-endian ones.
pub swap-to_memory : (o : ByteOrder) (w n : ℕ) → swap_if_big o (to_memory o w n) ≡ little w n
unfolding to_memory
swap-to_memory little_endian w n = refl
swap-to_memory big_endian w n = reverse-reverse (little w n)

-- Reading swaps the bytes of the loaded word; on either machine the word is the one written.
pub from_memory-swap :
    (o : ByteOrder) (w n : ℕ) → n < 256 ^ w → from_memory o (swap_if_big o (little w n)) ≡ n
unfolding from_memory
from_memory-swap little_endian w n lt = value_of-little w n lt
from_memory-swap big_endian w n lt =
    ap value_of (reverse-reverse (little w n)) ∙ value_of-little w n lt

pub from_memory-to_memory :
    (o : ByteOrder) (w n : ℕ) → n < 256 ^ w → from_memory o (to_memory o w n) ≡ n
unfolding from_memory to_memory
from_memory-to_memory little_endian w n lt = value_of-little w n lt
from_memory-to_memory big_endian w n lt =
    ap value_of (reverse-reverse (little w n)) ∙ value_of-little w n lt
