-- ===== src/Data/CacheBuffer.antt =====
-- data/cache_buffer.h: the ring of the latest values of a channel.
pub mod History
use cmw.Prelude.{
  ℕ, ◌+◌, ◌-◌, ◌%◌, Bool, true, false, List, Option, none, some, add64, sub64, ◌==◌, if◌then◌else◌,
  get_elem?, set, replicate,
}

-- `S` is the state that a fusion callback works on: it is outside of the buffer.
pub record CacheBuffer (A S : Type 0) : Type 0 where
  pub head : ℕ
  pub tail : ℕ
  pub capacity : ℕ
  pub buffer : List A
  pub fusion_callback : Option (A → S → S)

module _ {A S : Type 0} where
  -- The cells start as `T()`, here `null`.
  unfoldable pub init : ℕ → A → CacheBuffer A S
  init size null = record {
    head = 0;
    tail = 0;
    capacity = add64 size 1;
    buffer = replicate (add64 size 1) null;
    fusion_callback = none;
  }

  -- `GetIndex`, a remainder by the capacity
  abbrev pub get_index : CacheBuffer A S → ℕ → ℕ
  get_index b pos = pos % b.capacity

  -- `at` and `operator[]`; `none` is a read out of the vector's range.
  unfoldable pub at : CacheBuffer A S → ℕ → Option A
  at b pos = get_elem? b.buffer (get_index b pos)

  -- `Head`, the position of the oldest value
  abbrev pub oldest : CacheBuffer A S → ℕ
  oldest b = add64 b.head 1

  pub size : CacheBuffer A S → ℕ
  size b = sub64 b.tail b.head

  pub front : CacheBuffer A S → Option A
  unfolding at
  front b = at b (add64 b.head 1)

  pub back : CacheBuffer A S → Option A
  unfolding at
  back b = at b b.tail

  unfoldable pub is_empty : CacheBuffer A S → Bool
  is_empty b = b.tail == 0

  unfoldable pub is_full : CacheBuffer A S → Bool
  is_full b = sub64 b.capacity 1 == sub64 b.tail b.head

  abbrev pub set_fusion_callback : CacheBuffer A S → (A → S → S) → CacheBuffer A S
  set_fusion_callback b f = record b { fusion_callback = some f }

  -- `Fill` without a callback. A `set` out of range changes nothing; `Holds` rules it out.
  unfoldable pub store : CacheBuffer A S → A → CacheBuffer A S
  unfolding is_full
  store b value =
      if is_full b
      then record b {
        buffer = set b.buffer (get_index b b.head) value;
        head = add64 b.head 1;
        tail = add64 b.tail 1;
      }
      else record b {
        buffer = set b.buffer (get_index b (add64 b.tail 1)) value;
        tail = add64 b.tail 1;
      }

  -- `Fill`
  pub fill : CacheBuffer A S → A → S → CacheBuffer A S × S
  fill b value s = elim b.fusion_callback [ none ↦ (store b value, s) | some f ↦ (b, f value s) ]
