-- ===== src/Data/ChannelBuffer.antt =====
-- data/channel_buffer.h, and the one-channel reader of data/data_visitor.h. A warning that is only
-- logged has no part in the model, and neither has the mutex: each call holds it throughout.
pub mod Fetch
use cmw.Prelude.{
  ℕ, zero, suc, ◌+◌, ◌-◌, Bool, true, false, List, [], ◌∷◌, ◌++◌, Option, none, some, add64, sub64,
  ◌==◌, ltb, leb, if◌then◌else◌, min,
}
use cmw.Data.CacheBuffer.{CacheBuffer, at, oldest, size, back, is_empty}

-- What a reading call gives: `false`, `true` with the message, or a read out of the vector's range.
pub data Outcome (A : Type 0) : Type 0 where
  miss fault : Outcome A
  hit : A → Outcome A

abbrev pub hit_or_fault : {A : Type 0} → Option A → Outcome A
hit_or_fault none = fault
hit_or_fault (some m) = hit m

module _ {A S : Type 0} where
  -- `Fetch`, with the new value of `*index`
  unfoldable pub fetch : CacheBuffer A S → ℕ → Outcome A × ℕ
  fetch b index =
      if is_empty b
      then (miss, index)
      else if index == 0
      then (hit_or_fault (at b b.tail), b.tail)
      else if index == add64 b.tail 1
      then (miss, index)
      else if ltb index (oldest b)
      then (hit_or_fault (at b b.tail), b.tail)
      else (hit_or_fault (at b index), index)

  pub latest : CacheBuffer A S → Outcome A
  latest b = if is_empty b then miss else hit_or_fault (back b)

  -- The loop of `FetchMulti`, on fuel. `none` is a read out of range, or the end of the fuel.
  pub fetch_from : ℕ → CacheBuffer A S → ℕ → List A → Option (List A)
  fetch_from zero b index vec = none
  fetch_from (suc f) b index vec = elim (leb index b.tail) [
    | true ↦ elim (at b index) [
      | none ↦ none
      | some m ↦ fetch_from f b (add64 index 1) (vec ++ m ∷ [])
    ]
    | false ↦ some vec
  ]

  -- `FetchMulti`: whether it succeeds, and `*vec` afterwards
  pub fetch_multi : CacheBuffer A S → ℕ → List A → Option (Bool × List A)
  fetch_multi b fetch_size vec =
      let num = min (size b) fetch_size in
      if is_empty b
      then some (false, vec)
      else elim (fetch_from (num + 1) b (add64 (sub64 b.tail num) 1) vec) [
        | none ↦ none
        | some out ↦ some (true, out)
      ]

  -- `DataVisitor<M0>::TryFetch`, with the new value of `next_msg_index_`
  unfoldable pub try_fetch : CacheBuffer A S → ℕ → Outcome A × ℕ
  try_fetch b next_msg_index =
      let (found, index) = fetch b next_msg_index in
      elim found [ hit m ↦ (hit m, add64 index 1) | miss ↦ (miss, index) | fault ↦ (fault, index) ]

  -- A reader that calls `TryFetch` `n` times: what the calls gave it, and its index afterwards.
  pub poll : ℕ → CacheBuffer A S → ℕ → List (Outcome A) × ℕ
  poll zero b index = ([], index)
  poll (suc n) b index =
      let (found, index') = try_fetch b index in
      let (rest, last) = poll n b index' in (found ∷ rest, last)
