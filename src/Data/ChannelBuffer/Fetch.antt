-- ===== src/Data/ChannelBuffer/Fetch.antt =====
-- The reading calls of a channel, against the history of the values written to it.
use cmw.Prelude.{
  Bool, ℕ, zero, suc, ◌+◌, ◌-◌, ◌^◌, ◌≤◌, ◌<◌, ◌≡◌, sym, ap, ◌∙◌, true, false, List, [], ◌∷◌, ◌++◌,
  map, some, arith, ◌==◌, ltb, if◌then◌else◌, get_elem?, length, drop, drop_at, drop_all, min,
  append-nil, append_assoc, add64, sub64,
}
use cmw.Data.CacheBuffer.{CacheBuffer, at}
use cmw.Data.CacheBuffer.History.{Holds, at_lem, size_lem, is_empty_lem, back_lem}
use cmw.Data.ChannelBuffer.{
  Outcome, miss, fault, hit, hit_or_fault, fetch, latest, fetch_from, fetch_multi, try_fetch, poll,
}

-- What a reader at position `index` gets of a history of which the last `kept` values are kept.
-- Position 0 asks for the newest value, and a value that is gone is answered by the newest one.
unfoldable pub fetch_history : {A : Type 0} → ℕ → List A → ℕ → Outcome A × ℕ
fetch_history {A} kept h index =
    let newest : Outcome A × ℕ = (hit_or_fault (get_elem? h (length h - 1)), length h) in
    if length h == 0
    then (miss, index)
    else if index == 0
    then newest
    else if index == length h + 1
    then (miss, index)
    else if ltb index (length h - kept + 1)
    then newest
    else (hit_or_fault (get_elem? h (index - 1)), index)

module _ {A S : Type 0} (f : ℕ) (b : CacheBuffer A S) (i : ℕ) (vec : List A) where
  fetch_from-stop : b.tail < i → fetch_from (suc f) b i vec ≡ some vec
  unfolding fetch_from
  fetch_from-stop lt = ground arith

  fetch_from-step :
      (m : A)
      → i ≤ b.tail
      → at b i ≡ some m
      → fetch_from (suc f) b i vec ≡ fetch_from f b (add64 i 1) (vec ++ m ∷ [])
  unfolding fetch_from
  fetch_from-step m le found = ground arith

module _ {A S : Type 0} {b : CacheBuffer A S} {h : List A} (w : Holds b h) (two : 2 ≤ b.capacity)
    (room : length h + 1 < 2 ^ 64) where
  open w use {positive, small, newest, in_range, dropped}

  newest_at : 0 < length h → at b b.tail ≡ get_elem? h (length h - 1)
  newest_at p = ap (at b) (omega arith) ∙ at_lem w (length h - 1) (omega arith) (omega arith)

  older_at : (i : ℕ) → length h - (b.capacity - 1) < i → i ≤ length h → at b i ≡ get_elem? h (i - 1)
  older_at i lo hi = ap (at b) (omega arith) ∙ at_lem w (i - 1) (omega arith) (omega arith)

  -- `Fetch` on a ring that holds a history, at any index up to one past the newest value: what
  -- `fetch_history` says of the history, of which the last `capacity - 1` values are kept. The ring is for
  -- at least one value, and the positions stay below 2^64.
  pub fetch_lem : (i : ℕ) → i ≤ length h + 1 → fetch b i ≡ fetch_history (b.capacity - 1) h i
  unfolding fetch fetch_history
  fetch_lem i hi = ground (arith, is_empty_lem w, newest_at, older_at i)

  -- `Latest` is the newest value of the history, if there is one.
  pub latest_lem :
      latest b ≡ (if length h == 0 then miss else hit_or_fault (get_elem? h (length h - 1)))
  unfolding latest
  latest_lem = ground (arith, is_empty_lem w, back_lem w two)

  -- The next `k` values are kept and read: the loop appends them and stops.
  fetch_from_lem :
      (k i : ℕ) (vec : List A)
      → i + k ≡ length h + 1
      → length h - (b.capacity - 1) < i
      → fetch_from (suc k) b i vec ≡ some (vec ++ drop (i - 1) h)
  fetch_from_lem zero i vec e lo =
      fetch_from-stop zero b i vec (omega arith) ∙ rw (drop_all h (i - 1) (omega arith), append-nil)
  fetch_from_lem (suc k) i vec e lo =
      let (m, here, rest) = drop_at h (i - 1) (omega arith) in
      let next : add64 i 1 ≡ i + 1 = omega arith in
      let from : suc (i - 1) ≡ i + 1 - 1 = omega arith in
      fetch_from-step (suc k) b i vec m (omega arith) (older_at i lo (omega arith) ∙ here)
      ∙ rw next (
          fetch_from_lem k (i + 1) (vec ++ m ∷ []) (omega arith) (omega arith)
          ∙ ap some (
              append_assoc vec (m ∷ []) _
              ∙ ap (λ l. vec ++ l) (ap (λ d. m ∷ drop d h) (sym from) ∙ sym rest)))

  multi_loop :
      (k : ℕ) (vec : List A)
      → k ≤ min (length h) (b.capacity - 1)
      → fetch_from (k + 1) b (add64 (sub64 b.tail k) 1) vec ≡ some (vec ++ drop (length h - k) h)
  multi_loop k vec le =
      let fuel : k + 1 ≡ suc k = omega arith in
      let start : add64 (sub64 b.tail k) 1 ≡ length h - k + 1 = omega arith in
      rw (fuel, start, fetch_from_lem k (length h - k + 1) vec (omega arith) (omega arith))
        (ap (λ d. some (vec ++ drop d h)) (omega arith))

  -- `FetchMulti` of n values on a ring that holds a history ends: it fails on an empty history, and else
  -- appends the last n values that are kept, or all that are kept if they are fewer, oldest first. The
  -- ring is for at least one value, and the positions stay below 2^64.
  pub fetch_multi_lem :
      (n : ℕ) (vec : List A)
      → fetch_multi b n vec ≡ (
          if length h == 0
          then some (false, vec)
          else some (true, vec ++ drop (length h - min (min (length h) (b.capacity - 1)) n) h))
  unfolding fetch_multi
  fetch_multi_lem n vec =
      ground (
        arith,
        is_empty_lem w,
        size_lem w,
        multi_loop (min (min (length h) (b.capacity - 1)) n) vec,
      )

  try_fetch-hit :
      (i : ℕ) (m : A)
      → 0 < i
      → i ≤ length h
      → length h - (b.capacity - 1) < i
      → get_elem? h (i - 1) ≡ some m
      → try_fetch b i ≡ (hit m, i + 1)
  unfolding try_fetch fetch_history
  try_fetch-hit i m pos hi lo e = ground (arith, fetch_lem i)

  poll-hit :
      (k i last : ℕ) (m : A) (rest : List (Outcome A))
      → try_fetch b i ≡ (hit m, i + 1)
      → poll k b (i + 1) ≡ (rest, last)
      → poll (suc k) b i ≡ (hit m ∷ rest, last)
  unfolding poll
  poll-hit k i last m rest now later = rw (now, later)

  -- A reader whose index i is kept or is one past the newest value, with k messages pending: k calls of
  -- `TryFetch` give all pending messages, in order and once, and leave the index one past the newest. The
  -- ring holds the history and is for at least one value, and the positions stay below 2^64.
  pub poll_lem :
      (k i : ℕ)
      → 0 < i
      → i + k ≡ length h + 1
      → length h - (b.capacity - 1) < i
      → poll k b i ≡ (map hit (drop (i - 1) h), length h + 1)
  poll_lem zero i pos e lo =
      let none_left : drop (i - 1) h ≡ [] = drop_all h (i - 1) (omega arith) in
      let at_end : i ≡ length h + 1 = omega arith in
      unfold poll in rw none_left (ap (λ j. ([], j)) at_end)
  poll_lem (suc k) i pos e lo =
      let (m, here, rest) = drop_at h (i - 1) (omega arith) in
      let from : suc (i - 1) ≡ i + 1 - 1 = omega arith in
      poll-hit k i (length h + 1) m (map hit (drop (i + 1 - 1) h))
        (try_fetch-hit i m pos (omega arith) lo here)
        (poll_lem k (i + 1) (omega arith) (omega arith) (omega arith))
      ∙ ap (λ l. (map hit l, length h + 1)) (ap (λ d. m ∷ drop d h) (sym from) ∙ sym rest)

abbrev pub is_miss : {A : Type 0} → Outcome A → Bool
is_miss miss = true
is_miss (hit m) = false
is_miss fault = false

module _ {A S : Type 0} (b : CacheBuffer A S) (i : ℕ) where
  fetch-miss : is_miss (fetch b i).0 ≡ true → (fetch b i).1 ≡ i
  unfolding fetch
  fetch-miss e = ground arith

  -- A call that fails leaves the index as it was.
  pub try_fetch-miss : is_miss (try_fetch b i).0 ≡ true → (try_fetch b i).1 ≡ i
  unfolding try_fetch
  try_fetch-miss e = ground (arith, fetch-miss)
