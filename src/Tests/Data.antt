-- ===== src/Tests/Data.antt =====
-- Rings and channels at concrete histories.
use cmw.Prelude.{
  ℕ, zero, suc, ◌+◌, ◌-◌, ◌%◌, ◌<◌, ◌≤◌, ◌≡◌, refl, ◌↔◌, true, false, List, [], ◌∷◌, ◌++◌, none,
  some, Option, arith, length, get_elem?, drop, min, ◌==◌, if◌then◌else◌,
}
use cmw.Data.CacheBuffer.{CacheBuffer, init, store, size, is_full}
use cmw.Data.CacheBuffer.History.{Holds, init-Holds, store-Holds, size_lem, is_full_iff}
use cmw.Data.ChannelBuffer.{hit, fetch, fetch_multi, poll}
use cmw.Data.ChannelBuffer.Fetch.{fetch_history, fetch_lem, fetch_multi_lem, poll_lem}
use cmw.Base.AtomicHashMap.{AtomicHashMap}
use cmw.Data.Dispatcher.{Buffers}
use cmw.Data.Dispatcher.Delivery.{in_turn, callbacks}
use cmw.Data.AllLatest.{fusion_fetch}
use cmw.Data.AllLatest.Stream.{Arrival, first, second, run, pairs, fresh, fused_reads}

abbrev Ring : Type 0
Ring = CacheBuffer ℕ (Unit {0})

-- A ring for two values after 7, 8 and 9 were filled in: 7 is gone.
abbrev ring : Ring
ring = record { head = 1; tail = 3; capacity = 3; buffer = 9 ∷ 7 ∷ 8 ∷ []; fusion_callback = none }

abbrev history : List ℕ
history = 7 ∷ 8 ∷ 9 ∷ []

ring_cells :
    (pos : ℕ)
    → 1 < pos
    → pos ≤ 3
    → get_elem? ring.buffer (pos % ring.capacity) ≡ get_elem? history (pos - 1)
ring_cells zero lo hi = absurd (omega arith)
ring_cells (suc zero) lo hi = absurd (omega arith)
ring_cells (suc (suc zero)) lo hi = refl
ring_cells (suc (suc (suc zero))) lo hi = refl
ring_cells (suc (suc (suc (suc n)))) lo hi = absurd (omega arith)

ring-Holds : Holds ring history
ring-Holds = record {
  positive = omega arith;
  small = omega arith;
  storage = refl;
  newest = refl;
  in_range = omega arith;
  dropped = refl;
  cells = ring_cells;
}

init-Holds_example : Holds {A = ℕ} (init {S = Unit {0}} 2 0) []
init-Holds_example = init-Holds 2 0 (omega arith)

store-Holds_example : Holds (store ring 5) (7 ∷ 8 ∷ 9 ∷ 5 ∷ [])
store-Holds_example = store-Holds ring history ring-Holds 5 (omega arith)

size_lem_example : size ring ≡ 2
size_lem_example = size_lem ring-Holds

is_full_iff_example : (is_full ring ≡ true) ↔ (2 ≤ 3)
is_full_iff_example = is_full_iff ring-Holds

-- A reader at the position that is gone gets the newest value.
fetch_lem_example : fetch ring 1 ≡ fetch_history 2 history 1
fetch_lem_example = fetch_lem ring-Holds (omega arith) (omega arith) 1 (omega arith)

fetch_history-gone : fetch_history 2 history 1 ≡ (hit 9, 3)
unfolding fetch_history
fetch_history-gone = refl

fetch_multi_lem_example : fetch_multi ring 2 (4 ∷ []) ≡ (
    if length history == 0
    then some (false, 4 ∷ [])
    else some (true, (4 ∷ []) ++ drop (length history - min (min (length history) 2) 2) history))
fetch_multi_lem_example = fetch_multi_lem ring-Holds (omega arith) (omega arith) 2 (4 ∷ [])

poll_lem_example : poll 2 ring 2 ≡ (hit 8 ∷ hit 9 ∷ [], 4)
poll_lem_example =
    poll_lem ring-Holds (omega arith) (omega arith) 2 2 (omega arith) refl (omega arith)

-- The first message of the first channel has no partner.
abbrev arrivals : List (Arrival ℕ ℕ)
arrivals = first 1 ∷ second 50 ∷ first 2 ∷ second 60 ∷ second 61 ∷ first 3 ∷ []

arrivals-pairs : pairs none arrivals ≡ (2, 50) ∷ (3, 61) ∷ []
unfolding pairs
arrivals-pairs = refl

two_pairs : 1 ≤ length (pairs none arrivals) + 1
two_pairs = omega arith

fused_reads_example :
    fusion_fetch (run (fresh 2 1 0 0) arrivals) 1 ≡ fetch_history 2 (pairs none arrivals) 1
fused_reads_example =
    fused_reads 2 1 0 0 arrivals 1 (omega arith) (omega arith) (omega arith) (omega arith)
      (omega arith) two_pairs

-- Buffers 0 and 2 are of channel 9, and 0 has expired; the notifier counts its calls.
abbrev buffers_added : List (ℕ × ℕ)
buffers_added = (9, 0) ∷ (4, 1) ∷ (9, 2) ∷ []

abbrev watchers_added : List (ℕ × ℕ)
watchers_added = (9, 0) ∷ []

abbrev counting : List (Option (ℕ → ℕ))
counting = some (λ n. n + 1) ∷ []

abbrev live : CacheBuffer ℕ ℕ
live = init 2 0

abbrev rings : Buffers ℕ ℕ
rings = none ∷ some live ∷ some live ∷ []

rings_told : in_turn (callbacks (0 ∷ []) counting) 0 ≡ 1
rings_told = refl
