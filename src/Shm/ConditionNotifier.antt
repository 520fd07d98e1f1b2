-- ===== src/Shm/ConditionNotifier.antt =====
-- transport/shm/condition_notifier.cpp: a ring of notices in shared memory. `Notify` is one step here; a
-- listener's call is a loop over what it finds in the memory at each of its turns. What opens and removes
-- the memory is a matter of the system.

pub mod Laps
use cmw.Prelude.{
  ℕ, ◌+◌, ◌-◌, ◌%◌, Bool, true, false, not, List, [], ◌∷◌, Option, none, some, ◌==◌, ltb, leb,
  if◌then◌else◌, get_elem?, set, replicate, add64,
}
use cmw.Shm.ReadableInfo.{ReadableInfo, no_info}

abbrev pub buf_length : ℕ
buf_length = 4096

pub record Indicator : Type 0 where
  pub next_seq : ℕ
  pub infos : List ReadableInfo
  pub seqs : List ℕ

abbrev pub new_indicator : Indicator
new_indicator = record {
  next_seq = 0;
  infos = replicate buf_length no_info;
  seqs = replicate buf_length 0;
}

pub record ConditionNotifier : Type 0 where
  pub next_seq : ℕ
  pub is_shutdown : Bool

unfoldable pub notify : ReadableInfo → ConditionNotifier → Indicator → Indicator × Bool
notify info n i =
    let seq = i.next_seq in
    let idx = seq % buf_length in
    if n.is_shutdown then (i, false) else (
      record { next_seq = add64 seq 1; infos = set i.infos idx info; seqs = set i.seqs idx seq },
      true,
    )

-- What a turn of the loop of `Listen` gives: a notice, or nothing; `none` is a read out of range.
unfoldable pub read_notice :
    (seq : ℕ) → Option ℕ → Option ReadableInfo → Option (Option (ReadableInfo × ℕ))
read_notice next none info = none
read_notice next (some actual) none = none
read_notice next (some actual) (some info) =
    if leb next actual then some (some (info, add64 actual 1)) else some none

unfoldable pub listen_turn : (next : ℕ) → Indicator → Option (Option (ReadableInfo × ℕ))
unfolding read_notice
listen_turn next i =
    let idx = next % buf_length in
    if i.next_seq == next
    then some none
    else read_notice next (get_elem? i.seqs idx) (get_elem? i.infos idx)

-- How a call of `Listen` ends; `unfinished` is a call that has had no further turn yet.
pub data Heard : Type 0 where
  returned_false unfinished out_of_range : Heard
  heard : ReadableInfo → (next : ℕ) → Heard

-- The end of a turn, for what comes of waiting
unfoldable pub after_turn : Option (Option (ReadableInfo × ℕ)) → Heard → Heard
after_turn none wait = out_of_range
after_turn (some (some (info, next))) wait = heard info next
after_turn (some none) wait = wait

-- `Listen` with so many microseconds left, for what it finds at its turns: whether the notifier is shut
-- down, and the memory.
unfoldable pub listen : (next timeout_us : ℕ) → List (Bool × Indicator) → Heard
unfolding listen_turn after_turn
listen next timeout_us [] = unfinished
listen next timeout_us ((shut, i) ∷ later) =
    let rest = listen next (timeout_us - 50) later in
    let wait = if ltb 0 timeout_us then rest else returned_false in
    if shut then returned_false else after_turn (listen_turn next i) wait
