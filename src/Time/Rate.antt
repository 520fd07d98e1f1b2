-- ===== src/Time/Rate.antt =====
-- time/rate.cpp over time.cpp and duration.cpp: the pace of a loop. A time is an unsigned word of
-- nanoseconds, a duration a signed one, as its word in two's complement. What the clock shows is an
-- argument.
use native.Mathlib.Decide.{dec_lt}
use cmw.Prelude.{
  ℕ, ◌+◌, ◌*◌, ◌^◌, ◌≡◌, ◌<◌, ◌≤◌, refl, ap, ◌∙◌, Bool, true, false, List, [], ◌∷◌, Option, none,
  some, if◌then◌else◌, ltb, leb, add64, sub64, arith, length,
}

-- `Time - Time`, a duration, and `Time + Duration`
abbrev since : ℕ → ℕ → ℕ
since time rhs = sub64 time rhs

abbrev after : ℕ → ℕ → ℕ
after time rhs = add64 time rhs

-- `Duration < Duration(0.0)`
abbrev is_negative : ℕ → Bool
is_negative d = leb (2 ^ 63) d

pub record Rate : Type 0 where
  pub start : ℕ
  pub expected_cycle_time : ℕ
  pub actual_cycle_time : ℕ

-- `Rate(const Duration&)`
abbrev pub rate_of : (now d : ℕ) → Rate
rate_of now d = record { start = now; expected_cycle_time = d; actual_cycle_time = 0 }

abbrev reset : ℕ → Rate → Rate
reset now r = record r { start = now }

-- The time until which a turn should take
unfoldable expected_end : ℕ → Rate → ℕ
expected_end now r =
    if ltb now r.start then after now r.expected_cycle_time else after r.start r.expected_cycle_time

-- `Sleep`, with the time until which it sleeps, if it does
unfoldable sleep : ℕ → Rate → Rate × Option ℕ
unfolding expected_end
sleep now r =
    let until = expected_end now r in
    let cycle = since now r.start in
    let restart = if ltb (after until r.expected_cycle_time) now then now else until in
    if is_negative (since until now)
    then (record r { start = restart; actual_cycle_time = cycle }, none)
    else (record r { start = until; actual_cycle_time = cycle }, some until)

-- `Sleep` at the end of every turn, for what the clock shows then
unfoldable pub sleeps : List ℕ → Rate → Rate
unfolding sleep
sleeps [] r = r
sleeps (now ∷ nows) r = sleeps nows (sleep now r).0

module _ (now : ℕ) (r : Rate) (now_fits : now < 2 ^ 62) (start_fits : r.start < 2 ^ 62)
    (cycle_fits : r.expected_cycle_time < 2 ^ 61) where
  -- All times below 2^62 and the cycle below 2^61: `Sleep` before the end of the turn sleeps until the
  -- end, and the next turn starts there.
  sleep_in_time :
      r.start ≤ now
      → now ≤ r.start + r.expected_cycle_time
      → sleep now r ≡ (
        record r { start = r.start + r.expected_cycle_time; actual_cycle_time = since now r.start },
        some (r.start + r.expected_cycle_time),
      )
  unfolding sleep expected_end
  sleep_in_time le end =
      let forward : ltb now r.start ≡ false = ground arith in
      let until : after r.start r.expected_cycle_time ≡ r.start + r.expected_cycle_time =
        omega arith in
      let early : is_negative (since (r.start + r.expected_cycle_time) now) ≡ false =
        ground arith in
      rw (forward, until, early) refl

  -- `Sleep` after the end of the turn by a cycle at most does not sleep, and the next turn counts as
  -- started at the end.
  sleep_late :
      r.start + r.expected_cycle_time < now
      → now ≤ r.start + r.expected_cycle_time + r.expected_cycle_time
      → sleep now r ≡ (
        record r { start = r.start + r.expected_cycle_time; actual_cycle_time = since now r.start },
        none,
      )
  unfolding sleep expected_end
  sleep_late late within =
      let forward : ltb now r.start ≡ false = ground arith in
      let until : after r.start r.expected_cycle_time ≡ r.start + r.expected_cycle_time =
        omega arith in
      let over : is_negative (since (r.start + r.expected_cycle_time) now) ≡ true = ground arith in
      let kept : ltb (after (r.start + r.expected_cycle_time) r.expected_cycle_time) now ≡ false =
        ground arith in
      rw (forward, until, over, kept) refl

  -- `Sleep` more than a cycle late does not sleep, and the pace starts anew.
  sleep_too_late :
      r.start + r.expected_cycle_time + r.expected_cycle_time < now
      → sleep now r ≡ (record r { start = now; actual_cycle_time = since now r.start }, none)
  unfolding sleep expected_end
  sleep_too_late late =
      let forward : ltb now r.start ≡ false = ground arith in
      let until : after r.start r.expected_cycle_time ≡ r.start + r.expected_cycle_time =
        omega arith in
      let over : is_negative (since (r.start + r.expected_cycle_time) now) ≡ true = ground arith in
      let lost : ltb (after (r.start + r.expected_cycle_time) r.expected_cycle_time) now ≡ true =
        ground arith in
      rw (forward, until, over, lost) refl

  -- After the clock has jumped back, `Sleep` sleeps for a whole cycle.
  sleep_back :
      now < r.start
      → sleep now r ≡ (
        record r { start = now + r.expected_cycle_time; actual_cycle_time = since now r.start },
        some (now + r.expected_cycle_time),
      )
  unfolding sleep expected_end
  sleep_back back =
      let backward : ltb now r.start ≡ true = ground arith in
      let until : after now r.expected_cycle_time ≡ now + r.expected_cycle_time = omega arith in
      let early : is_negative (since (now + r.expected_cycle_time) now) ≡ false = ground arith in
      rw (backward, until, early) refl

  sleep_paced :
      r.start ≤ now
      → now ≤ r.start + r.expected_cycle_time + r.expected_cycle_time
      → (sleep now r).0 ≡ record r {
        start = r.start + r.expected_cycle_time;
        actual_cycle_time = since now r.start;
      }
  sleep_paced le within = elim (dec_lt (r.start + r.expected_cycle_time) now) [
    | yes late ↦ ap (λ p. p.0) (sleep_late late within)
    | no in_time ↦ ap (λ p. p.0) (sleep_in_time le (omega arith))
  ]

-- The clock goes on, stays below 2^62, and no turn ends more than a cycle late.
abbrev pub Paced : (start cycle : ℕ) → List ℕ → Type 0
Paced start cycle [] = Unit
Paced start cycle (now ∷ nows) =
    (start ≤ now)
    × (now ≤ start + cycle + cycle)
    × (now < 2 ^ 62)
    × Paced (start + cycle) cycle nows

-- The pace does not drift: with a cycle below 2^61, a clock below 2^62 that does not go back, and turns
-- of which none ends more than a cycle late, the start of the turn after any number of them is so many
-- whole cycles after the start of the first, however early or late each of them ended.
pub no_drift :
    (nows : List ℕ) (r : Rate)
    → r.expected_cycle_time < 2 ^ 61
    → Paced r.start r.expected_cycle_time nows
    → (sleeps nows r).start ≡ r.start + length nows * r.expected_cycle_time
unfolding sleeps
no_drift [] r fits paced = omega arith
no_drift (now ∷ nows) r fits (le, within, now_fits, paced) =
    let next = record r {
      start = r.start + r.expected_cycle_time;
      actual_cycle_time = since now r.start;
    } in
    ap (λ q. (sleeps nows q).start) (sleep_paced now r now_fits (omega arith) fits le within)
    ∙ no_drift nows next fits paced
    ∙ grind arith
