-- ===== src/Tests/Time.antt =====
-- The pace of a loop at concrete times.
use cmw.Prelude.{ℕ, ◌+◌, ◌*◌, ◌≡◌, List, [], ◌∷◌, arith}
use cmw.Time.Rate.{rate_of, sleeps, Paced, no_drift}

-- Cycles of 100 from 1000 on: a turn ends early, one late, and one in time.
abbrev ends : List ℕ
ends = 1040 ∷ 1250 ∷ 1290 ∷ []

ends-Paced : Paced 1000 100 ends
ends-Paced = (
  omega arith,
  omega arith,
  omega arith,
  (omega arith, omega arith, omega arith, (omega arith, omega arith, omega arith, tt)),
)

no_drift_example : (sleeps ends (rate_of 1000 100)).start ≡ 1000 + 3 * 100
no_drift_example = no_drift ends (rate_of 1000 100) (omega arith) ends-Paced
