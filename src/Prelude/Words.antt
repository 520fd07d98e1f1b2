-- ===== src/Prelude/Words.antt =====
-- Machine words of 32 and 64 bits as numbers with the wrap-around written out, and remainders.
use Prim.Native.Nat.{ℕ, ◌+◌, ◌-◌, ◌*◌, ◌/◌, ◌%◌, ◌^◌, ◌≤◌, ◌<◌}
use mathlib.Core.Logic.{◌≢◌}
use native.Mathlib.Nat.{div-add-mod}
use native.Mathlib.Decide.{dec_lt}
use native.Mathlib.Omega.{arith}

-- `uint64_t` addition and subtraction
abbrev pub add64 : ℕ → ℕ → ℕ
add64 a b = (a + b) % 2 ^ 64

abbrev pub sub64 : ℕ → ℕ → ℕ
sub64 a b = (a + 2 ^ 64 - b) % 2 ^ 64

-- `uint64_t` multiplication
abbrev pub mul64 : ℕ → ℕ → ℕ
mul64 a b = (a * b) % 2 ^ 64

-- `uint32_t` addition
abbrev pub add32 : ℕ → ℕ → ℕ
add32 a b = (a + b) % 2 ^ 32

-- Two multiples of `c` are equal or at least `c` apart.
mul-lt-gap : (c p q : ℕ) → c * p < c * q → c * p + c ≤ c * q
mul-lt-gap c p q h = elim (dec_lt p q) [ yes l ↦ grind arith | no g ↦ absurd (grind arith) ]

-- Two numbers less than `c` apart have different remainders by `c`.
pub mod-ne : (a b c : ℕ) → a < b → b < a + c → a % c ≢ b % c
mod-ne a b c h k e = omega (arith, div-add-mod a c, div-add-mod b c, mul-lt-gap c (a / c) (b / c))
