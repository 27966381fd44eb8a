-- ===== src/Word.antt =====
-- The u64 arithmetic of Rust's standard library that the program uses. A u64 is a number below
-- 2 ^ 64; `none` is the `None` of a checked operation.
use alpenglow_vote.Base.{
  ℕ, ◌+◌, ◌-◌, ◌*◌, ◌%◌, ◌^◌, ◌<◌, ◌≡◌, Option, none, some, arith, leb, ◌==◌, if◌then◌else◌,
}

abbrev pub IsU8 : ℕ → Type 0
IsU8 n = n < 256

abbrev pub IsU64 : ℕ → Type 0
IsU64 n = n < 2 ^ 64

abbrev pub u64_max : ℕ
u64_max = 2 ^ 64 - 1

unfoldable pub saturating_add : ℕ → ℕ → ℕ
saturating_add a b = if leb (a + b) u64_max then a + b else u64_max

unfoldable pub saturating_sub : ℕ → ℕ → ℕ
saturating_sub a b = if leb b a then a - b else 0

unfoldable pub saturating_mul : ℕ → ℕ → ℕ
saturating_mul a b = if leb (a * b) u64_max then a * b else u64_max

unfoldable pub checked_add : ℕ → ℕ → Option ℕ
checked_add a b = if leb (a + b) u64_max then some (a + b) else none

unfoldable pub checked_sub : ℕ → ℕ → Option ℕ
checked_sub a b = if leb b a then some (a - b) else none

unfoldable pub checked_rem : ℕ → ℕ → Option ℕ
checked_rem a b = if b == 0 then none else some (a % b)

pub saturating_sub_eq : (a b : ℕ) → saturating_sub a b ≡ a - b
unfolding saturating_sub
saturating_sub_eq a b = ground arith
