-- ===== src/Scheduler/Numbers.antt =====
-- The floating-point numbers that the scheduler computes with, as a parameter: Python's `float`
-- without NaN. `seconds now then` is the difference of two clock reads in seconds, and
-- `three_quarters` the literal 0.75. The laws are those of the comparison of IEEE numbers.
use keziah.Base.{ℕ, Bool, true, false, ◌≡◌, ◌⊎◌}
use keziah.Base.Int.{ℤ}

pub record Float : Type 1 where
  pub Num : Type 0
  pub of_nat : ℕ → Num
  pub of_int : ℤ → Num
  pub add : Num → Num → Num
  pub sub : Num → Num → Num
  pub mul : Num → Num → Num
  pub div : Num → Num → Num
  pub lt : Num → Num → Bool
  pub seconds : ℕ → ℕ → Num
  pub three_quarters : Num

-- `lt` is a strict weak order.
pub record IsOrdered (F : Float) : Type 0 where
  pub lt_irrefl : (a : F.Num) → F.lt a a ≡ false
  pub lt_trans : (a b c : F.Num) → F.lt a b ≡ true → F.lt b c ≡ true → F.lt a c ≡ true
  pub lt_split : (a b c : F.Num) → F.lt a c ≡ true → (F.lt a b ≡ true) ⊎ (F.lt b c ≡ true)
