-- ===== src/Float.antt =====
-- Python's floating-point numbers, as far as `miner` computes with them: an interface. A number of
-- `Number` is an `int` or a finite `float`; Python compares the two exactly. The laws say what the
-- documentation says of finite numbers: the order is strict, and `int` rounds to an integer and
-- keeps integers, and dividing two integers rounds to the nearest float, so it is monotone.
pub mod Whole
use mutiny_net.Prelude.{ℕ, ◌*◌, ◌≤◌, ◌<◌, ◌≡◌, arith, Bool, true, false, if◌then◌else◌}
use mutiny_net.Prelude.Int.{ℤ, ◌≤ℤ◌}
use mutiny_net.Prelude.Result.{Result, err, zero_division_error}
use mutiny_net.NBits.{Ratio}

pub record Float : Type 1 where
  pub Number : Type 0
  pub lt : Number → Number → Bool
  pub of_ℤ : ℤ → Number
  -- `a / b` of two integers, as a float
  pub quotient : ℕ → ℕ → Number
  pub add : Number → Number → Number
  pub sub : Number → Number → Number
  pub mul : Number → Number → Number
  pub neg : Number → Number
  -- `math.log1p`
  pub log1p : Number → Number
  -- `/` of two targets
  pub div : Ratio → Ratio → Result Number
  -- `int`
  pub truncate : Number → ℤ
  pub quotient_mono :
      (a b c d : ℕ) → 0 < b → 0 < d → a * d ≤ c * b → lt (quotient c d) (quotient a b) ≡ false
  pub lt_irrefl : (x : Number) → lt x x ≡ false
  pub lt_asymm : (x y : Number) → lt x y ≡ true → lt y x ≡ false
  pub of_ℤ_mono : (a b : ℤ) → a ≤ℤ b → lt (of_ℤ b) (of_ℤ a) ≡ false
  pub lt_of_ℤ_mono : (x : Number) (a b : ℤ) → a ≤ℤ b → lt x (of_ℤ a) ≡ true → lt x (of_ℤ b) ≡ true
  pub truncate-of_ℤ : (a : ℤ) → truncate (of_ℤ a) ≡ a
  pub div-zero : (a b : Ratio) → b.num ≡ 0 → div a b ≡ err zero_division_error

module _ (fl : Float) where
  open fl use {Number, lt}

  -- Python's `min(a, b)` and `max(a, b)`: the first argument, unless the second is beyond it.
  unfoldable pub py_min : Number → Number → Number
  py_min a b = if lt b a then b else a

  unfoldable pub py_max : Number → Number → Number
  py_max a b = if lt a b then b else a

  -- A value held between two bounds.
  pub py_clamp :
      (lo hi x : Number)
      → lt hi lo ≡ false
      → (lt (py_max lo (py_min x hi)) lo ≡ false) × (lt hi (py_max lo (py_min x hi)) ≡ false)
  unfolding py_max py_min
  py_clamp lo hi x h =
      ground (arith, fl.lt_irrefl lo, fl.lt_irrefl hi, fl.lt_asymm lo x, fl.lt_asymm lo hi)

  pub py_min-le_left : (a b : Number) → lt a (py_min a b) ≡ false
  unfolding py_min
  py_min-le_left a b = ground (arith, fl.lt_irrefl a, fl.lt_asymm b a)

  pub py_min-le_right : (a b : Number) → lt b (py_min a b) ≡ false
  unfolding py_min
  py_min-le_right a b = ground (arith, fl.lt_irrefl b)
