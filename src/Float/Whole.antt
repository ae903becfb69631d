-- ===== src/Float/Whole.antt =====
-- Whole numbers meet the laws of `Float`: every operation rounds down, and `log1p` is the identity.
-- They stand in for floats in the tests.
use mutiny_net.Prelude.{ℕ, ◌*◌, ◌/◌, ◌≤◌, ◌<◌, ◌≡◌, refl, arith, true, false, ◌==◌, if◌then◌else◌}
use mutiny_net.Prelude.Int.{ℤ, pos, ◌+ℤ◌, ◌-ℤ◌, ◌*ℤ◌, ◌≤ℤ◌, ltb_ℤ}
use mutiny_net.Prelude.Result.{Result, ok, err, zero_division_error}
use mutiny_net.NBits.{Ratio}
use mutiny_net.Float.{Float}
use native.Mathlib.Nat.{
  le-div_iff_mul-le, mul-le-mul_right, div-mul-le_self, le_of_mul-le-mul_right,
}

unfoldable pub div_whole : Ratio → Ratio → Result ℤ
div_whole a b =
    if b.num == 0 then err zero_division_error else ok (pos (a.num * b.den / (a.den * b.num)))

unfoldable pub quotient_whole : ℕ → ℕ → ℤ
quotient_whole a b = pos (a / b)

div-le-div : (a b c d : ℕ) → 0 < b → 0 < d → a * d ≤ c * b → a / b ≤ c / d
div-le-div a b c d hb hd h = (le-div_iff_mul-le hd).1 (
    le_of_mul-le-mul_right {m = a / b * d} {n = c} {k = b}
      (omega (arith, mul-le-mul_right d (div-mul-le_self a b))) hb)

pub quotient_whole_mono :
    (a b c d : ℕ)
    → 0 < b
    → 0 < d
    → a * d ≤ c * b
    → ltb_ℤ (quotient_whole c d) (quotient_whole a b) ≡ false
unfolding quotient_whole
quotient_whole_mono a b c d hb hd h = ground (arith, div-le-div a b c d hb hd h)

pub div_whole-zero : (a b : Ratio) → b.num ≡ 0 → div_whole a b ≡ err zero_division_error
unfolding div_whole
div_whole-zero a b h = ground arith

pub ltb_ℤ_irrefl : (a : ℤ) → ltb_ℤ a a ≡ false
ltb_ℤ_irrefl a = ground arith

pub ltb_ℤ_asymm : (a b : ℤ) → ltb_ℤ a b ≡ true → ltb_ℤ b a ≡ false
ltb_ℤ_asymm a b h = ground arith

pub ltb_ℤ_mono : (a b : ℤ) → a ≤ℤ b → ltb_ℤ b a ≡ false
ltb_ℤ_mono a b h = ground arith

pub ltb_ℤ_trans : (x a b : ℤ) → a ≤ℤ b → ltb_ℤ x a ≡ true → ltb_ℤ x b ≡ true
ltb_ℤ_trans x a b h k = ground arith

abbrev pub whole : Float
whole = record {
  Number = ℤ;
  lt = ltb_ℤ;
  of_ℤ = λ a. a;
  quotient = quotient_whole;
  add = ◌+ℤ◌;
  sub = ◌-ℤ◌;
  mul = ◌*ℤ◌;
  neg = λ a. pos 0 -ℤ a;
  log1p = λ a. a;
  div = div_whole;
  truncate = λ a. a;
  quotient_mono = quotient_whole_mono;
  lt_irrefl = ltb_ℤ_irrefl;
  lt_asymm = ltb_ℤ_asymm;
  of_ℤ_mono = ltb_ℤ_mono;
  lt_of_ℤ_mono = ltb_ℤ_trans;
  truncate-of_ℤ = λ a. refl;
  div-zero = div_whole-zero;
}
