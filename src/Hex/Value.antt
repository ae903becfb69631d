-- ===== src/Hex/Value.antt =====
-- The value of a text of hexadecimal digits.
use mutiny_net.Prelude.{
  ℕ, zero, suc, ◌+◌, ◌*◌, ◌^◌, ◌<◌, ◌≡◌, refl, ap, ◌∙◌, arith, List, [], ◌∷◌, ◌++◌, length,
  replicate,
}
use mutiny_net.Hex.{value_from, hex_value}
use native.Mathlib.Nat.{pow-suc}

abbrev pub IsDigits : List ℕ → Type 0
IsDigits [] = Unit
IsDigits (d ∷ ds) = (d < 16) × IsDigits ds

scale_step : (acc n : ℕ) → acc * 16 ^ suc n ≡ 16 * (acc * 16 ^ n)
scale_step acc n = omega (arith, ap (λ (t : ℕ). acc * t) (pow-suc 16 n))

pub value_from-scale :
    (acc : ℕ) (ds : List ℕ) → value_from acc ds ≡ acc * 16 ^ length ds + value_from 0 ds
value_from-scale acc [] = omega arith
value_from-scale acc (d ∷ ds) = omega (
  arith,
  value_from-scale (acc * 16 + d) ds,
  value_from-scale (0 * 16 + d) ds,
  scale_step acc (length ds),
)

value_from-append :
    (acc : ℕ) (xs ys : List ℕ) → value_from acc (xs ++ ys) ≡ value_from (value_from acc xs) ys
value_from-append acc [] ys = refl
value_from-append acc (x ∷ xs) ys = value_from-append (acc * 16 + x) xs ys

-- The digits in front count for one power of sixteen each digit behind them.
pub hex_value-append :
    (xs ys : List ℕ) → hex_value (xs ++ ys) ≡ hex_value xs * 16 ^ length ys + hex_value ys
unfolding hex_value
hex_value-append xs ys = value_from-append 0 xs ys ∙ value_from-scale (value_from 0 xs) ys

pub hex_value-lt : (ds : List ℕ) → IsDigits ds → hex_value ds < 16 ^ length ds
unfolding hex_value
hex_value-lt [] h = omega arith
hex_value-lt (d ∷ ds) (hd, hds) =
    grind (arith, value_from-scale (0 * 16 + d) ds, hex_value-lt ds hds, pow-suc 16 (length ds))

pub hex_value-zeros : (n : ℕ) → hex_value (replicate n 0) ≡ 0
unfolding hex_value
hex_value-zeros zero = refl
hex_value-zeros (suc n) = hex_value-zeros n

pub IsDigits-append : (xs ys : List ℕ) → IsDigits xs → IsDigits ys → IsDigits (xs ++ ys)
IsDigits-append [] ys h k = k
IsDigits-append (x ∷ xs) ys (hx, h) k = (hx, IsDigits-append xs ys h k)

pub IsDigits-zeros : (n : ℕ) → IsDigits (replicate n 0)
IsDigits-zeros zero = tt
IsDigits-zeros (suc n) = (omega arith, IsDigits-zeros n)
