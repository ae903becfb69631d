-- ===== src/Hex/Print.antt =====
-- Printing a number in hexadecimal, and reading it back.
use mutiny_net.Prelude.{
  ℕ, zero, suc, ◌-◌, ◌*◌, ◌/◌, ◌%◌, ◌^◌, ◌≤◌, ◌<◌, ◌≡◌, ap, inl, inr, arith, Bool-cases, ltb, List,
  [], ◌∷◌, length, replicate, length-append, length-replicate,
}
use mutiny_net.Hex.{value_from, hex_value, hex_loop, hex_digits, hex_padded}
use mutiny_net.Hex.Value.{IsDigits, hex_value-append, hex_value-zeros}
use native.Mathlib.Nat.{pow-suc, le_refl, zero-add, mul-le-mul_right, pow-le-pow_right}
use native.Mathlib.Decide.{dec_le}

hex_loop-value :
    (fuel n : ℕ) (acc : List ℕ) → n ≤ fuel → value_from 0 (hex_loop fuel n acc) ≡ value_from n acc
unfolding hex_loop
hex_loop-value zero n acc h = ap (λ (t : ℕ). value_from t acc) (zero-add n)
hex_loop-value (suc fuel) n acc h = ground (arith, hex_loop-value fuel (n / 16) (n % 16 ∷ acc))

hex_loop-IsDigits :
    (fuel n : ℕ) (acc : List ℕ) → n ≤ fuel → IsDigits acc → IsDigits (hex_loop fuel n acc)
unfolding hex_loop
hex_loop-IsDigits zero n acc h k = (omega arith, k)
hex_loop-IsDigits (suc fuel) n acc h k =
    ground (arith, hex_loop-IsDigits fuel (n / 16) (n % 16 ∷ acc))

hex_loop-length :
    (fuel n : ℕ) (acc : List ℕ)
    → 1 ≤ n
    → n ≤ fuel
    → 16 ^ length (hex_loop fuel n acc) ≤ n * (16 * 16 ^ length acc)
unfolding hex_loop
hex_loop-length zero n acc h k = absurd (omega arith)
hex_loop-length (suc fuel) n acc h k =
    let p : ℕ = 16 ^ length acc in
    elim (Bool-cases (ltb n 16)) [
      | inl last ↦ rw last (omega (arith, pow-suc 16 (length acc), mul-le-mul_right (16 * p) h))
      | inr more ↦ rw more (
          omega (
            arith,
            mul-le-mul_right {m = n / 16 * 16} {n = n} (16 * p) (omega arith),
            ap (λ (t : ℕ). n / 16 * (16 * t)) (pow-suc 16 (length acc)),
            hex_loop-length fuel (n / 16) (n % 16 ∷ acc) (ground arith) (omega arith),
          ))
    ]

-- `int("{0:x}".format(n), 16)` is `n`.
pub hex_value-hex_digits : (n : ℕ) → hex_value (hex_digits n) ≡ n
unfolding hex_value hex_digits
hex_value-hex_digits n = hex_loop-value n n [] (le_refl n)

pub hex_digits-IsDigits : (n : ℕ) → IsDigits (hex_digits n)
unfolding hex_digits
hex_digits-IsDigits n = hex_loop-IsDigits n n [] (le_refl n) tt

-- No zero stands in front.
pub hex_digits-length : (n : ℕ) → 1 ≤ n → 16 ^ length (hex_digits n) ≤ 16 * n
unfolding hex_digits
hex_digits-length n h = omega (arith, hex_loop-length n n [] h (le_refl n))

pub hex_value-hex_padded : (w n : ℕ) → hex_value (hex_padded w n) ≡ n
unfolding hex_padded
hex_value-hex_padded w n = omega (
  arith,
  ap (λ (t : ℕ). t * 16 ^ length (hex_digits n)) (hex_value-zeros (w - length (hex_digits n))),
  hex_value-append (replicate (w - length (hex_digits n)) 0) (hex_digits n),
  hex_value-zeros (w - length (hex_digits n)),
  hex_value-hex_digits n,
)

hex_digits-length-le : (w n : ℕ) → 1 ≤ w → n < 16 ^ w → length (hex_digits n) ≤ w
hex_digits-length-le w zero h lt = unfold hex_digits hex_loop in omega arith
hex_digits-length-le w (suc n) h lt = elim (dec_le (length (hex_digits (suc n))) w) [
  | yes le ↦ le
  | no gt ↦ absurd (
      omega (
        arith,
        hex_digits-length (suc n) (omega arith),
        pow-suc 16 w,
        pow-le-pow_right {n = 16} (omega arith) {i = suc w} {j = length (hex_digits (suc n))}
            (omega arith),
      ))
]

-- A number that fits the width fills it.
pub length-hex_padded : (w n : ℕ) → 1 ≤ w → n < 16 ^ w → length (hex_padded w n) ≡ w
unfolding hex_padded
length-hex_padded w n h lt = omega (
  arith,
  length-append (replicate (w - length (hex_digits n)) 0) (hex_digits n),
  length-replicate {A = ℕ} (w - length (hex_digits n)) 0,
  hex_digits-length-le w n h lt,
)
