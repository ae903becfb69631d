-- ===== src/Bytes/Values.antt =====
-- What is written of a number is read back.
use mutiny_net.Prelude.{
  ℕ, zero, suc, ◌-◌, ◌*◌, ◌/◌, ◌^◌, ◌<◌, ◌≤◌, ◌≡◌, refl, ap, ◌∙◌, sym, arith, List, length,
}
use mutiny_net.Prelude.Int.{ℤ, pos, negsuc}
use mutiny_net.Prelude.Result.{ok}
use mutiny_net.Bytes.{le_value, le_digits, to_bytes, to_bytes_signed, le_value_signed}
use native.Mathlib.Nat.{pow-suc}

pub length-le_digits : (n k : ℕ) → length (le_digits n k) ≡ n
unfolding le_digits
length-le_digits zero k = refl
length-le_digits (suc n) k = ap suc (length-le_digits n (k / 256))

pub le_value-le_digits : (n k : ℕ) → k < 256 ^ n → le_value (le_digits n k) ≡ k
unfolding le_value le_digits
le_value-le_digits zero k h = omega arith
le_value-le_digits (suc n) k h =
    omega (arith, le_value-le_digits n (k / 256) (omega (arith, pow-suc 256 n)))

-- A number that fits is written in so many bytes that mean it.
pub to_bytes-eq-ok :
    (n k : ℕ) (s : List ℕ) → to_bytes n k ≡ ok s → (length s ≡ n) × (le_value s ≡ k)
unfolding to_bytes
to_bytes-eq-ok n k s h =
    let (l, e) = fits h in
    (ap length (sym e) ∙ length-le_digits n k, ap le_value (sym e) ∙ le_value-le_digits n k l)
  where
    fits : to_bytes n k ≡ ok s → (k < 256 ^ n) × (le_digits n k ≡ s)
    fits h = ground arith

pub le_value_signed-pos :
    (n k : ℕ) (s : List ℕ) → le_value s ≡ k → 2 * k < 256 ^ n → le_value_signed n s ≡ pos k
unfolding le_value_signed
le_value_signed-pos n k s e h = ground arith

le_value_signed-negsuc :
    (n k : ℕ) (s : List ℕ)
    → le_value s ≡ 256 ^ n - suc k
    → 2 * suc k ≤ 256 ^ n
    → le_value_signed n s ≡ negsuc k
unfolding le_value_signed
le_value_signed-negsuc n k s e h = ground arith

pub to_bytes_signed-eq-ok :
    (n : ℕ) (k : ℤ) (s : List ℕ)
    → to_bytes_signed n k ≡ ok s
    → (length s ≡ n) × (le_value_signed n s ≡ k)
unfolding to_bytes_signed
to_bytes_signed-eq-ok n (pos k) s h =
    let (l, e) = fits h in
    (
      ap length (sym e) ∙ length-le_digits n k,
      le_value_signed-pos n k s (ap le_value (sym e) ∙ le_value-le_digits n k (omega arith)) l,
    )
  where
    fits : to_bytes_signed n (pos k) ≡ ok s → (2 * k < 256 ^ n) × (le_digits n k ≡ s)
    fits g = ground arith
to_bytes_signed-eq-ok n (negsuc k) s h =
    let (l, e) = fits h in
    (
      ap length (sym e) ∙ length-le_digits n (256 ^ n - suc k),
      le_value_signed-negsuc n k s
          (ap le_value (sym e) ∙ le_value-le_digits n (256 ^ n - suc k) (omega arith)) l,
    )
  where
    fits :
        to_bytes_signed n (negsuc k) ≡ ok s
        → (2 * suc k ≤ 256 ^ n) × (le_digits n (256 ^ n - suc k) ≡ s)
    fits g = ground arith
