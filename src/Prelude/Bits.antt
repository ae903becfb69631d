-- ===== src/Prelude/Bits.antt =====
-- `|` of disjoint bit fields is a sum, at every width.
use Prim.Native.Nat.{digits, differ, bit_or-bitwise}
use native.Mathlib.Nat.{pow-suc, le_refl}
use Prim.Native.Nat.{
  ℕ, zero, suc, ◌+◌, ◌*◌, ◌/◌, ◌%◌, ◌^◌, ◌≤◌, ◌<◌, bit_or, bit_xor, bit_xor-bitwise, max,
}
use mathlib.Core.Path.{◌≡◌, refl, sym, subst, ap, ◌∙◌}
use native.Mathlib.Omega.{arith}

-- The high number ends in `k` zero bits and the low one fits them; `n` bounds the digits to go.
or_disjoint :
    (n k q a b : ℕ) → a ≡ q * 2 ^ k → b < 2 ^ k → a ≤ n → digits (λ y. y) max n a b ≡ a + b
or_disjoint zero k q a b e h le = omega arith
or_disjoint (suc n) k q zero b e h le = omega arith
or_disjoint (suc n) zero q (suc a) b e h le = omega (
  arith,
  or_disjoint n zero (suc a / 2) (suc a / 2) (b / 2) (omega arith) (omega arith) (omega arith),
)
or_disjoint (suc n) (suc k) q (suc a) b e h le = omega (
  arith,
  even,
  or_disjoint n k q (suc a / 2) (b / 2) (omega (arith, even)) (omega (arith, pow-suc 2 k))
      (omega arith),
)
  where
    even : suc a ≡ 2 * (q * 2 ^ k)
    even = e ∙ omega (arith, ap (λ (t : ℕ). q * t) (pow-suc 2 k))

pub bit_or-disjoint : (k q b : ℕ) → b < 2 ^ k → bit_or (q * 2 ^ k) b ≡ q * 2 ^ k + b
bit_or-disjoint k q b h =
    bit_or-bitwise (q * 2 ^ k) b ∙ or_disjoint (q * 2 ^ k) k q (q * 2 ^ k) b refl h (le_refl _)

-- A number of `k` binary digits combines with another into one of `k` digits.
digits_lt :
    (f : ℕ → ℕ → ℕ)
    → ((x y : ℕ) → x < 2 → y < 2 → f x y < 2)
    → (n k a b : ℕ) → a < 2 ^ k
    → b < 2 ^ k
    → digits (λ y. y) f n a b < 2 ^ k
digits_lt f d zero k a b p q = q
digits_lt f d (suc n) k zero b p q = q
digits_lt f d (suc n) zero (suc a) b p q = absurd (omega arith)
digits_lt f d (suc n) (suc k) (suc a) b p q = omega (
  arith,
  pow-suc 2 k,
  d (suc a % 2) (b % 2) (omega arith) (omega arith),
  digits_lt f d n k (suc a / 2) (b / 2) (omega (arith, pow-suc 2 k)) (omega (arith, pow-suc 2 k)),
)

differ_lt : (x y : ℕ) → x < 2 → y < 2 → differ x y < 2
differ_lt zero y p q = q
differ_lt (suc x) zero p q = p
differ_lt (suc x) (suc y) p q = differ_lt x y (omega arith) (omega arith)

pub bit_xor-lt : (k a b : ℕ) → a < 2 ^ k → b < 2 ^ k → bit_xor a b < 2 ^ k
bit_xor-lt k a b p q =
    subst (λ (n : ℕ). n < 2 ^ k) (sym (bit_xor-bitwise a b))
      (digits_lt differ differ_lt a k a b p q)

pub bit_or-lt : (k a b : ℕ) → a < 2 ^ k → b < 2 ^ k → bit_or a b < 2 ^ k
bit_or-lt k a b p q =
    subst (λ (n : ℕ). n < 2 ^ k) (sym (bit_or-bitwise a b))
      (digits_lt max (λ x y h g. omega arith) a k a b p q)
