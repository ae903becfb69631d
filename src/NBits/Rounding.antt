-- ===== src/NBits/Rounding.antt =====
-- What `target_to_nbits` does to a target: it is rounded up, by a relative error below 2 ^ -15, and
-- a target in canonical form comes back.
use mutiny_net.Prelude.{
  ℕ, zero, suc, ◌+◌, ◌-◌, ◌*◌, ◌/◌, ◌%◌, ◌^◌, ◌≤◌, ◌<◌, ◌≡◌, refl, ap, ◌∙◌, ◌⊎◌, inl, inr, arith,
  le→leb, length,
}
use mutiny_net.Hex.{hex_value, hex_padded}
use mutiny_net.Hex.Value.{hex_value-append}
use mutiny_net.Hex.Print.{hex_value-hex_padded, length-hex_padded}
use mutiny_net.NBits.{nbits_to_target, target_to_nbits, padded}
use mutiny_net.NBits.Padding.{padded-IsPadded}
use mutiny_net.NBits.Split.{
  leading, trailing, size, padded-IsSplit, rounded, rounded-cases, target_to_nbits-texts, size-ge,
}
use native.Mathlib.Decide.{dec_le}
use native.Mathlib.Nat.{pow-le-pow_right, pow-suc, mul-le-mul_right}

rounded-le : (t : ℕ) → rounded t ≤ 0x80_0000
rounded-le t = ground (arith, rounded-cases t, (padded-IsSplit t).positive)

-- The compact form is the number of bytes over the mantissa, which fits six digits.
pub target_to_nbits-parts : (t : ℕ) → target_to_nbits t ≡ size t * 2 ^ 24 + rounded t
target_to_nbits-parts t =
    target_to_nbits-texts t
    ∙ hex_value-append (hex_padded 2 (size t)) (hex_padded 6 (rounded t))
    ∙ omega (
      arith,
      hex_value-hex_padded 2 (size t),
      hex_value-hex_padded 6 (rounded t),
      ap (λ (n : ℕ). hex_value (hex_padded 2 (size t)) * 16 ^ n)
          (length-hex_padded 6 (rounded t) (omega arith) (omega (arith, rounded-le t))),
    )

size-le : (t : ℕ) → t < 2 ^ 2039 → size t ≤ 255
size-le t h = elim (dec_le (size t) 255) [
  | yes le ↦ le
  | no gt ↦
      let p = padded-IsPadded t in
      absurd (
        omega (
          arith,
          p.even,
          p.front (omega (arith, p.long)),
          pow-le-pow_right {n = 16} (omega arith) {i = 512} {j = length (padded t)}
              (omega (arith, p.even)),
        ))
]

bytes : (k : ℕ) → 16 ^ (2 * k) ≡ 2 ^ (8 * k)
bytes zero = refl
bytes (suc k) =
    let two : 2 * suc k ≡ suc (suc (2 * k)) = omega arith in
    let eight : 8 * suc k ≡ suc (suc (suc (suc (suc (suc (suc (suc (8 * k)))))))) = omega arith in
    rw (two, eight) (simp pow-suc (omega (arith, bytes k)))

-- With an exponent from 3 to 255 the compact form denotes an integer.
pub nbits-parts :
    (s m : ℕ)
    → 3 ≤ s
    → s ≤ 255
    → m < 2 ^ 24
    → nbits_to_target (s * 2 ^ 24 + m) ≡ record { num = m * 16 ^ (2 * (s - 3)); den = 1 }
unfolding nbits_to_target
nbits-parts s m lo hi fits =
    let e : (s * 2 ^ 24 + m) / 2 ^ 24 % 256 ≡ s = omega arith in
    let r : (s * 2 ^ 24 + m) % 2 ^ 24 ≡ m = omega arith in
    rw (e, r, le→leb 3 s lo, bytes (s - 3)) refl

-- The compact form of a target denotes the mantissa in units of 256 ^ (size - 3).
target-nbits :
    (t : ℕ)
    → t < 2 ^ 2039
    → nbits_to_target (target_to_nbits t)
      ≡ record { num = rounded t * 16 ^ (2 * (size t - 3)); den = 1 }
target-nbits t h =
    rw target_to_nbits-parts
      (nbits-parts (size t) (rounded t) (size-ge t) (size-le t h) (omega (arith, rounded-le t)))

-- For a target below 2^2039 the compact form denotes an integer, which is the target or lies
-- above it by at most one part in 2^15.
pub target_rounds_up :
    (t : ℕ)
    → t < 2 ^ 2039
    → ((nbits_to_target (target_to_nbits t)).den ≡ 1)
      × (t ≤ (nbits_to_target (target_to_nbits t)).num)
      × (2 ^ 15 * (nbits_to_target (target_to_nbits t)).num ≤ (2 ^ 15 + 1) * t)
target_rounds_up t h = rw (target-nbits t h) (let b = bounds (rounded-cases t) in (refl, b.0, b.1))
  where
    q : ℕ
    q = 16 ^ (2 * (size t - 3))

    bounds :
        ((rounded t ≡ leading t) × (trailing t ≡ 0))
          ⊎ ((rounded t ≡ leading t + 1) × (1 ≤ trailing t))
        → (t ≤ rounded t * q) × (2 ^ 15 * (rounded t * q) ≤ (2 ^ 15 + 1) * t)
    bounds (inl (e, z)) = omega (arith, ap (λ (m : ℕ). m * q) e, (padded-IsSplit t).parts)
    bounds (inr (e, z)) = omega (
      arith,
      ap (λ (m : ℕ). m * q) e,
      (padded-IsSplit t).parts,
      (padded-IsSplit t).below,
      unit_bound (size t - 3) refl,
    )
      where
        unit_bound : (k : ℕ) → size t - 3 ≡ k → 2 ^ 15 * q ≤ leading t * q
        unit_bound zero k =
            absurd (omega (arith, (padded-IsSplit t).below, ap (λ (n : ℕ). 16 ^ (2 * n)) k))
        unit_bound (suc n) k = mul-le-mul_right q ((padded-IsSplit t).precise (omega arith))
