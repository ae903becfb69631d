-- ===== src/NBits/Canonical.antt =====
-- Compact forms that `target_to_nbits` gives back, and the targets that it gives a sign bit.
use mutiny_net.Prelude.{ℕ, suc, ◌+◌, ◌-◌, ◌*◌, ◌^◌, ◌≤◌, ◌<◌, ◌≡◌, refl, ap, sym, ◌∙◌, arith}
use mutiny_net.NBits.{shift, mantissa, nbits_to_target, target_to_nbits}
use mutiny_net.NBits.Split.{
  IsSplit, leading, trailing, size, padded-IsSplit, rounded-cases, size-ge,
}
use mutiny_net.NBits.Rounding.{target_to_nbits-parts, nbits-parts}
use native.Mathlib.Decide.{dec_lt}
use native.Mathlib.Nat.{pow-suc, mul-le-mul_right, pow-le-pow_right, one-le-pow}

-- With a longer rest behind it the leading part would be too large.
shorter_absurd : (t f k r f' k' r' : ℕ) → IsSplit t f k r → IsSplit t f' k' r' → k < k' → ⊥
shorter_absurd t f k r f' k' r' s s' lt =
    let q : ℕ = 16 ^ (2 * k) in
    let step : 16 ^ suc (suc (2 * k)) ≤ 16 ^ (2 * k') =
      pow-le-pow_right (omega arith) (omega arith) in
    let wide : 256 * q ≤ 16 ^ (2 * k') =
      omega (arith, step, pow-suc 16 (suc (2 * k)), pow-suc 16 (2 * k)) in
    omega (
      arith,
      s.parts,
      s'.parts,
      s.below,
      mul-le-mul_right q s.positive,
      mul-le-mul_right (16 ^ (2 * k')) (s'.precise (omega arith)),
      wide,
    )

same_unit : (f r f' r' q : ℕ) → f * q + r ≡ f' * q + r' → r < q → r' < q → (f ≡ f') × (r ≡ r')
same_unit f r f' r' q e h h' = elim (dec_lt f f') [
  | yes lt ↦ absurd (omega (arith, mul-le-mul_right q lt))
  | no ge ↦ elim (dec_lt f' f) [
    | yes lt ↦ absurd (omega (arith, mul-le-mul_right q lt))
    | no ge' ↦ let same : f ≡ f' = omega arith in (same, omega (arith, ap (λ (n : ℕ). n * q) same))
  ]
]

-- A number has one split.
split_unique :
    (t f k r f' k' r' : ℕ) → IsSplit t f k r → IsSplit t f' k' r' → (f ≡ f') × (k ≡ k') × (r ≡ r')
split_unique t f k r f' k' r' s s' = elim (dec_lt k k') [
  | yes lt ↦ absurd (shorter_absurd t f k r f' k' r' s s' lt)
  | no ge ↦ elim (dec_lt k' k) [
    | yes lt ↦ absurd (shorter_absurd t f' k' r' f k r s' s lt)
    | no ge' ↦
        let e : k ≡ k' = omega arith in
        let (p, q) =
          same_unit f r f' r' (16 ^ (2 * k))
            (sym s.parts ∙ s'.parts ∙ ap (λ (n : ℕ). f' * 16 ^ (2 * n) + r') (sym e)) s.below
            (omega (arith, s'.below, ap (λ (n : ℕ). 16 ^ (2 * n)) e)) in
        (p, e, q)
  ]
]

-- 32 bits, an exponent of three or more, the sign bit clear, and no leading zero byte unless the
-- exponent is three.
pub record IsCanonical (nbits : ℕ) : Type 0 where
  pub word : nbits < 2 ^ 32
  pub exponent : 3 ≤ shift nbits
  pub positive : mantissa nbits < 0x80_0000
  pub minimal : 4 ≤ shift nbits → 0x8000 ≤ mantissa nbits

module _ (nbits : ℕ) (c : IsCanonical nbits) where
  whole : nbits ≡ shift nbits * 2 ^ 24 + mantissa nbits
  whole = omega (arith, c.word)

  target :
      nbits_to_target nbits
      ≡ record { num = mantissa nbits * 16 ^ (2 * (shift nbits - 3)); den = 1 }
  target =
      ap nbits_to_target whole
      ∙ nbits-parts (shift nbits) (mantissa nbits) c.exponent (omega arith) (omega arith)

  canonical-IsSplit : IsSplit (nbits_to_target nbits).num (mantissa nbits) (shift nbits - 3) 0
  canonical-IsSplit = rw target (record {
    parts = omega arith;
    below = one-le-pow (2 * (shift nbits - 3)) 16 (omega arith);
    positive = c.positive;
    precise = λ h. c.minimal (omega arith);
  })

  -- A canonical compact form comes back from its target: a number of 32 bits with an exponent of three
  -- or more and a clear sign bit, whose mantissa is 0x8000 or more if the exponent is above three.
  pub target_to_nbits-nbits_to_target : target_to_nbits (nbits_to_target nbits).num ≡ nbits
  target_to_nbits-nbits_to_target =
      let t : ℕ = (nbits_to_target nbits).num in
      let u =
        split_unique t (mantissa nbits) (shift nbits - 3) 0 (leading t) (size t - 3) (trailing t)
          canonical-IsSplit (padded-IsSplit t) in
      omega (
        arith,
        target_to_nbits-parts t,
        rounded-cases t,
        size-ge t,
        c.exponent,
        whole,
        u.0,
        u.1,
        u.2,
      )

-- A target whose first 23 significant bits are all ones and that has more bits behind them is
-- rounded up into the sign bit of the mantissa.
pub target_to_nbits-sign :
    (k r : ℕ)
    → 1 ≤ k
    → 1 ≤ r
    → r < 16 ^ (2 * k)
    → mantissa (target_to_nbits (0x7f_ffff * 16 ^ (2 * k) + r)) ≡ 0x80_0000
target_to_nbits-sign k r hk hr lt =
    let t : ℕ = 0x7f_ffff * 16 ^ (2 * k) + r in
    let s : IsSplit t 0x7f_ffff k r = record {
      parts = refl;
      below = lt;
      positive = omega arith;
      precise = λ _. omega arith;
    } in
    let u =
      split_unique t 0x7f_ffff k r (leading t) (size t - 3) (trailing t) s (padded-IsSplit t) in
    omega (arith, target_to_nbits-parts t, rounded-cases t, u.0, u.1, u.2)
