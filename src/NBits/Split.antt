-- ===== src/NBits/Split.antt =====
-- The first six digits of a padded text and the digits behind them.
use mutiny_net.Prelude.{
  ℕ, zero, suc, ◌+◌, ◌-◌, ◌*◌, ◌/◌, ◌^◌, ◌≤◌, ◌<◌, ◌≡◌, refl, ap, sym, ◌∙◌, ◌⊎◌, inl, inr, arith,
  true, false, List, [], ◌∷◌, ◌++◌, length, get_or, take, drop, replicate, Bool-cases,
  take-append-drop, length-take, length-drop,
}
use mutiny_net.Hex.{hex_value, hex_padded}
use mutiny_net.Hex.Value.{IsDigits, hex_value-append, hex_value-lt, hex_value-zeros}
use mutiny_net.NBits.{eq_digits, round_up, padded, target_to_nbits}
use mutiny_net.NBits.Padding.{IsPadded, padded-IsPadded, first_digit}
use native.Mathlib.Nat.{pow-suc, mul-le-mul_right, one-le-pow, lt_of_mul-lt-mul_right}

eq_digits→eq : (s t : List ℕ) → eq_digits s t ≡ true → s ≡ t
unfolding eq_digits
eq_digits→eq [] [] h = refl
eq_digits→eq [] (b ∷ t) h = cc
eq_digits→eq (a ∷ s) [] h = cc
eq_digits→eq (a ∷ s) (b ∷ t) h = ground (arith, eq_digits→eq s t)

-- Digits that are not all zero have a positive value.
not_zeros : (s : List ℕ) → eq_digits s (replicate (length s) 0) ≡ false → 1 ≤ hex_value s
unfolding eq_digits
not_zeros [] h = cc
not_zeros (zero ∷ s) h = omega (arith, first_digit 0 s, not_zeros s h)
not_zeros (suc a ∷ s) h = omega (
  arith,
  first_digit (suc a) s,
  one-le-pow (length s) 16 (omega arith),
  mul-le-mul_right {m = 1} {n = suc a} (16 ^ length s) (omega arith),
)

IsDigits-take : (n : ℕ) (ds : List ℕ) → IsDigits ds → IsDigits (take n ds)
IsDigits-take zero ds h = tt
IsDigits-take (suc n) [] h = tt
IsDigits-take (suc n) (d ∷ ds) (hd, h) = (hd, IsDigits-take n ds h)

IsDigits-drop : (n : ℕ) (ds : List ℕ) → IsDigits ds → IsDigits (drop n ds)
IsDigits-drop zero ds h = h
IsDigits-drop (suc n) [] h = tt
IsDigits-drop (suc n) (d ∷ ds) (hd, h) = IsDigits-drop n ds h

-- `t` is `fix` units of 256 ^ k and a rest below one unit.
pub record IsSplit (t fix k rest : ℕ) : Type 0 where
  pub parts : t ≡ fix * 16 ^ (2 * k) + rest
  pub below : rest < 16 ^ (2 * k)
  pub positive : fix < 0x80_0000
  pub precise : 1 ≤ k → 0x8000 ≤ fix

abbrev pub leading : ℕ → ℕ
leading t = hex_value (take 6 (padded t))

abbrev pub trailing : ℕ → ℕ
trailing t = hex_value (drop 6 (padded t))

-- The number of bytes of the padded text.
abbrev pub size : ℕ → ℕ
size t = length (padded t) / 2

module _ (t : ℕ) (ds : List ℕ) (p : IsPadded t ds) where
  behind : length (drop 6 ds) ≡ length ds / 2 * 2 - 6
  behind = omega (arith, length-drop 6 ds, p.even, p.long)

  units : length (drop 6 ds) ≡ 2 * (length ds / 2 - 3)
  units = omega (arith, behind, p.long, p.even)

  whole : t ≡ hex_value (take 6 ds) * 16 ^ length (drop 6 ds) + hex_value (drop 6 ds)
  whole =
      sym p.value
      ∙ ap hex_value (sym (take-append-drop 6 ds))
      ∙ hex_value-append (take 6 ds) (drop 6 ds)

  leading-lt : hex_value (take 6 ds) < 0x80_0000
  leading-lt = lead ds p.long p.digits p.first
    where
      lead :
          (ds : List ℕ)
          → 6 ≤ length ds
          → IsDigits ds
          → get_or ds 0 0 < 8
          → hex_value (take 6 ds) < 0x80_0000
      lead [] l d f = absurd (omega arith)
      lead (a ∷ ds) l (da, d) f =
          let five : length (take 5 ds) ≡ 5 = omega (arith, length-take 5 ds) in
          omega (
            arith,
            first_digit a (take 5 ds),
            hex_value-lt (take 5 ds) (IsDigits-take 5 ds d),
            ap (λ (n : ℕ). 16 ^ n) five,
            ap (λ (n : ℕ). a * 16 ^ n) five,
          )

  rest-lt : hex_value (drop 6 ds) < 16 ^ length (drop 6 ds)
  rest-lt = hex_value-lt (drop 6 ds) (IsDigits-drop 6 ds p.digits)

  leading-ge : 6 < length ds → 0x8000 ≤ hex_value (take 6 ds)
  leading-ge l =
      let n : ℕ = length (drop 6 ds) in
      let q : ℕ = 16 ^ n in
      let six : length ds ≡ suc (suc (suc (suc (suc (suc n))))) = omega (arith, length-drop 6 ds) in
      let power : 16 ^ length ds ≡ 0x100_0000 * q =
        ap (λ (k : ℕ). 16 ^ k) six ∙ omega (arith, sixth n) in
      lt_of_mul-lt-mul_right q {m = 0x7fff} (omega (arith, power, p.front l, whole, rest-lt))
    where
      sixth : (n : ℕ) → 16 ^ suc (suc (suc (suc (suc (suc n))))) ≡ 0x100_0000 * 16 ^ n
      sixth n = simp pow-suc (omega arith)

  split : IsSplit t (hex_value (take 6 ds)) (length ds / 2 - 3) (hex_value (drop 6 ds))
  split = record {
    parts =
        rw (ap (λ (n : ℕ). hex_value (take 6 ds) * 16 ^ n + hex_value (drop 6 ds)) (sym units))
          whole;
    below = rw (sym units) rest-lt;
    positive = leading-lt;
    precise = λ h. leading-ge (omega (arith, p.long));
  }

  -- The mantissa is the first six digits, one more exactly if something stands behind them.
  rounding :
      ((round_up ds ≡ hex_value (take 6 ds)) × (hex_value (drop 6 ds) ≡ 0))
      ⊎ ((round_up ds ≡ hex_value (take 6 ds) + 1) × (1 ≤ hex_value (drop 6 ds)))
  unfolding round_up
  rounding =
      let zeros : List ℕ = replicate (length (drop 6 ds)) 0 in
      elim (Bool-cases (eq_digits (drop 6 ds) zeros)) [
        | inl e ↦ inl (
          rw (← behind, e) refl,
          ap hex_value (eq_digits→eq (drop 6 ds) zeros e) ∙ hex_value-zeros (length (drop 6 ds)),
        )
        | inr e ↦ inr (rw (← behind, e) refl, not_zeros (drop 6 ds) e)
      ]

-- The split of the text that `target_to_nbits` makes.
pub padded-IsSplit : (t : ℕ) → IsSplit t (leading t) (size t - 3) (trailing t)
padded-IsSplit t = split t (padded t) (padded-IsPadded t)

-- The mantissa that `target_to_nbits` makes.
pub rounded : ℕ → ℕ
rounded t = round_up (padded t)

pub target_to_nbits-texts :
    (t : ℕ) → target_to_nbits t ≡ hex_value (hex_padded 2 (size t) ++ hex_padded 6 (rounded t))
unfolding target_to_nbits rounded
target_to_nbits-texts t = refl

pub rounded-cases :
    (t : ℕ)
    → ((rounded t ≡ leading t) × (trailing t ≡ 0))
      ⊎ ((rounded t ≡ leading t + 1) × (1 ≤ trailing t))
unfolding rounded
rounded-cases t = rounding t (padded t) (padded-IsPadded t)

pub size-ge : (t : ℕ) → 3 ≤ size t
size-ge t = let p = padded-IsPadded t in omega (arith, p.long)
