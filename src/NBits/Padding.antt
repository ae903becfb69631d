-- ===== src/NBits/Padding.antt =====
-- What the three paddings of `target_to_nbits` leave.
use mutiny_net.Prelude.{
  ℕ, zero, suc, ◌+◌, ◌*◌, ◌%◌, ◌^◌, ◌≤◌, ◌<◌, ◌≡◌, refl, ◌∙◌, ◌⊎◌, inl, inr, arith, List, [], ◌∷◌,
  length, get_or, Bool-cases, leb, ◌==◌,
}
use mutiny_net.Hex.{hex_value, hex_digits}
use mutiny_net.Hex.Value.{IsDigits, hex_value-append}
use mutiny_net.Hex.Print.{hex_value-hex_digits, hex_digits-IsDigits, hex_digits-length}
use mutiny_net.NBits.{pad_six, pad_even, pad_sign, padded}
use native.Mathlib.Nat.{pow-suc, mul-le-mul_right}

-- A zero in front changes no value.
zero_in_front : (ds : List ℕ) → hex_value (0 ∷ ds) ≡ hex_value ds
unfolding hex_value
zero_in_front ds = refl

-- The first digit counts for the power of sixteen of the digits behind it.
pub first_digit : (d : ℕ) (ds : List ℕ) → hex_value (d ∷ ds) ≡ d * 16 ^ length ds + hex_value ds
unfolding hex_value
first_digit d ds = omega (arith, hex_value-append (d ∷ []) ds, one_digit d)
  where
    one_digit : (d : ℕ) → hex_value (d ∷ []) ≡ d
    one_digit d = unfold hex_value in omega arith

-- The text still denotes `t`, has six digits or more, and six only if the first is a zero that
-- was put in front; otherwise no zero stands in front.
pub record IsSix (t : ℕ) (ds : List ℕ) : Type 0 where
  pub value : hex_value ds ≡ t
  pub digits : IsDigits ds
  pub long : 6 ≤ length ds
  pub front : ((length ds ≡ 6) × (get_or ds 0 0 ≡ 0)) ⊎ (16 ^ length ds ≤ 16 * t)

-- The text denotes `t`; it has an even number of digits, at least six, and the first is below
-- eight. With more than six digits the first six are at least 0x8000.
pub record IsPadded (t : ℕ) (ds : List ℕ) : Type 0 where
  pub value : hex_value ds ≡ t
  pub digits : IsDigits ds
  pub long : 6 ≤ length ds
  pub even : length ds % 2 ≡ 0
  pub first : get_or ds 0 0 < 8
  pub front : 6 < length ds → 16 ^ length ds ≤ 512 * t

IsSix-of :
    {t : ℕ} {ds : List ℕ}
    → hex_value ds ≡ t
    → IsDigits ds
    → length ds ≡ 6
    → get_or ds 0 0 ≡ 0
    → IsSix t ds
IsSix-of v d l z = record { value = v; digits = d; long = omega arith; front = inl (l, z) }

pad_six-long : (ds : List ℕ) → 6 ≤ length ds → pad_six ds ≡ ds
unfolding pad_six
pad_six-long ds h = ground arith

pad_six-IsSix :
    (t : ℕ) (ds : List ℕ)
    → hex_value ds ≡ t
    → IsDigits ds
    → (6 ≤ length ds → 16 ^ length ds ≤ 16 * t)
    → IsSix t (pad_six ds)
unfolding pad_six hex_value
pad_six-IsSix t [] v d l = IsSix-of v (omega arith) refl refl
pad_six-IsSix t (a ∷ []) v d l = IsSix-of v (omega arith) refl refl
pad_six-IsSix t (a ∷ b ∷ []) v d l = IsSix-of v (omega arith) refl refl
pad_six-IsSix t (a ∷ b ∷ c ∷ []) v d l = IsSix-of v (omega arith) refl refl
pad_six-IsSix t (a ∷ b ∷ c ∷ e ∷ []) v d l = IsSix-of v (omega arith) refl refl
pad_six-IsSix t (a ∷ b ∷ c ∷ e ∷ f ∷ []) v d l = IsSix-of v (omega arith) refl refl
pad_six-IsSix t (a ∷ b ∷ c ∷ e ∷ f ∷ g ∷ ds) v d l =
    rw (pad_six-long (a ∷ b ∷ c ∷ e ∷ f ∷ g ∷ ds) (omega arith))
      (record { value = v; digits = d; long = omega arith; front = inr (l (omega arith)) })

-- After the second padding: an even length; what was known of the front holds for two digits more.
record IsEven (t : ℕ) (ds : List ℕ) : Type 0 where
  value : hex_value ds ≡ t
  digits : IsDigits ds
  long : 6 ≤ length ds
  even : length ds % 2 ≡ 0
  front : ((length ds ≡ 6) × (get_or ds 0 0 ≡ 0)) ⊎ (16 ^ length ds ≤ 256 * t)

pad_even-IsEven : {t : ℕ} (ds : List ℕ) → IsSix t ds → IsEven t (pad_even ds)
unfolding pad_even
pad_even-IsEven {t} ds s = elim (Bool-cases (length ds % 2 == 0)) [
  | inl e ↦ rw e (record {
    value = s.value;
    digits = s.digits;
    long = s.long;
    even = ground arith;
    front = front s.front;
  })
  | inr e ↦ rw e (record {
    value = zero_in_front ds ∙ s.value;
    digits = (omega arith, s.digits);
    long = omega (arith, s.long);
    even = ground arith;
    front = odd s.front (ground arith);
  })
]
  where
    front :
        ((length ds ≡ 6) × (get_or ds 0 0 ≡ 0)) ⊎ (16 ^ length ds ≤ 16 * t)
        → ((length ds ≡ 6) × (get_or ds 0 0 ≡ 0)) ⊎ (16 ^ length ds ≤ 256 * t)
    front (inl p) = inl p
    front (inr h) = inr (omega arith)

    odd :
        ((length ds ≡ 6) × (get_or ds 0 0 ≡ 0)) ⊎ (16 ^ length ds ≤ 16 * t)
        → length ds % 2 ≡ 1
        → ((suc (length ds) ≡ 6) × (◌≡◌ {A = ℕ} 0 0)) ⊎ (16 ^ suc (length ds) ≤ 256 * t)
    odd (inl (p, q)) o = absurd (omega arith)
    odd (inr h) o = inr (omega (arith, pow-suc 16 (length ds)))

pad_sign-IsPadded : {t : ℕ} (ds : List ℕ) → IsEven t ds → IsPadded t (pad_sign ds)
unfolding pad_sign
pad_sign-IsPadded [] s = absurd (omega (arith, s.long))
pad_sign-IsPadded {t} (d ∷ ds) s = elim (Bool-cases (leb 8 d)) [
  | inr e ↦ rw e (record {
    value = s.value;
    digits = s.digits;
    long = s.long;
    even = s.even;
    first = ground arith;
    front = λ h. plain s.front h;
  })
  | inl e ↦ rw e (record {
    value = zero_in_front (0 ∷ d ∷ ds) ∙ zero_in_front (d ∷ ds) ∙ s.value;
    digits = (omega arith, (omega arith, s.digits));
    long = omega (arith, s.long);
    even = omega (arith, s.even);
    first = omega arith;
    front = λ _. signed (ground arith);
  })
]
  where
    plain :
        ((length (d ∷ ds) ≡ 6) × (d ≡ 0)) ⊎ (16 ^ length (d ∷ ds) ≤ 256 * t)
        → 6 < length (d ∷ ds)
        → 16 ^ length (d ∷ ds) ≤ 512 * t
    plain (inl (p, q)) h = absurd (omega arith)
    plain (inr k) h = omega arith

    signed : 8 ≤ d → 16 ^ suc (suc (suc (length ds))) ≤ 512 * t
    signed h =
        let q : ℕ = 16 ^ length ds in
        omega (
          arith,
          pow-suc 16 (suc (suc (length ds))),
          pow-suc 16 (suc (length ds)),
          pow-suc 16 (length ds),
          first_digit d ds,
          s.value,
          mul-le-mul_right q h,
        )

pub padded-IsPadded : (t : ℕ) → IsPadded t (padded t)
unfolding padded
padded-IsPadded t = pad_sign-IsPadded _ (
    pad_even-IsEven _
      (pad_six-IsSix t (hex_digits t) (hex_value-hex_digits t) (hex_digits-IsDigits t) (long t)))
  where
    long : (n : ℕ) → 6 ≤ length (hex_digits n) → 16 ^ length (hex_digits n) ≤ 16 * n
    long zero h = absurd (omega arith)
    long (suc n) h = hex_digits-length (suc n) (omega arith)
