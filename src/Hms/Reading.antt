-- ===== src/Hms/Reading.antt =====
-- Reading the text of a duration back.
use mutiny_net.Prelude.{
  ℕ, zero, suc, ◌+◌, ◌-◌, ◌*◌, ◌/◌, ◌%◌, ◌≤◌, ◌<◌, ◌≡◌, refl, ap, sym, ◌∙◌, arith, List, [], ◌∷◌,
  ◌++◌, Bool, true, false, ltb, lt→ltb, ◌==◌, if◌then◌else◌, length, inl, inr, Bool-cases, leb,
  ◌&&◌,
}
use mutiny_net.Prelude.Int.{ℤ, pos, negsuc, pos_part, neg_part, ltb_ℤ}
use mutiny_net.Decimal.{dec_from, dec_value, dec_digits}
use mutiny_net.Decimal.Print.{
  AllDigits, dec_value-dec_digits, dec_digits-AllDigits, length-dec_digits,
}
use mutiny_net.Hms.{with_seconds, with_minutes, with_hours, hms, seconds_to_hms}
use native.Mathlib.Nat.{mul-add-div_right, div-add-mod', zero-div}

-- The seconds that a unit letter stands for; 0 for a digit.
weight : ℕ → ℕ
weight c = if c == b'h' then 3600 else if c == b'm' then 60 else if c == b's' then 1 else 0

-- The seconds read so far, and the number that is being read.
read_parts : ℕ → ℕ → List ℕ → ℕ
read_parts total num [] = total
read_parts total num (c ∷ s) =
    read_parts (total + num * weight c) (if ltb 0 (weight c) then 0 else num * 10 + (c - b'0')) s

abbrev is_minus : ℕ → Bool
is_minus c = c == b'-'

unfoldable pub is_negative : List ℕ → Bool
is_negative [] = false
is_negative (c ∷ s) = is_minus c

unfoldable pub read_hms : List ℕ → ℕ
unfolding read_parts weight
read_hms [] = 0
read_hms (c ∷ s) = read_parts 0 0 (if is_minus c then s else c ∷ s)

weight-digit : (c : ℕ) → (leb b'0' c && leb c b'9') ≡ true → weight c ≡ 0
unfolding weight
weight-digit c h = ground arith

read-digit :
    (t n c : ℕ) (s : List ℕ)
    → weight c ≡ 0
    → read_parts t n (c ∷ s) ≡ read_parts t (n * 10 + (c - b'0')) s
unfolding read_parts
read-digit t n c s w =
    rw (w, read_parts) (ap (λ (u : ℕ). read_parts u (n * 10 + (c - b'0')) s) (omega arith))

read-run :
    (t n : ℕ) (run rest : List ℕ)
    → AllDigits run
    → read_parts t n (run ++ rest) ≡ read_parts t (dec_from n run) rest
read-run t n [] rest d = refl
read-run t n (c ∷ run) rest (dc, d) =
    read-digit t n c (run ++ rest) (weight-digit c dc) ∙ read-run t (n * 10 + (c - b'0')) run rest d

-- A printed number with its unit letter is read as so many seconds.
read-part :
    (t n c : ℕ) (rest : List ℕ)
    → 0 < weight c
    → read_parts t 0 (dec_digits n ++ c ∷ rest) ≡ read_parts (t + n * weight c) 0 rest
read-part t n c rest h =
    read-run t 0 (dec_digits n) (c ∷ rest) (dec_digits-AllDigits n)
    ∙ unit (dec_from 0 (dec_digits n)) number
  where
    number : dec_from 0 (dec_digits n) ≡ n
    number = unfold dec_value in dec_value-dec_digits n

    unit : (k : ℕ) → k ≡ n → read_parts t k (c ∷ rest) ≡ read_parts (t + n * weight c) 0 rest
    unit k e = unfold read_parts in rw (e, lt→ltb 0 (weight c) h, read_parts) refl

module _ (unit s : ℕ) (positive : 0 < unit) where
  part-pos : (ltb 0 (s % (60 * unit)) ≡ false) → s % (60 * unit) / unit ≡ 0
  part-pos e =
      let r : s % (60 * unit) ≡ 0 = ground arith in ap (λ (k : ℕ). k / unit) r ∙ zero-div unit

  whole : s / unit ≡ s / (60 * unit) * 60 + s % (60 * unit) / unit
  whole =
      let m : ℕ = s / (60 * unit) in
      let split : s ≡ m * 60 * unit + s % (60 * unit) =
        sym (div-add-mod' s (60 * unit)) ∙ omega arith in
      ap (λ (k : ℕ). k / unit) split ∙ mul-add-div_right positive (m * 60) (s % (60 * unit))

  read-seconds : (t : ℕ) → read_parts t 0 (with_seconds unit s) ≡ t + s % (60 * unit) / unit
  unfolding with_seconds
  read-seconds t = elim (Bool-cases (ltb 0 (s % (60 * unit)))) [
    | inl e ↦
        rw (e, with_seconds)
          (read-part t (s % (60 * unit) / unit) b's' [] (unfold weight in omega arith)
            ∙ unfold weight read_parts in omega arith)
    | inr e ↦ rw (e, with_seconds) (unfold read_parts in omega (arith, part-pos e))
  ]

read-minutes :
    (t m : ℕ) (out : List ℕ)
    → read_parts t 0 (with_minutes m out) ≡ read_parts (t + m % 60 * 60) 0 out
unfolding with_minutes
read-minutes t m out = elim (Bool-cases (ltb 0 (m % 60))) [
  | inl e ↦ rw (e, with_minutes) (unfold weight in read-part t (m % 60) b'm' out (omega arith))
  | inr e ↦ rw (e, with_minutes) (ap (λ (u : ℕ). read_parts u 0 out) (ground arith))
]

read-hours :
    (t m : ℕ) (out : List ℕ) → read_parts t 0 (with_hours m out) ≡ read_parts (t + m * 3600) 0 out
unfolding with_hours
read-hours t m out = elim (Bool-cases (ltb 0 m)) [
  | inl e ↦ rw (e, with_hours) (unfold weight in read-part t m b'h' out (omega arith))
  | inr e ↦ rw (e, with_hours) (ap (λ (u : ℕ). read_parts u 0 out) (ground arith))
]

-- The first character is a digit, or there is none.
abbrev StartsPlain : List ℕ → Type 0
StartsPlain [] = Unit
StartsPlain (c ∷ s) = is_minus c ≡ false

digits-StartsPlain : (ds rest : List ℕ) → AllDigits ds → 1 ≤ length ds → StartsPlain (ds ++ rest)
digits-StartsPlain [] rest d l = absurd (omega arith)
digits-StartsPlain (c ∷ ds) rest (dc, d) l = ground arith

number-StartsPlain : (n : ℕ) (rest : List ℕ) → StartsPlain (dec_digits n ++ rest)
number-StartsPlain n rest =
    digits-StartsPlain (dec_digits n) rest (dec_digits-AllDigits n) (length-dec_digits n)

StartsPlain-if :
    (b : Bool) (x y : List ℕ) → StartsPlain x → StartsPlain y → StartsPlain (if b then x else y)
StartsPlain-if true x y hx hy = hx
StartsPlain-if false x y hx hy = hy

hms-StartsPlain : (unit s : ℕ) → StartsPlain (hms unit s)
unfolding hms
hms-StartsPlain unit s =
    let m : ℕ = s / (60 * unit) in
    let low : List ℕ = with_seconds unit s in
    StartsPlain-if (ltb 0 (m / 60)) _ _ (number-StartsPlain (m / 60) _) (
      StartsPlain-if (ltb 0 (m % 60)) _ _ (number-StartsPlain (m % 60) (b'm' ∷ low)) (
        StartsPlain-if (ltb 0 (s % (60 * unit))) _ _
          (number-StartsPlain (s % (60 * unit) / unit) (b's' ∷ [])) tt))

module _ (unit s : ℕ) (positive : 0 < unit) where
  read-hms : read_parts 0 0 (hms unit s) ≡ s / unit
  unfolding hms
  read-hms =
      let m : ℕ = s / (60 * unit) in
      read-hours 0 (m / 60) (with_minutes m (with_seconds unit s))
      ∙ read-minutes (0 + m / 60 * 3600) m (with_seconds unit s)
      ∙ read-seconds unit s positive (0 + m / 60 * 3600 + m % 60 * 60)
      ∙ omega (arith, whole unit s positive)

read_hms-plain : (ds : List ℕ) → StartsPlain ds → read_hms ds ≡ read_parts 0 0 ds
unfolding read_hms
read_hms-plain [] h = refl
read_hms-plain (c ∷ ds) h = rw (h, read_hms) refl

is_negative-plain : (ds : List ℕ) → StartsPlain ds → is_negative ds ≡ false
unfolding is_negative
is_negative-plain [] h = refl
is_negative-plain (c ∷ ds) h = h

seconds_to_hms-pos : (unit s : ℕ) → seconds_to_hms unit (pos (suc s)) ≡ hms unit (suc s)
unfolding seconds_to_hms
seconds_to_hms-pos unit s = ground arith

-- The text of a duration, read as hours, minutes and seconds, gives its whole seconds without the
-- sign; and it has a minus sign exactly if the duration is negative.
pub read_hms-seconds_to_hms :
    (unit : ℕ) (s : ℤ)
    → 0 < unit
    → (read_hms (seconds_to_hms unit s) ≡ (pos_part s + neg_part s) / unit)
      × (is_negative (seconds_to_hms unit s) ≡ ltb_ℤ s (pos 0))
unfolding seconds_to_hms
read_hms-seconds_to_hms unit (pos zero) h = (
  unfold read_hms in (sym (zero-div unit) ∙ ap (λ (k : ℕ). k / unit) (omega arith)),
  unfold is_negative in refl,
)
read_hms-seconds_to_hms unit (pos (suc s)) h = rw (seconds_to_hms-pos unit s) (
  read_hms-plain (hms unit (suc s)) (hms-StartsPlain unit (suc s))
      ∙ read-hms unit (suc s) h
      ∙ ap (λ (k : ℕ). k / unit) (omega arith),
  is_negative-plain (hms unit (suc s)) (hms-StartsPlain unit (suc s)) ∙ ground arith,
)
read_hms-seconds_to_hms unit (negsuc s) h = (
  unfold read_hms in (read-hms unit (suc s) h ∙ ap (λ (k : ℕ). k / unit) (omega arith)),
  unfold is_negative in ground arith,
)
