-- ===== src/Decimal/Print.antt =====
-- Printing a number in decimal, and reading it back.
use mutiny_net.Prelude.{
  ℕ, zero, suc, ◌+◌, ◌/◌, ◌%◌, ◌≤◌, ◌≡◌, ap, ◌∙◌, arith, List, [], ◌∷◌, length, true, leb, ◌&&◌,
  inl, inr, Bool-cases, ltb,
}
use mutiny_net.Decimal.{dec_from, dec_value, dec_loop, dec_digits}
use native.Mathlib.Nat.{le_refl}

abbrev pub AllDigits : List ℕ → Type 0
AllDigits [] = Unit
AllDigits (c ∷ s) = ((leb b'0' c && leb c b'9') ≡ true) × AllDigits s

dec_loop-value :
    (fuel n : ℕ) (acc : List ℕ) → n ≤ fuel → dec_from 0 (dec_loop fuel n acc) ≡ dec_from n acc
unfolding dec_loop
dec_loop-value zero n acc h = ap (λ (t : ℕ). dec_from t acc) (omega arith)
dec_loop-value (suc fuel) n acc h = elim (Bool-cases (ltb n 10)) [
  | inl last ↦ rw last (ap (λ (t : ℕ). dec_from t acc) (omega arith))
  | inr more ↦ rw more (
      dec_loop-value fuel (n / 10) ((b'0' + n % 10) ∷ acc) (ground arith)
      ∙ ap (λ (t : ℕ). dec_from t acc) (omega arith))
]

dec_loop-digits :
    (fuel n : ℕ) (acc : List ℕ) → n ≤ fuel → AllDigits acc → AllDigits (dec_loop fuel n acc)
unfolding dec_loop
dec_loop-digits zero n acc h k = (ground arith, k)
dec_loop-digits (suc fuel) n acc h k = elim (Bool-cases (ltb n 10)) [
  | inl last ↦ rw last (ground arith, k)
  | inr more ↦
      rw more
        (dec_loop-digits fuel (n / 10) ((b'0' + n % 10) ∷ acc) (ground arith) (ground arith, k))
]

dec_loop-length : (fuel n : ℕ) (acc : List ℕ) → 1 ≤ length (dec_loop fuel n acc)
unfolding dec_loop
dec_loop-length zero n acc = omega arith
dec_loop-length (suc fuel) n acc =
    ground (arith, dec_loop-length fuel (n / 10) ((b'0' + n % 10) ∷ acc))

-- `int("%d" % n)` is `n`.
pub dec_value-dec_digits : (n : ℕ) → dec_value (dec_digits n) ≡ n
unfolding dec_value dec_digits
dec_value-dec_digits n = dec_loop-value n n [] (le_refl n)

pub dec_digits-AllDigits : (n : ℕ) → AllDigits (dec_digits n)
unfolding dec_digits
dec_digits-AllDigits n = dec_loop-digits n n [] (le_refl n) tt

pub length-dec_digits : (n : ℕ) → 1 ≤ length (dec_digits n)
unfolding dec_digits
length-dec_digits n = dec_loop-length n n []
