-- ===== src/Amount/Laws.antt =====
-- An amount is compressed without an error, and decompressed to itself.
use mutiny_net.Prelude.{
  ℕ, zero, suc, ◌+◌, ◌-◌, ◌*◌, ◌/◌, ◌%◌, ◌≤◌, ◌<◌, ◌≡◌, refl, sym, ap, ◌∙◌, arith, ◌==◌, ltb,
  Bool-cases, inl, inr, false, ==_iff, lt→ltb, ltb→lt,
}
use mutiny_net.Prelude.Result.{ok}
use mutiny_net.Amount.{strip, code_of, compress_amount, scale, decompress_amount}

scale-suc : (e n : ℕ) → scale (suc e) n ≡ scale e n * 10
unfolding scale
scale-suc zero n = refl
scale-suc (suc e) n = scale-suc e (n * 10)

-- What the loop leaves in `left` rounds at most: `dropped` zeros less, and no zero at the end if it
-- could have gone on.
record IsStripped (left n e : ℕ) (r : ℕ × ℕ) : Type 0 where
  dropped : ℕ
  counted : r.1 ≡ e + dropped
  at_most : dropped ≤ left
  positive : 0 < r.0
  scaled : scale dropped r.0 ≡ n
  ended : dropped < left → 0 < r.0 % 10

strip-IsStripped : (left n e : ℕ) → 0 < n → IsStripped left n e (strip left n e)
unfolding strip scale
strip-IsStripped zero n e h = record {
  dropped = 0;
  counted = omega arith;
  at_most = omega arith;
  positive = h;
  scaled = refl;
  ended = λ g. absurd (omega arith);
}
strip-IsStripped (suc left) n e h = elim (Bool-cases (n % 10 == 0)) [
  | inl z ↦
      let d : n % 10 ≡ 0 = (==_iff (n % 10) 0).0 z in
      let p = strip-IsStripped left (n / 10) (e + 1) (omega arith) in
      rw z (record {
        dropped = suc p.dropped;
        counted = omega (arith, p.counted);
        at_most = omega (arith, p.at_most);
        positive = p.positive;
        scaled = scale-suc p.dropped (strip left (n / 10) (e + 1)).0 ∙ omega (arith, p.scaled);
        ended = λ g. p.ended (omega arith);
      })
  | inr z ↦ rw z (record {
    dropped = 0;
    counted = omega arith;
    at_most = omega arith;
    positive = h;
    scaled = refl;
    ended = λ g. nonzero z;
  })
]
  where
    nonzero : (n % 10 == 0) ≡ false → 0 < n % 10
    nonzero g = ground arith

-- The code of an amount `m` whose last digit is not zero is taken apart again.
decompress_small :
    (m e : ℕ)
    → e < 9
    → 0 < m % 10
    → (x : ℕ) × (code_of (m, e) ≡ ok x) × (decompress_amount x ≡ scale e m)
unfolding code_of decompress_amount
decompress_small m e h d = (
  suc ((m / 10 * 9 + m % 10 - 1) * 10 + e),
  shaped,
  rw (exponent, lt→ltb e 9 h) (ap (scale e) digits),
)
  where
    y : ℕ
    y = m / 10 * 9 + m % 10 - 1

    exponent : ((m / 10 * 9 + m % 10 - 1) * 10 + e) % 10 ≡ e
    exponent = omega arith

    shaped : code_of (m, e) ≡ ok (suc ((m / 10 * 9 + m % 10 - 1) * 10 + e))
    shaped = ground arith

    digits :
        ((m / 10 * 9 + m % 10 - 1) * 10 + e) / 10 / 9 * 10
          + (((m / 10 * 9 + m % 10 - 1) * 10 + e) / 10 % 9 + 1)
        ≡ m
    digits = omega arith

decompress_large :
    (m : ℕ) → 0 < m → (x : ℕ) × (code_of (m, 9) ≡ ok x) × (decompress_amount x ≡ scale 9 m)
unfolding code_of decompress_amount
decompress_large m h = (suc ((m - 1) * 10 + 9), ground arith, rw (exponent) (ap (scale 9) digits))
  where
    exponent : ((m - 1) * 10 + 9) % 10 ≡ 9
    exponent = omega arith

    digits : ((m - 1) * 10 + 9) / 10 + 1 ≡ m
    digits = omega arith

compress_positive : (n : ℕ) → compress_amount (suc n) ≡ code_of (strip 9 (suc n) 0)
unfolding compress_amount
compress_positive n = rw (not_zero n) refl
  where
    not_zero : (n : ℕ) → (suc n == 0) ≡ false
    not_zero n = ground arith

decompress_stripped :
    (n : ℕ) (r : ℕ × ℕ)
    → IsStripped 9 n 0 r
    → (x : ℕ) × (code_of r ≡ ok x) × (decompress_amount x ≡ n)
decompress_stripped n (m, e) p =
    let back : scale e m ≡ n = ap (λ (k : ℕ). scale k m) (p.counted ∙ omega arith) ∙ p.scaled in
    elim (Bool-cases (ltb e 9)) [
      | inl h ↦
          let small : e < 9 = ltb→lt e 9 h in
          let (x, c, d) = decompress_small m e small (p.ended (omega (arith, p.counted))) in
          (x, c, d ∙ back)
      | inr h ↦
          let nine : e ≡ 9 = omega (arith, p.counted, p.at_most, ltb-false→le e 9 h) in
          let (x, c, d) = decompress_large m p.positive in
          (
            x,
            ap (λ (k : ℕ). code_of (m, k)) nine ∙ c,
            d ∙ ap (λ (k : ℕ). scale k m) (sym nine) ∙ back,
          )
    ]
  where
    ltb-false→le : (a b : ℕ) → ltb a b ≡ false → b ≤ a
    ltb-false→le a b h = ground arith

-- Every amount is compressed, and the code is decompressed to the amount.
pub decompress_amount-compress_amount :
    (n : ℕ) → (x : ℕ) × (compress_amount n ≡ ok x) × (decompress_amount x ≡ n)
decompress_amount-compress_amount zero =
    (0, unfold compress_amount in refl, unfold decompress_amount in refl)
decompress_amount-compress_amount (suc n) =
    let (x, c, d) =
      decompress_stripped (suc n) (strip 9 (suc n) 0)
        (strip-IsStripped 9 (suc n) 0 (omega arith)) in
    (x, compress_positive n ∙ c, d)
