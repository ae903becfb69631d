-- ===== src/Schedule/Delta.antt =====
-- The interval to the next block stays between its caps.
use mutiny_net.Prelude.{ℕ, ◌≡◌, refl, arith, subst, false, List}
use mutiny_net.Prelude.Int.{ℤ, pos, ◌≤ℤ◌}
use mutiny_net.Prelude.Result.{ok, err, zero_division_error, >>=-eq-ok, ok-injective}
use mutiny_net.NBits.{Ratio, nbits_to_target}
use mutiny_net.Float.{Float, py_clamp}
use mutiny_net.Schedule.{Generate, retarget_factor, cap_interval, next_block_delta}

module _ (fl : Float) where
  open fl use {Number, lt, of_ℤ, quotient, mul, div, of_ℤ_mono, quotient_mono, div-zero}

  cap_interval_bounds :
      (max_interval : ℤ) (x : Number)
      → pos 1 ≤ℤ max_interval
      → (lt (cap_interval fl max_interval x) (of_ℤ (pos 1)) ≡ false)
        × (lt (of_ℤ max_interval) (cap_interval fl max_interval x) ≡ false)
  unfolding cap_interval
  cap_interval_bounds max_interval x h =
      py_clamp fl (of_ℤ (pos 1)) (of_ℤ max_interval) x (of_ℤ_mono (pos 1) max_interval h)

  -- The interval that a retarget period aims at is changed by a factor of four at most.
  pub retarget_factor_bounds :
      (ultimate_target : Ratio) (last_nbits : ℕ) (factor : Number)
      → retarget_factor fl ultimate_target last_nbits ≡ ok factor
      → (lt factor (quotient 1 4) ≡ false) × (lt (quotient 4 1) factor ≡ false)
  unfolding retarget_factor
  retarget_factor_bounds ultimate_target last_nbits factor h =
      let (x, _, e) = >>=-eq-ok (div ultimate_target (nbits_to_target last_nbits)) _ h in
      subst (λ t. (lt t (quotient 1 4) ≡ false) × (lt (quotient 4 1) t ≡ false)) (ok-injective e)
        (py_clamp fl (quotient 1 4) (quotient 4 1) x
          (quotient_mono 1 4 4 1 (omega arith) (omega arith) (omega arith)))

  -- With a maximal interval of a second or more, an interval that is computed lies between one
  -- second and that maximum.
  pub next_block_delta_bounds :
      (gen : Generate fl) (last_nbits : ℕ) (last_hash : List ℕ) (delta : Number)
      → pos 1 ≤ℤ gen.max_interval
      → next_block_delta fl gen last_nbits last_hash ≡ ok delta
      → (lt delta (of_ℤ (pos 1)) ≡ false) × (lt (of_ℤ gen.max_interval) delta ≡ false)
  unfolding next_block_delta
  next_block_delta_bounds gen last_nbits last_hash delta h e =
      let (x, _, d) = >>=-eq-ok (retarget_factor fl gen.ultimate_target last_nbits) _ e in
      subst (λ t. (lt t (of_ℤ (pos 1)) ≡ false) × (lt (of_ℤ gen.max_interval) t ≡ false))
        (ok-injective d) (cap_interval_bounds gen.max_interval _ h)

  -- A compact form that denotes zero, as one with no mantissa does, makes the computation raise.
  pub next_block_delta-zero :
      (gen : Generate fl) (last_nbits : ℕ) (last_hash : List ℕ)
      → (nbits_to_target last_nbits).num ≡ 0
      → next_block_delta fl gen last_nbits last_hash ≡ err zero_division_error
  unfolding next_block_delta retarget_factor
  next_block_delta-zero gen last_nbits last_hash h =
      rw (div-zero gen.ultimate_target (nbits_to_target last_nbits) h) refl
