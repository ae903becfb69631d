-- ===== src/NBits/Tests.antt =====
-- Runs of the compact encoding, and its theorems at concrete targets.
use mutiny_net.Prelude.{◌+◌, ◌*◌, ◌^◌, ◌≤◌, ◌≡◌, refl, arith}
use mutiny_net.NBits.{mantissa, nbits_to_target, target_to_nbits}
use mutiny_net.NBits.Rounding.{target_rounds_up}
use mutiny_net.NBits.Canonical.{target_to_nbits-nbits_to_target, target_to_nbits-sign}

-- the minimum difficulty of signet
signet_minimum : target_to_nbits (0x0377ae * 16 ^ 54) ≡ 0x1e0377ae
unfolding target_to_nbits
signet_minimum = refl

small_targets : target_to_nbits 0x12 ≡ 0x03000012
unfolding target_to_nbits
small_targets = refl

fraction : nbits_to_target 0x02000100 ≡ record { num = 0x100; den = 256 }
unfolding nbits_to_target
fraction = refl

target_rounds_up_example :
    ((nbits_to_target (target_to_nbits 0x12345678)).den ≡ 1)
    × (0x12345678 ≤ (nbits_to_target (target_to_nbits 0x12345678)).num)
    × (2 ^ 15 * (nbits_to_target (target_to_nbits 0x12345678)).num ≤ (2 ^ 15 + 1) * 0x12345678)
target_rounds_up_example = target_rounds_up 0x12345678 (omega arith)

target_to_nbits-nbits_to_target_example :
    target_to_nbits (nbits_to_target 0x1e0377ae).num ≡ 0x1e0377ae
target_to_nbits-nbits_to_target_example = target_to_nbits-nbits_to_target 0x1e0377ae (record {
  word = omega arith;
  exponent = omega arith;
  positive = omega arith;
  minimal = λ _. omega arith;
})

target_to_nbits-sign_example : mantissa (target_to_nbits (0x7fffff * 16 ^ (2 * 1) + 1)) ≡ 0x800000
target_to_nbits-sign_example = target_to_nbits-sign 1 1 (omega arith) (omega arith) (omega arith)
