-- ===== src/NBits.antt =====
-- The compact encoding of difficulty targets in `miner`: `nbits_to_target` and `target_to_nbits`.
-- Below an exponent of 3 Python's `2**(8*(shift-3))` is a float and the product is exact, so a
-- target is a ratio. The texts that `target_to_nbits` cuts are lists of hexadecimal digits.
pub mod Padding
pub mod Split
pub mod Rounding
pub mod Canonical
pub mod Tests
use mutiny_net.Prelude.{
  ℕ, ◌+◌, ◌-◌, ◌*◌, ◌/◌, ◌%◌, ◌^◌, List, [], ◌∷◌, ◌++◌, Bool, true, false, ◌&&◌, ltb, leb, ◌==◌,
  if◌then◌else◌, length, get_or, take, drop, replicate,
}
use mutiny_net.Hex.{hex_value, hex_digits, hex_padded}

-- `num / den`; `den` is 1 for a target that is an `int`.
pub record Ratio : Type 0 where
  pub num : ℕ
  pub den : ℕ

-- `(nbits >> 24) & 0xff` and `nbits & 0x00ffffff`
abbrev pub shift : ℕ → ℕ
shift nbits = nbits / 2 ^ 24 % 256

abbrev pub mantissa : ℕ → ℕ
mantissa nbits = nbits % 2 ^ 24

unfoldable pub nbits_to_target : ℕ → Ratio
nbits_to_target nbits =
    if leb 3 (shift nbits)
    then record { num = mantissa nbits * 2 ^ (8 * (shift nbits - 3)); den = 1 }
    else record { num = mantissa nbits; den = 2 ^ (8 * (3 - shift nbits)) }

-- `if len(tstr) < 6: tstr = ("000000"+tstr)[-6:]`
abbrev last_six : List ℕ → List ℕ
last_six s = drop (length s - 6) s

unfoldable pub pad_six : List ℕ → List ℕ
pad_six tstr = if ltb (length tstr) 6 then last_six (replicate 6 0 ++ tstr) else tstr

-- `if len(tstr) % 2 != 0: tstr = "0" + tstr`
unfoldable pub pad_even : List ℕ → List ℕ
pad_even tstr = if length tstr % 2 == 0 then tstr else 0 ∷ tstr

-- `if int(tstr[0],16) >= 0x8: tstr = "00" + tstr`
unfoldable pub pad_sign : List ℕ → List ℕ
pad_sign tstr = if leb 8 (get_or tstr 0 0) then 0 ∷ 0 ∷ tstr else tstr

unfoldable pub padded : ℕ → List ℕ
unfolding pad_six pad_even pad_sign hex_digits
padded target = pad_sign (pad_even (pad_six (hex_digits target)))

-- `==` of two texts
unfoldable pub eq_digits : List ℕ → List ℕ → Bool
eq_digits [] [] = true
eq_digits (a ∷ s) (b ∷ t) = a == b && eq_digits s t
eq_digits _ _ = false

-- `fix`, the first six digits, one more if a digit behind them is not zero
unfoldable pub round_up : List ℕ → ℕ
unfolding hex_value eq_digits
round_up tstr =
    let fix = hex_value (take 6 tstr) in
    let sz = length tstr / 2 in
    if eq_digits (drop 6 tstr) (replicate (sz * 2 - 6) 0) then fix else fix + 1

unfoldable pub target_to_nbits : ℕ → ℕ
unfolding padded round_up hex_value hex_padded
target_to_nbits target =
    let tstr = padded target in
    hex_value (hex_padded 2 (length tstr / 2) ++ hex_padded 6 (round_up tstr))
