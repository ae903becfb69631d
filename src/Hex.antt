-- ===== src/Hex.antt =====
-- Hexadecimal text as lists of digit values, most significant first: `"{0:x}".format`, `"%0wx"`
-- and `int(_, 16)` of Python, on the text of non-negative numbers.
pub mod Value
pub mod Print
use mutiny_net.Prelude.{
  ℕ, zero, suc, ◌+◌, ◌-◌, ◌*◌, ◌/◌, ◌%◌, List, [], ◌∷◌, ◌++◌, ltb, if◌then◌else◌, length, replicate,
}

-- `int(_, 16)` of a text of digits.
abbrev value_from : ℕ → List ℕ → ℕ
value_from acc [] = acc
value_from acc (d ∷ ds) = value_from (acc * 16 + d) ds

unfoldable pub hex_value : List ℕ → ℕ
hex_value ds = value_from 0 ds

-- One round for each digit; `acc` holds the digits that are out already.
hex_loop : ℕ → ℕ → List ℕ → List ℕ
hex_loop zero n acc = n ∷ acc
hex_loop (suc fuel) n acc =
    let rest = hex_loop fuel (n / 16) (n % 16 ∷ acc) in if ltb n 16 then n ∷ acc else rest

-- `"{0:x}".format(n)`: a number has fewer digits than its value, but for the one of zero.
unfoldable pub hex_digits : ℕ → List ℕ
unfolding hex_loop
hex_digits n = hex_loop n n []

-- `"%0wx" % n`: zeros in front, up to a width of `w`.
unfoldable pub hex_padded : ℕ → ℕ → List ℕ
unfolding hex_digits
hex_padded w n = replicate (w - length (hex_digits n)) 0 ++ hex_digits n
