-- ===== src/Decimal.antt =====
-- Decimal text, as lists of code points: `int` of a run of ASCII digits, and `"%d"` of Python.
pub mod Print
use mutiny_net.Prelude.{ℕ, zero, suc, ◌+◌, ◌-◌, ◌*◌, ◌/◌, ◌%◌, List, [], ◌∷◌, ltb, if◌then◌else◌}
use mutiny_net.Prelude.Int.{ℤ, pos, negsuc}

-- `int` of a run of digits
abbrev pub dec_from : ℕ → List ℕ → ℕ
dec_from acc [] = acc
dec_from acc (c ∷ s) = dec_from (acc * 10 + (c - b'0')) s

unfoldable pub dec_value : List ℕ → ℕ
dec_value s = dec_from 0 s

dec_loop : ℕ → ℕ → List ℕ → List ℕ
dec_loop zero n acc = (b'0' + n) ∷ acc
dec_loop (suc fuel) n acc =
    let rest = dec_loop fuel (n / 10) ((b'0' + n % 10) ∷ acc) in
    if ltb n 10 then (b'0' + n) ∷ acc else rest

-- `"%d" % n` of a non-negative number, and of any: a number has fewer digits than its value, but
-- for the one of zero.
unfoldable pub dec_digits : ℕ → List ℕ
unfolding dec_loop
dec_digits n = dec_loop n n []

unfoldable pub dec_text : ℤ → List ℕ
unfolding dec_digits
dec_text (pos n) = dec_digits n
dec_text (negsuc n) = b'-' ∷ dec_digits (suc n)
