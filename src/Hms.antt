-- ===== src/Hms.antt =====
-- `seconds_to_hms` of `miner`. A duration is a multiple `s` of the `unit`-th part of a second: for an
-- `int` the unit is 1, and a finite `float` has a power of two. `//` leaves a whole number, and
-- `"%d"` cuts the fraction off.
pub mod Reading
pub mod Tests
use mutiny_net.Prelude.{ℕ, suc, ◌+◌, ◌*◌, ◌/◌, ◌%◌, List, [], ◌∷◌, ◌++◌, ltb, ◌==◌, if◌then◌else◌}
use mutiny_net.Prelude.Int.{ℤ, pos, negsuc}
use mutiny_net.Decimal.{dec_digits}

-- `if s % 60 > 0: out = "%ds" % (s % 60)`
unfoldable pub with_seconds : ℕ → ℕ → List ℕ
unfolding dec_digits
with_seconds unit s =
    let part = s % (60 * unit) in if ltb 0 part then dec_digits (part / unit) ++ b's' ∷ [] else []

unfoldable pub with_minutes : ℕ → List ℕ → List ℕ
unfolding dec_digits
with_minutes s out = if ltb 0 (s % 60) then dec_digits (s % 60) ++ b'm' ∷ out else out

unfoldable pub with_hours : ℕ → List ℕ → List ℕ
unfolding dec_digits
with_hours s out = if ltb 0 s then dec_digits s ++ b'h' ∷ out else out

unfoldable pub hms : ℕ → ℕ → List ℕ
unfolding with_seconds with_minutes with_hours
hms unit s =
    let minutes = s / (60 * unit) in
    with_hours (minutes / 60) (with_minutes minutes (with_seconds unit s))

unfoldable pub seconds_to_hms : ℕ → ℤ → List ℕ
unfolding hms
seconds_to_hms unit (pos s) = if s == 0 then b'0' ∷ b's' ∷ [] else hms unit s
seconds_to_hms unit (negsuc s) = b'-' ∷ hms unit (suc s)
