-- ===== src/Hms/Tests.antt =====
-- Texts of durations, and their reading.
use mutiny_net.Prelude.{◌≡◌, refl, arith, [], ◌∷◌, true}
use mutiny_net.Prelude.Int.{pos, negsuc}
use mutiny_net.Hms.{seconds_to_hms}
use mutiny_net.Hms.Reading.{read_hms, is_negative, read_hms-seconds_to_hms}

two_hours : seconds_to_hms 1 (pos 7205) ≡ b'2' ∷ b'h' ∷ b'5' ∷ b's' ∷ []
unfolding seconds_to_hms
two_hours = refl

read_hms-seconds_to_hms_example :
    (read_hms (seconds_to_hms 2 (negsuc 180)) ≡ 90)
    × (is_negative (seconds_to_hms 2 (negsuc 180)) ≡ true)
read_hms-seconds_to_hms_example = read_hms-seconds_to_hms 2 (negsuc 180) (omega arith)
