-- ===== src/Binana.antt =====
-- calc_nversion.py: the signalling versions of a soft-fork deployment. A number of the file or the
-- command line is a Python `int`, so it may be negative, and `%` rounds towards minus infinity.
pub mod Fields
pub mod Command
pub mod Tests
use mutiny_net.Prelude.{ℕ, ◌*◌, ◌^◌, bit_or}
use mutiny_net.Prelude.Int.{ℤ, mod_ℕ}

abbrev pub versionbits_top_active : ℕ
versionbits_top_active = 0x6000_0000

abbrev pub versionbits_top_abandon : ℕ
versionbits_top_abandon = 0x4000_0000

-- `((year % 32) << 22) | ((number % 16384) << 8) | (revision % 256)`
unfoldable pub binana_id : ℤ → ℤ → ℤ → ℕ
binana_id year number revision =
    bit_or (bit_or (mod_ℕ year 32 * 2 ^ 22) (mod_ℕ number 16384 * 2 ^ 8)) (mod_ℕ revision 256)

unfoldable pub signal_activate : ℕ → ℕ
signal_activate bid = bit_or versionbits_top_active bid

unfoldable pub signal_abandon : ℕ → ℕ
signal_abandon bid = bit_or versionbits_top_abandon bid
