-- ===== src/Binana/Tests.antt =====
-- The versions of README.md, and the theorems at concrete deployments.
use Prim.Native.String.{String}
use mutiny_net.Prelude.{◌*◌, ◌/◌, ◌%◌, ◌^◌, ◌≡◌, refl, none, some, [], ◌∷◌}
use mutiny_net.Prelude.Int.{ℤ, pos, negsuc}
use mutiny_net.Prelude.Result.{Result, ok, err, value_error}
use mutiny_net.Binana.{binana_id, signal_activate}
use mutiny_net.Binana.Fields.{binana_id-fields}
use mutiny_net.Binana.Command.{Document, Report, usage, report, main}

template_hash : signal_activate (binana_id (pos 2026) (pos 1) (pos 0)) ≡ 0x62800100
unfolding binana_id signal_activate
template_hash = refl

negative_year : binana_id (negsuc 0) (pos 0) (pos 0) ≡ 31 * 2 ^ 22
unfolding binana_id
negative_year = refl

abbrev load : String → Result Document
load path = ok (record { binana = some (pos 2026 ∷ pos 1 ∷ pos 0 ∷ []); deployment = none })

abbrev to_int : String → Result ℤ
to_int text = err value_error

no_arguments : main load to_int ("calc_nversion.py" ∷ []) ≡ ok usage
unfolding main
no_arguments = refl

bad_number : main load to_int ("calc_nversion.py" ∷ "x" ∷ "1" ∷ "0" ∷ []) ≡ err value_error
unfolding main
bad_number = refl

abbrev template : Report
template = report "?" (pos 2026) (pos 1) (pos 0)

binana_id-fields_example :
    (binana_id (pos 2026) (pos 1) (pos 0) / 2 ^ 22 ≡ 10)
    × (binana_id (pos 2026) (pos 1) (pos 0) / 2 ^ 8 % 2 ^ 14 ≡ 1)
    × (binana_id (pos 2026) (pos 1) (pos 0) % 2 ^ 8 ≡ 0)
binana_id-fields_example = binana_id-fields (pos 2026) (pos 1) (pos 0)
