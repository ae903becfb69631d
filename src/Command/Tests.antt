-- ===== src/Command/Tests.antt =====
-- The command `generate` with whole numbers for floats: one block at minimum difficulty.
use mutiny_net.Prelude.{
  ℕ, ◌+◌, ◌-◌, ◌≤◌, ◌≡◌, refl, arith, none, some, List, false, ltb, if◌then◌else◌, map,
}
use mutiny_net.Prelude.Int.{pos}
use mutiny_net.Prelude.Result.{Result, ok, type_error}
use mutiny_net.Hex.{hex_value}
use mutiny_net.NBits.{nbits_to_target}
use mutiny_net.Float.Whole.{whole}
use mutiny_net.Mining.{finished}
use mutiny_net.Mining.Run.{blocks_in}
use mutiny_net.Mining.Tests.{alone, two_rounds}
use mutiny_net.Command.{
  Args, pass, raise, block_limit, minimum_nbits, Settings, settings, do_generate,
}
use mutiny_net.Command.Checks.{IsSound, settings-IsSound, settings-no_nbits}
use mutiny_net.Command.Whole.{do_generate-limit}

-- `int(text, 16)` of a text of small digits
unfoldable int_16 : List ℕ → Result ℕ
unfolding hex_value
int_16 text = ok (hex_value (map (λ c. if ltb c b'a' then c - b'0' else c - b'a' + 10) text))

abbrev args : Args
args = record {
  ongoing = false;
  max_blocks = none;
  set_block_time = none;
  nbits = some minimum_nbits;
  min_nbits = false;
  poisson = false;
  multiminer = none;
  backup_delay = pos 300;
  standby_delay = pos 30;
  max_interval = pos 1800;
  poolnum = none;
  poolid = none;
  nversion = none;
}

abbrev one_block : Settings whole int_16 (λ text. text)
one_block = record { limit = some 1; gen = alone; poolid = none; nversion = none }

passes : settings whole int_16 (λ text. text) args (pos 0) ≡ pass one_block
unfolding settings nbits_to_target int_16
passes = refl

settings-IsSound_example : IsSound whole int_16 (λ text. text) args one_block
settings-IsSound_example =
    settings-IsSound whole int_16 (λ text. text) args (pos 0) one_block passes

abbrev timed : Args
timed = record args { set_block_time = some (pos 5); nbits = none }

settings-no_nbits_example : settings whole int_16 (λ text. text) timed (pos 0) ≡ raise type_error
settings-no_nbits_example =
    settings-no_nbits whole int_16 (λ text. text) timed (pos 0) (pos 5) refl refl refl refl
      (omega arith)

do_generate-limit_example :
    (blocks_in whole (do_generate whole int_16 (λ text. text) args (pos 0) two_rounds).0 ≤ 1)
    × ((do_generate whole int_16 (λ text. text) args (pos 0) two_rounds).1 ≡ finished
        → blocks_in whole (do_generate whole int_16 (λ text. text) args (pos 0) two_rounds).0 ≡ 1)
unfolding block_limit
do_generate-limit_example =
    do_generate-limit whole int_16 (λ text. text) args (pos 0) two_rounds 1 refl
