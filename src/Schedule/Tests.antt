-- ===== src/Schedule/Tests.antt =====
-- Runs of the schedule with whole numbers for floats, and its theorems at concrete headers.
use mutiny_net.Prelude.{ℕ, ◌*◌, ◌^◌, ◌≡◌, refl, arith, none, List, [], ◌∷◌, true, false, replicate}
use mutiny_net.Prelude.Int.{pos, ◌≤ℤ◌, ◌-ℤ◌, ◌+ℤ◌, ◌*ℤ◌, ltb_ℤ}
use mutiny_net.Prelude.Result.{ok}
use mutiny_net.Hex.{hex_value}
use mutiny_net.Multiminer.{miner_draw}
use mutiny_net.NBits.{nbits_to_target}
use mutiny_net.Float.Whole.{whole, div_whole, quotient_whole}
use mutiny_net.Schedule.{Header, TemplateTimes, Plan, Generate, next_block_delta, next_block_time}
use mutiny_net.Schedule.Delta.{next_block_delta_bounds}
use mutiny_net.Schedule.Times.{next_block_time-margin}

abbrev hash : List ℕ
hash = replicate 64 1

-- the second of three miners, at minimum difficulty
abbrev second : Generate whole
second = record {
  share = record { low = 1; high = 2; period = 3 };
  ultimate_target = record { num = 0x0377ae * 16 ^ 54; den = 1 };
  poisson = false;
  max_interval = pos 1800;
  standby_delay = pos 0;
  backup_delay = pos 300;
  set_block_time = none;
}

abbrev tip : Header
tip = record {
  hash = hash;
  height = 10;
  bits = 1 ∷ 14 ∷ 0 ∷ 3 ∷ 7 ∷ 7 ∷ 10 ∷ 14 ∷ [];
  time = pos 100000;
}

delta : next_block_delta whole second 0x1e0377ae hash ≡ ok (pos 600)
unfolding next_block_delta nbits_to_target div_whole quotient_whole ◌*ℤ◌
delta = refl

abbrev backup : Plan
backup = record { mine_time = pos 100600; action_time = pos 100900; is_mine = false }

as_backup : next_block_time whole second (pos 100100) tip false ≡ ok backup
unfolding next_block_time nbits_to_target div_whole quotient_whole hex_value miner_draw ◌*ℤ◌ ◌+ℤ◌
    ◌-ℤ◌
as_backup = refl

at_startup :
    next_block_time whole second (pos 100100) tip true
    ≡ ok (record { mine_time = pos 100600; action_time = pos 100100; is_mine = false })
unfolding next_block_time nbits_to_target div_whole quotient_whole hex_value miner_draw ◌*ℤ◌ ◌+ℤ◌
    ◌-ℤ◌
at_startup = refl

abbrev template : TemplateTimes
template = record { previousblockhash = hash; mintime = pos 100700 }

next_block_delta_bounds_example :
    (ltb_ℤ (pos 600) (pos 1) ≡ false) × (ltb_ℤ (pos 1800) (pos 600) ≡ false)
next_block_delta_bounds_example =
    next_block_delta_bounds whole second 0x1e0377ae hash (pos 600) (omega arith) delta

next_block_time-margin_example : pos 100600 -ℤ pos 6900 ≤ℤ pos 100900
next_block_time-margin_example =
    next_block_time-margin whole second (pos 100100) tip false backup as_backup
