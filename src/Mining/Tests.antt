-- ===== src/Mining/Tests.antt =====
-- A run of the mining loop with whole numbers for floats: a sleep, then a block.
use mutiny_net.Prelude.{ℕ, ◌*◌, ◌^◌, ◌≡◌, refl, none, some, List, [], ◌∷◌, true, false, replicate}
use mutiny_net.Prelude.Int.{pos, ◌-ℤ◌, ◌+ℤ◌, ◌*ℤ◌}
use mutiny_net.Prelude.Result.{ok}
use mutiny_net.Hex.{hex_value}
use mutiny_net.Multiminer.{miner_draw}
use mutiny_net.NBits.{nbits_to_target}
use mutiny_net.Float.Whole.{whole, div_whole, quotient_whole}
use mutiny_net.Schedule.{Header, Plan, Generate}
use mutiny_net.Mining.{Surroundings, State, Event, slept, mined, start, round, finished, run}

abbrev pub hash : List ℕ
hash = replicate 64 1

abbrev pub alone : Generate whole
alone = record {
  share = record { low = 0; high = 1; period = 1 };
  ultimate_target = record { num = 0x0377ae * 16 ^ 54; den = 1 };
  poisson = false;
  max_interval = pos 1800;
  standby_delay = pos 30;
  backup_delay = pos 300;
  set_block_time = none;
}

abbrev tip : Header
tip = record {
  hash = hash;
  height = 10;
  bits = 1 ∷ 14 ∷ 0 ∷ 3 ∷ 7 ∷ 7 ∷ 10 ∷ 14 ∷ [];
  time = pos 100000;
}

abbrev at_time : ℕ → Surroundings whole
at_time now = record {
  bestblockhash = hash;
  header = tip;
  now = pos now;
  template = record { previousblockhash = hash; mintime = pos 1 };
  seal = λ p. ok (some (record { bits = 0x1e0377ae; hash = hash }));
}

abbrev due : Plan
due = record { mine_time = pos 100600; action_time = pos 100630; is_mine = true }

abbrev block : Event whole
block =
    mined (pos 100640) (record { previousblockhash = hash; mintime = pos 1 }) due
      (record { bits = 0x1e0377ae; hash = hash })

abbrev pub two_rounds : List (Surroundings whole)
two_rounds = at_time 100625 ∷ at_time 100640 ∷ []

sleep_then_mine :
    run whole alone (some 1) (start whole) two_rounds ≡ (slept (pos 5) ∷ block ∷ [], finished)
unfolding run round nbits_to_target div_whole quotient_whole hex_value miner_draw ◌*ℤ◌ ◌+ℤ◌ ◌-ℤ◌
sleep_then_mine = refl

abbrev after : State whole
after = record { mined_blocks = 1; bestheader = some tip; lastheader = some hash }
