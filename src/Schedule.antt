-- ===== src/Schedule.antt =====
-- The class `Generate` of `miner`: when the next block is due and who mines it, and the block
-- template. Numbers that may be floats come from the interface `Float`; texts of hexadecimal digits
-- are lists of digits. The attributes that `next_block_time` sets are a record of their own, since
-- they do not exist before its first call.
pub mod Delta
pub mod Times
pub mod Template
pub mod Tests
use mutiny_net.Prelude.{
  ℕ, ◌*◌, ◌^◌, Option, none, some, List, Bool, true, false, ◌==◌, if◌then◌else◌,
}
use mutiny_net.Prelude.Int.{ℤ, pos, ◌-ℤ◌, ltb_ℤ, max_ℤ}
use mutiny_net.Prelude.Result.{Result, ok, err, name_error, ◌>>=◌}
use mutiny_net.Hex.{hex_value}
use mutiny_net.NBits.{Ratio, nbits_to_target, eq_digits}
use mutiny_net.Multiminer.{Share, interval_draw, next_block_is_mine}
use mutiny_net.Float.{Float, py_min, py_max}

-- The reply to `getblockheader`.
pub record Header : Type 0 where
  pub hash : List ℕ
  pub height : ℕ
  pub bits : List ℕ
  pub time : ℤ

-- The parts of the reply to `getblocktemplate` that `gbt` reads.
pub record TemplateTimes : Type 0 where
  pub previousblockhash : List ℕ
  pub mintime : ℤ

-- `mine_time`, `action_time` and `is_mine`
pub record Plan : Type 0 where
  pub mine_time : ℤ
  pub action_time : ℤ
  pub is_mine : Bool

module _ (fl : Float) where
  open fl use {Number, lt, of_ℤ, quotient, add, sub, mul, neg, log1p, div, truncate}

  -- The attributes that `__init__` sets, but for `poolid` and `nversion`, which `mine` reads.
  pub record Generate : Type 0 where
    pub share : Share
    pub ultimate_target : Ratio
    pub poisson : Bool
    pub max_interval : ℤ
    pub standby_delay : ℤ
    pub backup_delay : ℤ
    pub set_block_time : Option Number

  -- `INTERVAL = 600.0*2016/2015`
  interval : Number
  interval = quotient (600 * 2016) 2015

  -- `self.ultimate_target / current_target`, held between 0.25 and 4.0
  unfoldable pub retarget_factor : Ratio → ℕ → Result Number
  unfolding py_min py_max
  retarget_factor ultimate_target last_nbits = do
    factor ← div ultimate_target (nbits_to_target last_nbits)
    ok (py_max fl (quotient 1 4) (py_min fl factor (quotient 4 1)))

  this_interval_variance : Bool → List ℕ → Number
  this_interval_variance false last_hash = of_ℤ (pos 1)
  this_interval_variance true last_hash =
      let det_rand = mul (of_ℤ (pos (interval_draw last_hash))) (quotient 1 (2 ^ 32)) in
      neg (log1p (neg det_rand))

  -- `max(1, min(this_interval, self.max_interval))`
  unfoldable pub cap_interval : ℤ → Number → Number
  unfolding py_min py_max
  cap_interval max_interval this_interval =
      py_max fl (of_ℤ (pos 1)) (py_min fl this_interval (of_ℤ max_interval))

  unfoldable pub next_block_delta : Generate → ℕ → List ℕ → Result Number
  unfolding retarget_factor interval this_interval_variance cap_interval
  next_block_delta gen last_nbits last_hash = do
    factor ← retarget_factor gen.ultimate_target last_nbits
    let avg_interval = mul interval factor
    let this_interval = mul avg_interval (this_interval_variance gen.poisson last_hash)
    ok (cap_interval gen.max_interval this_interval)

  -- The float times of a plan, before they are rounded.
  pub record Due : Type 0 where
    pub mine_at : Number
    pub act_at : Number
    pub mine : Bool

  -- The `else` branch: the block is due after `time_delta`; it is delayed if it is not ours, and
  -- delayed by a standby miner, else taken at once on startup.
  unfoldable pub due_after : Generate → Number → Header → Bool → Number → Due
  unfolding next_block_is_mine
  due_after gen now bestheader is_first_block time_delta =
      let mine_time = add (of_ℤ bestheader.time) time_delta in
      let is_mine = next_block_is_mine gen.share bestheader.hash in
      let delayed = if is_mine then mine_time else add mine_time (of_ℤ gen.backup_delay) in
      record {
        mine_at = mine_time;
        act_at =
            if ltb_ℤ (pos 0) gen.standby_delay
            then add delayed (of_ℤ gen.standby_delay)
            else if is_first_block
            then now
            else delayed;
        mine = is_mine;
      }

  unfoldable pub next_due : Generate → Number → Header → Bool → Result Due
  unfolding next_block_delta due_after interval
  next_due gen now bestheader is_first_block = elim gen.set_block_time [
    | some t ↦ ok (record { mine_at = t; act_at = now; mine = true })
    | none ↦
        if bestheader.height == 0
        then ok (record {
          mine_at = sub now (mul interval (of_ℤ (pos 100)));
          act_at = now;
          mine = true;
        })
        else do
          time_delta ← next_block_delta gen (hex_value bestheader.bits) bestheader.hash
          ok (due_after gen now bestheader is_first_block time_delta)
  ]

  -- No fractional times, and no block two hours in the future: 1h55m for some safety.
  unfoldable pub plan_of : Due → Plan
  plan_of due =
      let mine_time = truncate due.mine_at in
      record {
        mine_time = mine_time;
        action_time = max_ℤ (truncate due.act_at) (mine_time -ℤ pos 6900);
        is_mine = due.mine;
      }

  unfoldable pub next_block_time : Generate → Number → Header → Bool → Result Plan
  unfolding next_due plan_of
  next_block_time gen now bestheader is_first_block = do
    due ← next_due gen now bestheader is_first_block
    ok (plan_of due)

  -- `gbt`: the template's times against the plan. The result says whether the template is used; the
  -- plan keeps a raised `mine_time` in any case. The branch for an unexpected previous block
  -- logs `bci["bestblockhash"]`, and no `bci` is in scope in this method.
  unfoldable pub gbt : Plan → TemplateTimes → List ℕ → Number → Result (Plan × Bool)
  unfolding eq_digits
  gbt plan tmpl bestblockhash now =
      if eq_digits tmpl.previousblockhash bestblockhash
      then (if ltb_ℤ plan.mine_time tmpl.mintime
          then ok (
            record plan { mine_time = tmpl.mintime },
            (if lt now (of_ℤ tmpl.mintime) then false else true),
          )
          else ok (plan, true))
      else err name_error
