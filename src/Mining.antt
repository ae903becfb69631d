-- ===== src/Mining.antt =====
-- The loop of `do_generate` in `miner`. What a round of the loop asks of its surroundings (the
-- node's replies, the clock, the sealed block) is its input, so a run is a list of rounds. The
-- sealing of a block, `get_reward_addr_spk` and `Generate.mine`, is a function of the plan.
pub mod Round
pub mod Run
pub mod Tests
use mutiny_net.Prelude.{
  ℕ, ◌+◌, Option, none, some, List, [], ◌∷◌, Bool, true, false, leb, ◌==◌, if◌then◌else◌, not,
}
use mutiny_net.Prelude.Int.{ℤ, pos}
use mutiny_net.Prelude.Result.{Exception, Result, ok, err, ◌>>=◌}
use mutiny_net.Hex.{hex_value}
use mutiny_net.NBits.{eq_digits}
use mutiny_net.Float.{Float, py_min}
use mutiny_net.Schedule.{
  Header, TemplateTimes, Plan, Generate, next_block_delta, next_block_time, gbt,
}

-- What the loop reads of a block that `mine` returns.
pub record Sealed : Type 0 where
  pub bits : ℕ
  pub hash : List ℕ

-- `waiting`: the rounds at hand are used up, and the loop would go on.
pub data Status : Type 0 where
  finished returned_1 waiting : Status
  uncaught : Exception → Status

module _ (fl : Float) where
  open fl use {Number, lt, of_ℤ, sub}

  pub record Surroundings : Type 0 where
    pub bestblockhash : List ℕ
    pub header : Header
    pub now : Number
    pub template : TemplateTimes
    pub seal : Plan → Result (Option Sealed)

  pub record State : Type 0 where
    pub mined_blocks : ℕ
    pub bestheader : Option Header
    pub lastheader : Option (List ℕ)

  abbrev pub start : State
  start = record { mined_blocks = 0; bestheader = none; lastheader = none }

  pub data Event : Type 0 where
    slept : Number → Event
    no_template : Event
    mined : Number → TemplateTimes → Plan → Sealed → Event

  -- How a round ends: the loop goes on, `do_generate` returns 1, or an exception leaves it.
  pub data After : Type 0 where
    again : Event → State → After
    failed : After
    raised : Exception → After

  -- `bestheader`, asked for again if the best block has changed
  unfoldable pub fresh_header : Option Header → List ℕ → Header → Header
  unfolding eq_digits
  fresh_header none best header = header
  fresh_header (some old) best header = if eq_digits old.hash best then old else header

  -- The report of a new block computes the interval after it.
  unfoldable pub report_new : Generate fl → Option (List ℕ) → Header → Result (Unit {0})
  unfolding eq_digits next_block_delta
  report_new gen none bestheader = ok tt
  report_new gen (some last) bestheader =
      if eq_digits bestheader.hash last
      then ok tt
      else do delta ← next_block_delta fl gen (hex_value bestheader.bits) bestheader.hash; ok tt

  -- `sleep_for`
  unfoldable pub sleep_time : Plan → Number → Number
  unfolding py_min
  sleep_time plan now =
      let sleep_for = py_min fl (sub (of_ℤ plan.action_time) now) (of_ℤ (pos 60)) in
      if lt (of_ℤ plan.mine_time) now then py_min fl (of_ℤ (pos 20)) sleep_for else sleep_for

  unfoldable pub caught : Result After → After
  caught (ok a) = a
  caught (err e) = raised e

  -- From `mined_blocks += 1` to the end of the round.
  unfoldable pub finish_round :
      Generate fl → State → Header → Surroundings → Plan → Result (Option Sealed) → Result After
  unfolding next_block_delta
  finish_round gen s bestheader r plan sealed = do
    outcome ← sealed
    elim outcome [
      | none ↦ ok failed
      | some block ↦ do
        delta ← next_block_delta fl gen block.bits block.hash
        ok (
            again (mined r.now r.template plan block) (record {
              mined_blocks = s.mined_blocks + 1;
              bestheader = some bestheader;
              lastheader = some block.hash;
            }))
    ]

  unfoldable pub with_template :
      Generate fl → State → Header → Surroundings → Plan × Bool → Result After
  unfolding finish_round
  with_template gen s bestheader r (plan, false) = ok (
      again no_template
        (record s { bestheader = some bestheader; lastheader = some bestheader.hash }))
  with_template gen s bestheader r (plan, true) = finish_round gen s bestheader r plan (r.seal plan)

  unfoldable pub act : Generate fl → State → Header → Surroundings → Plan → Result After
  unfolding gbt with_template sleep_time
  act gen s bestheader r plan =
      if lt r.now (of_ℤ plan.action_time)
      then ok (
          again (slept (sleep_time plan r.now))
            (record s { bestheader = some bestheader; lastheader = some bestheader.hash }))
      else do
        (plan', used) ← gbt fl plan r.template r.bestblockhash r.now
        with_template gen s bestheader r (plan', used)

  unfoldable pub round : Generate fl → State → Surroundings → After
  unfolding fresh_header report_new next_block_time act caught
  round gen s r =
      let bestheader = fresh_header s.bestheader r.bestblockhash r.header in
      caught (do
        _ ← report_new gen s.lastheader bestheader
        plan ← next_block_time fl gen r.now bestheader (s.mined_blocks == 0)
        act gen s bestheader r plan)

  -- `max_blocks is None or mined_blocks < max_blocks`
  unfoldable pub goes_on : Option ℕ → State → Bool
  goes_on none s = true
  goes_on (some max_blocks) s = not (leb max_blocks s.mined_blocks)

  unfoldable pub proceed : After → (State → List Event × Status) → List Event × Status
  proceed (again e s') go = let (es, status) = go s' in (e ∷ es, status)
  proceed failed go = ([], returned_1)
  proceed (raised x) go = ([], uncaught x)

  unfoldable pub run : Generate fl → Option ℕ → State → List Surroundings → List Event × Status
  unfolding goes_on proceed
  run gen max_blocks s [] = ([], if goes_on max_blocks s then waiting else finished)
  run gen max_blocks s (r ∷ rs) = elim (goes_on max_blocks s) [
    | false ↦ ([], finished)
    | true ↦ proceed (round gen s r) (λ s'. run gen max_blocks s' rs)
  ]
