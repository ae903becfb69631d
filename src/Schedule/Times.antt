-- ===== src/Schedule/Times.antt =====
-- When a block may be mined: never with a time more than 1h55m ahead of the clock.
use mutiny_net.Prelude.{◌≡◌, arith, subst, Bool}
use mutiny_net.Prelude.Int.{ℤ, pos, ◌≤ℤ◌, ◌-ℤ◌, max_ℤ}
use mutiny_net.Prelude.Result.{ok, >>=-eq-ok, ok-injective}
use mutiny_net.Float.{Float}
use mutiny_net.Schedule.{Generate, Header, Plan, Due, plan_of, next_due, next_block_time}

max_ℤ-le_right : (a b : ℤ) → b ≤ℤ max_ℤ a b
max_ℤ-le_right a b = ground arith

module _ (fl : Float) where
  open fl use {Number, lt, of_ℤ}

  -- On every branch the action is no earlier than 1h55m before the time of the block.
  pub next_block_time-margin :
      (gen : Generate fl) (now : Number) (bestheader : Header) (first : Bool) (plan : Plan)
      → next_block_time fl gen now bestheader first ≡ ok plan
      → plan.mine_time -ℤ pos 6900 ≤ℤ plan.action_time
  unfolding next_block_time
  next_block_time-margin gen now bestheader first plan h =
      let (due, _, e) = >>=-eq-ok (next_due fl gen now bestheader first) _ h in
      subst (λ (p : Plan). p.mine_time -ℤ pos 6900 ≤ℤ p.action_time) (ok-injective e) (margin due)
    where
      margin :
          (due : Due fl) → (plan_of fl due).mine_time -ℤ pos 6900 ≤ℤ (plan_of fl due).action_time
      margin due =
          unfold plan_of in
          max_ℤ-le_right (fl.truncate due.act_at) (fl.truncate due.mine_at -ℤ pos 6900)
