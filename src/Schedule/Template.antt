-- ===== src/Schedule/Template.antt =====
-- The block template: which one is used, and what its times do to the plan.
use mutiny_net.Prelude.{ℕ, ◌≡◌, arith, true, false, List, ◌⊎◌}
use mutiny_net.Prelude.Int.{◌≤ℤ◌}
use mutiny_net.Prelude.Result.{ok}
use mutiny_net.NBits.{eq_digits}
use mutiny_net.Float.{Float}
use mutiny_net.Schedule.{TemplateTimes, Plan, gbt}

module _ (fl : Float) where
  open fl use {Number, lt, of_ℤ, lt_of_ℤ_mono}

  pub gbt-used :
      (plan plan' : Plan) (tmpl : TemplateTimes) (bestblockhash : List ℕ) (now : Number)
      → gbt fl plan tmpl bestblockhash now ≡ ok (plan', true)
      → (eq_digits tmpl.previousblockhash bestblockhash ≡ true)
        × (tmpl.mintime ≤ℤ plan'.mine_time)
        × ((plan' ≡ plan)
            ⊎ ((plan' ≡ record plan { mine_time = tmpl.mintime })
                × (lt now (of_ℤ tmpl.mintime) ≡ false)))
  unfolding gbt
  gbt-used plan plan' tmpl bestblockhash now h = ground arith
