-- ===== src/Command/Whole.antt =====
-- The whole command `generate`: checks and loop together.
use mutiny_net.Prelude.{
  ℕ, ◌≤◌, ◌≡◌, refl, sym, subst, arith, some, List, [], false, ◌≢◌, ◌⊎◌, inl, inr,
}
use mutiny_net.Prelude.Int.{pos}
use mutiny_net.Prelude.Result.{Result, ok}
use mutiny_net.Float.{Float}
use mutiny_net.Schedule.{next_block_delta}
use mutiny_net.Schedule.Delta.{next_block_delta_bounds}
use mutiny_net.Mining.{Surroundings, Event, Status, finished, start, run}
use mutiny_net.Mining.Run.{blocks_in, run-limit}
use mutiny_net.Command.{
  Args, Check, pass, stop, raise, block_limit, Settings, settings, do_generate,
}
use mutiny_net.Command.Checks.{settings-IsSound, settings-limit}

module _ (fl : Float) (int_16 : List ℕ → Result ℕ) (encode : List ℕ → List ℕ) where
  open fl use {Number, lt, of_ℤ}

  Check-cases :
      (args : Args) (now : Number) (rounds : List (Surroundings fl))
      → ((do_generate fl int_16 encode args now rounds).0 ≡ [])
          × ((do_generate fl int_16 encode args now rounds).1 ≢ finished)
        ⊎ ((s : Settings fl int_16 encode) × (settings fl int_16 encode args now ≡ pass s)
            × (do_generate fl int_16 encode args now rounds
                ≡ run fl s.gen s.limit (start fl) rounds))
  unfolding do_generate
  Check-cases args now rounds = cases (settings fl int_16 encode args now) refl
    where
      cases :
          (c : Check (Settings fl int_16 encode))
          → settings fl int_16 encode args now ≡ c
          → ((do_generate fl int_16 encode args now rounds).0 ≡ [])
              × ((do_generate fl int_16 encode args now rounds).1 ≢ finished)
            ⊎ ((s : Settings fl int_16 encode) × (settings fl int_16 encode args now ≡ pass s)
                × (do_generate fl int_16 encode args now rounds
                    ≡ run fl s.gen s.limit (start fl) rounds))
      cases (pass s) e = inr (s, e, rw (e, do_generate) refl)
      cases (stop p) e = inl (rw (e, do_generate) refl, λ f. cc (rw (e, do_generate) at f))
      cases (raise x) e = inl (rw (e, do_generate) refl, λ f. cc (rw (e, do_generate) at f))

  -- If the arguments limit the blocks to `n`, the command mines `n` at most, and exactly `n` if it
  -- ends without an error.
  pub do_generate-limit :
      (args : Args) (now : Number) (rounds : List (Surroundings fl)) (n : ℕ)
      → block_limit args ≡ pass (some n)
      → (blocks_in fl (do_generate fl int_16 encode args now rounds).0 ≤ n)
        × ((do_generate fl int_16 encode args now rounds).1 ≡ finished
            → blocks_in fl (do_generate fl int_16 encode args now rounds).0 ≡ n)
  do_generate-limit args now rounds n l = elim (Check-cases args now rounds) [
    | inl (e, f) ↦ (
      subst (λ (es : List (Event fl)). blocks_in fl es ≤ n) (sym e)
          (unfold blocks_in in omega arith),
      λ g. absurd (f g),
    )
    | inr (s, p, e) ↦
        let limit : s.limit ≡ some n = settings-limit fl int_16 encode args now s n p l in
        subst
          (λ (r : List (Event fl) × Status).
            (blocks_in fl r.0 ≤ n) × (r.1 ≡ finished → blocks_in fl r.0 ≡ n))
          (sym e) (rw limit (run-limit fl s.gen n rounds))
  ]

  -- The settings that pass the checks make every interval to a next block one second at least, and
  -- the maximal interval at most.
  pub settings-next_block_delta :
      (args : Args) (now : Number) (s : Settings fl int_16 encode) (bits : ℕ) (hash : List ℕ)
      (delta : Number)
      → settings fl int_16 encode args now ≡ pass s
      → next_block_delta fl s.gen bits hash ≡ ok delta
      → (lt delta (of_ℤ (pos 1)) ≡ false) × (lt (of_ℤ s.gen.max_interval) delta ≡ false)
  settings-next_block_delta args now s bits hash delta p d =
      let i = (settings-IsSound fl int_16 encode args now s p).interval in
      next_block_delta_bounds fl s.gen bits hash delta (omega arith) d
