-- ===== src/Mining/Round.antt =====
-- One round of the mining loop: what it may do, and what a mined block satisfies.
use mutiny_net.Prelude.{
  ℕ, ◌+◌, ◌≡◌, sym, ap, ◌∙◌, subst, ◌⊎◌, inl, inr, arith, Option, none, some, Bool, true, false,
  Bool-cases, ◌==◌,
}
use mathlib.Core.Bool.{false≢true}
use mutiny_net.Prelude.Int.{ℤ, pos, ◌≤ℤ◌, ◌-ℤ◌, int_laws}
use mutiny_net.Prelude.Result.{Result, ok, err, >>=-eq-ok}
use mutiny_net.NBits.{eq_digits}
use mutiny_net.Float.{Float, py_min-le_right}
use mutiny_net.Schedule.{
  Header, TemplateTimes, Plan, Generate, next_block_delta, next_block_time, gbt,
}
use mutiny_net.Schedule.Times.{next_block_time-margin}
use mutiny_net.Schedule.Template.{gbt-used}
use mutiny_net.Mining.{
  Sealed, Surroundings, State, Event, slept, no_template, mined, After, again, fresh_header,
  report_new, sleep_time, caught, finish_round, with_template, act, round,
}

module _ (fl : Float) where
  open fl use {Number, lt, of_ℤ, lt_of_ℤ_mono}

  -- A sleep is at most a minute. A block is mined no more than 1h55m ahead of the clock, on a
  -- template of the best block, and not below the template's minimal time.
  abbrev pub IsSafe : Surroundings fl → Event fl → Type 0
  IsSafe r (slept t) = lt (of_ℤ (pos 60)) t ≡ false
  IsSafe r no_template = Unit
  IsSafe r (mined now tmpl plan block) =
      (lt now (of_ℤ (plan.mine_time -ℤ pos 6900)) ≡ false)
      × (tmpl.mintime ≤ℤ plan.mine_time)
      × (eq_digits tmpl.previousblockhash r.bestblockhash ≡ true)

  abbrev pub blocks_of : Event fl → ℕ
  blocks_of (mined now tmpl plan block) = 1
  blocks_of _ = 0

  not_before : (x : Number) (a b : ℤ) → a ≤ℤ b → lt x (of_ℤ b) ≡ false → lt x (of_ℤ a) ≡ false
  not_before x a b h e = elim (Bool-cases (lt x (of_ℤ a))) [
    | inl t ↦ absurd (false≢true (sym e ∙ lt_of_ℤ_mono x a b h t))
    | inr f ↦ f
  ]

  used_margin :
      (plan plan' : Plan) (tmpl : TemplateTimes) (now : Number)
      → plan.mine_time -ℤ pos 6900 ≤ℤ plan.action_time
      → lt now (of_ℤ plan.action_time) ≡ false
      → (plan' ≡ plan)
        ⊎ ((plan' ≡ record plan { mine_time = tmpl.mintime })
            × (lt now (of_ℤ tmpl.mintime) ≡ false))
      → lt now (of_ℤ (plan'.mine_time -ℤ pos 6900)) ≡ false
  used_margin plan plan' tmpl now m e (inl p) =
      subst (λ (q : Plan). lt now (of_ℤ (q.mine_time -ℤ pos 6900)) ≡ false) (sym p)
        (not_before now (plan.mine_time -ℤ pos 6900) plan.action_time m e)
  used_margin plan plan' tmpl now m e (inr (p, f)) =
      subst (λ (q : Plan). lt now (of_ℤ (q.mine_time -ℤ pos 6900)) ≡ false) (sym p)
        (not_before now (tmpl.mintime -ℤ pos 6900) tmpl.mintime (omega int_laws) f)

  sleep_time-le : (plan : Plan) (now : Number) → lt (of_ℤ (pos 60)) (sleep_time fl plan now) ≡ false
  unfolding sleep_time
  sleep_time-le plan now =
      let left : Number = fl.sub (of_ℤ plan.action_time) now in
      ground (
        arith,
        py_min-le_right fl left (of_ℤ (pos 60)),
        fl.of_ℤ_mono (pos 20) (pos 60) (omega arith),
      )

  module _ (gen : Generate fl) (s s' : State fl) (header : Header) (r : Surroundings fl)
      (e : Event fl) where
    abbrev Kept : Type 0
    Kept = IsSafe r e × (s'.mined_blocks ≡ s.mined_blocks + blocks_of e)

    finish_round-mined :
        (plan : Plan) (sealed : Result (Option Sealed))
        → finish_round fl gen s header r plan sealed ≡ ok (again e s')
        → (block : Sealed) × (e ≡ mined r.now r.template plan block)
          × (s'.mined_blocks ≡ s.mined_blocks + 1)
    unfolding finish_round
    finish_round-mined plan (err x) h = cc
    finish_round-mined plan (ok none) h = cc
    finish_round-mined plan (ok (some block)) h =
        let (_, _, q) = >>=-eq-ok (next_block_delta fl gen block.bits block.hash) _ h in
        (block, ground arith, ground arith)

    kept_of :
        (e₀ : Event fl) (s₀ : State fl)
        → ok (again e₀ s₀) ≡ ok (again e s')
        → IsSafe r e₀
        → s₀.mined_blocks ≡ s.mined_blocks + blocks_of e₀
        → Kept
    kept_of e₀ s₀ h safe count =
        let p : e₀ ≡ e = cc in
        let q : s₀ ≡ s' = cc in
        (
          subst (IsSafe r) p safe,
          ap (λ (t : State fl). t.mined_blocks) (sym q)
              ∙ count
              ∙ ap (λ (t : Event fl). s.mined_blocks + blocks_of t) p,
        )

    template-Kept :
        (plan plan' : Plan) (used : Bool)
        → plan.mine_time -ℤ pos 6900 ≤ℤ plan.action_time
        → lt r.now (of_ℤ plan.action_time) ≡ false
        → gbt fl plan r.template r.bestblockhash r.now ≡ ok (plan', used)
        → with_template fl gen s header r (plan', used) ≡ ok (again e s')
        → Kept
    unfolding with_template
    template-Kept plan plan' false m due g h = kept_of no_template _ h tt (omega arith)
    template-Kept plan plan' true m due g h =
        let (block, p, q) = finish_round-mined plan' (r.seal plan') h in
        let (stands, low, which) = gbt-used fl plan plan' r.template r.bestblockhash r.now g in
        (
          subst (IsSafe r) (sym p)
              (used_margin plan plan' r.template r.now m due which, low, stands),
          q ∙ ap (λ (t : Event fl). s.mined_blocks + blocks_of t) (sym p),
        )

    act-Kept :
        (plan : Plan)
        → plan.mine_time -ℤ pos 6900 ≤ℤ plan.action_time
        → act fl gen s header r plan ≡ ok (again e s')
        → Kept
    unfolding act
    act-Kept plan m h = elim (Bool-cases (lt r.now (of_ℤ plan.action_time))) [
      | inl early ↦
          kept_of (slept (sleep_time fl plan r.now)) _ (rw early at h) (sleep_time-le plan r.now)
            (omega arith)
      | inr due ↦
          let ((plan', used), g, w) =
            >>=-eq-ok (gbt fl plan r.template r.bestblockhash r.now) _ (rw due at h) in
          template-Kept plan plan' used m due g w
    ]

    caught-again : (a : Result (After fl)) → caught fl a ≡ again e s' → a ≡ ok (again e s')
    unfolding caught
    caught-again (ok a) h = ap ok h
    caught-again (err x) h = cc

  pub round-IsSafe :
      (gen : Generate fl) (s s' : State fl) (r : Surroundings fl) (e : Event fl)
      → round fl gen s r ≡ again e s'
      → IsSafe r e × (s'.mined_blocks ≡ s.mined_blocks + blocks_of e)
  unfolding round
  round-IsSafe gen s s' r e h =
      let header : Header = fresh_header fl s.bestheader r.bestblockhash r.header in
      let h₁ = caught-again gen s s' header r e _ h in
      let (_, _, h₂) = >>=-eq-ok (report_new fl gen s.lastheader header) _ h₁ in
      let (plan, p, h₃) =
        >>=-eq-ok (next_block_time fl gen r.now header (s.mined_blocks == 0)) _ h₂ in
      act-Kept gen s s' header r e plan
        (next_block_time-margin fl gen r.now header (s.mined_blocks == 0) plan p) h₃
