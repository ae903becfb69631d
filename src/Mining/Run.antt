-- ===== src/Mining/Run.antt =====
-- Whole runs of the mining loop.
use mutiny_net.Prelude.{
  ℕ, ◌+◌, ◌≤◌, ◌<◌, ◌≡◌, refl, ◌⊎◌, inl, inr, arith, Option, some, List, [], ◌∷◌, true, false,
  Bool-cases, leb,
}
use mutiny_net.Prelude.Int.{pos, ◌≤ℤ◌, ◌-ℤ◌}
use mutiny_net.Float.{Float}
use mutiny_net.Schedule.{Generate}
use mutiny_net.Mining.{
  Surroundings, State, Event, slept, no_template, mined, After, again, failed, raised, round,
  goes_on, Status, finished, start, proceed, run,
}
use mutiny_net.Mining.Round.{IsSafe, blocks_of, round-IsSafe}

module _ (fl : Float) where
  open fl use {Number, lt, of_ℤ}

  -- The time of a mined block is neither below the template's minimum nor more than 1h55m ahead of
  -- the clock; a sleep is at most a minute.
  abbrev pub IsTimely : Event fl → Type 0
  IsTimely (slept t) = lt (of_ℤ (pos 60)) t ≡ false
  IsTimely no_template = Unit
  IsTimely (mined now tmpl plan block) =
      (lt now (of_ℤ (plan.mine_time -ℤ pos 6900)) ≡ false) × (tmpl.mintime ≤ℤ plan.mine_time)

  abbrev pub AllTimely : List (Event fl) → Type 0
  AllTimely [] = Unit
  AllTimely (e ∷ es) = IsTimely e × AllTimely es

  unfoldable pub blocks_in : List (Event fl) → ℕ
  blocks_in [] = 0
  blocks_in (e ∷ es) = blocks_of fl e + blocks_in es

  IsTimely-of : (r : Surroundings fl) (e : Event fl) → IsSafe fl r e → IsTimely e
  IsTimely-of r (slept t) h = h
  IsTimely-of r no_template h = h
  IsTimely-of r (mined now tmpl plan block) h = (h.0, h.1)

  blocks_of-le : (e : Event fl) → blocks_of fl e ≤ 1
  blocks_of-le (mined now tmpl plan block) = omega arith
  blocks_of-le _ = omega arith

  module _ (gen : Generate fl) where
    run-stops :
        (max_blocks : Option ℕ) (s : State fl) (r : Surroundings fl) (rs : List (Surroundings fl))
        → goes_on fl max_blocks s ≡ false
        → run fl gen max_blocks s (r ∷ rs) ≡ ([], finished)
    unfolding run
    run-stops max_blocks s r rs h = rw (h, run) refl

    run-proceeds :
        (max_blocks : Option ℕ) (s : State fl) (r : Surroundings fl) (rs : List (Surroundings fl))
        → goes_on fl max_blocks s ≡ true
        → run fl gen max_blocks s (r ∷ rs)
          ≡ proceed fl (round fl gen s r) (λ s'. run fl gen max_blocks s' rs)
    unfolding run
    run-proceeds max_blocks s r rs h = rw (h, run) refl

    proceed-AllTimely :
        (s : State fl) (r : Surroundings fl) (a : After fl)
        (go : State fl → List (Event fl) × Status)
        → round fl gen s r ≡ a
        → ((s' : State fl) → AllTimely (go s').0)
        → AllTimely (proceed fl a go).0
    unfolding proceed
    proceed-AllTimely s r (again e s') go h ih =
        (IsTimely-of r e (round-IsSafe fl gen s s' r e h).0, ih s')
    proceed-AllTimely s r failed go h ih = tt
    proceed-AllTimely s r (raised x) go h ih = tt

    -- In every run, whatever the node and the clock say, every block that is mined has a time that
    -- is not below the minimum of its template and not more than 1h55m ahead of the clock, and no
    -- sleep is longer than a minute.
    pub run-AllTimely :
        (max_blocks : Option ℕ) (s : State fl) (rs : List (Surroundings fl))
        → AllTimely (run fl gen max_blocks s rs).0
    run-AllTimely max_blocks s [] = unfold run in tt
    run-AllTimely max_blocks s (r ∷ rs) = elim (Bool-cases (goes_on fl max_blocks s)) [
      | inl on ↦ rw (run-proceeds max_blocks s r rs on) (
          proceed-AllTimely s r (round fl gen s r) (λ s'. run fl gen max_blocks s' rs) refl
            (λ s'. run-AllTimely max_blocks s' rs))
      | inr off ↦ rw (run-stops max_blocks s r rs off) tt
    ]

    -- What a run that may mine `n` blocks in all, of which `m` are mined, has done.
    abbrev IsCounted : ℕ → ℕ → List (Event fl) × Status → Type 0
    IsCounted n m (es, status) = (m + blocks_in es ≤ n) × (status ≡ finished → m + blocks_in es ≡ n)

    proceed-IsCounted :
        (n : ℕ) (s : State fl) (r : Surroundings fl) (a : After fl)
        (go : State fl → List (Event fl) × Status)
        → round fl gen s r ≡ a
        → s.mined_blocks < n
        → ((s' : State fl) → s'.mined_blocks ≤ n → IsCounted n s'.mined_blocks (go s'))
        → IsCounted n s.mined_blocks (proceed fl a go)
    unfolding proceed blocks_in
    proceed-IsCounted n s r (again e s') go h lt ih =
        let count = (round-IsSafe fl gen s s' r e h).1 in
        let one = blocks_of-le e in
        let (fits, full) = ih s' (omega arith) in (omega arith, λ f. omega (arith, full f))
    proceed-IsCounted n s r failed go h lt ih = (omega arith, λ f. cc)
    proceed-IsCounted n s r (raised x) go h lt ih = (omega arith, λ f. cc)

    run-IsCounted :
        (n : ℕ) (s : State fl) (rs : List (Surroundings fl))
        → s.mined_blocks ≤ n
        → IsCounted n s.mined_blocks (run fl gen (some n) s rs)
    run-IsCounted n s [] h = no_rounds (Bool-cases (leb n s.mined_blocks))
      where
        no_rounds :
            (leb n s.mined_blocks ≡ true) ⊎ (leb n s.mined_blocks ≡ false)
            → IsCounted n s.mined_blocks (run fl gen (some n) s [])
        no_rounds c = unfold run goes_on blocks_in in (omega arith, λ f. ground arith)
    run-IsCounted n s (r ∷ rs) h = elim (Bool-cases (goes_on fl (some n) s)) [
      | inl on ↦ rw (run-proceeds (some n) s r rs on) (
          proceed-IsCounted n s r (round fl gen s r) (λ s'. run fl gen (some n) s' rs) refl
            (below on) (λ s' h'. run-IsCounted n s' rs h'))
      | inr off ↦
          rw (run-stops (some n) s r rs off) (unfold blocks_in in (omega arith, λ f. reached off))
    ]
      where
        below : goes_on fl (some n) s ≡ true → s.mined_blocks < n
        below on = unfold goes_on in ground arith

        reached : goes_on fl (some n) s ≡ false → s.mined_blocks + 0 ≡ n
        reached off = unfold goes_on in ground arith

    -- A run with a limit mines no more blocks than the limit, and exactly that many if it ends with
    -- the loop's own condition.
    pub run-limit :
        (n : ℕ) (rs : List (Surroundings fl))
        → (blocks_in (run fl gen (some n) (start fl) rs).0 ≤ n)
          × ((run fl gen (some n) (start fl) rs).1 ≡ finished
              → blocks_in (run fl gen (some n) (start fl) rs).0 ≡ n)
    run-limit n rs =
        let (a, b) = run-IsCounted n (start fl) rs (omega arith) in
        (omega arith, λ f. omega (arith, b f))
