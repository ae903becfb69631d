-- ===== src/Command/Checks.antt =====
-- What the checks of `do_generate` leave, and where they fail.
use mutiny_net.Prelude.{
  ℕ, ◌≤◌, ◌<◌, ◌≡◌, refl, subst, arith, Option, none, some, List, true, false, Option-cases,
  Bool-cases, inl, inr, if◌then◌else◌,
}
use mutiny_net.Prelude.Int.{ℤ, pos, ◌≤ℤ◌}
use mutiny_net.Prelude.Result.{Result, type_error}
use mutiny_net.NBits.{Ratio}
use mutiny_net.Multiminer.{Share, Checked, accepted, refused, my_blocks, default_share}
use mutiny_net.Multiminer.Text.{my_blocks-accepted}
use mutiny_net.Float.{Float}
use mutiny_net.Command.{
  Args, Check, pass, stop, raise, then_check, of_result, block_limit, chosen_nbits, check_nbits,
  of_checked, check_multiminer, check_max_interval, target_of, nversion_of, Settings, settings_of,
  settings, not_ongoing,
}

-- Inversion of a chain that passes.
then_check-eq-pass {ℓ κ} :
    {A : Type ℓ} {B : Type κ} (m : Check A) (f : A → Check B) {b : B}
    → then_check m f ≡ pass b
    → (a : A) × (m ≡ pass a) × (f a ≡ pass b)
then_check-eq-pass (pass a) f h = (a, refl, h)
then_check-eq-pass (stop p) f h = cc
then_check-eq-pass (raise e) f h = cc

-- A share has a slot, and lies in its period.
abbrev pub IsShare : Share → Type 0
IsShare m = (m.low < m.high) × (m.high ≤ m.period)

of_checked-accepted : (c : Checked) (m : Share) → of_checked c ≡ pass m → c ≡ accepted m
unfolding of_checked
of_checked-accepted (accepted n) m h = cc
of_checked-accepted (refused r) m h = cc

check_multiminer-IsShare : (args : Args) (m : Share) → check_multiminer args ≡ pass m → IsShare m
unfolding check_multiminer
check_multiminer-IsShare args m h = elim (Option-cases args.multiminer) [
  | inl e ↦
      let d : default_share ≡ m = cc (rw (e, check_multiminer) at h) in
      subst IsShare d (omega arith)
  | inr (text, e) ↦
      let c =
        of_checked-accepted (my_blocks text) m
          (ongoing_only text (rw (e, check_multiminer) at h)) in
      let a = my_blocks-accepted text m c in (a.0, a.1)
]
  where
    ongoing_only :
        (text : List ℕ)
        → (if args.ongoing then of_checked (my_blocks text) else stop not_ongoing) ≡ pass m
        → of_checked (my_blocks text) ≡ pass m
    ongoing_only text k = elim (Bool-cases args.ongoing) [
      | inl e ↦ rw e at k
      | inr e ↦ absurd (cc (rw e at k))
    ]

check_max_interval-ge : (n : ℤ) → check_max_interval n ≡ pass tt → pos 960 ≤ℤ n
unfolding check_max_interval
check_max_interval-ge n h = ground arith

-- A limit is at least one block; there is none only for `--ongoing`.
block_limit-cases :
    (args : Args) (limit : Option ℕ)
    → block_limit args ≡ pass limit
    → ((n : ℕ) → limit ≡ some n → 1 ≤ n) × (limit ≡ none → args.ongoing ≡ true)
unfolding block_limit
block_limit-cases args limit h = (λ n e. ground arith, λ e. ground arith)

module _ (fl : Float) (int_16 : List ℕ → Result ℕ) (encode : List ℕ → List ℕ) where
  open fl use {Number}

  -- The settings with which the mining loop may start.
  pub record IsSound (args : Args) (s : Settings fl int_16 encode) : Type 0 where
    pub interval : pos 960 ≤ℤ s.gen.max_interval
    pub share : IsShare s.gen.share
    pub limit : (n : ℕ) → s.limit ≡ some n → 1 ≤ n
    pub endless : s.limit ≡ none → args.ongoing ≡ true
    pub of_args : block_limit args ≡ pass s.limit

  -- The settings that pass the checks have a maximal interval of 16 minutes or more, a share with a
  -- slot inside its period, and a limit of at least one block, which is missing only for `--ongoing`;
  -- it is the limit of the arguments.
  pub settings-IsSound :
      (args : Args) (now : Number) (s : Settings fl int_16 encode)
      → settings fl int_16 encode args now ≡ pass s
      → IsSound args s
  unfolding settings
  settings-IsSound args now s h =
      let (limit, l, h₁) = then_check-eq-pass (block_limit args) _ h in
      let (_, _, h₂) =
        then_check-eq-pass (check_nbits args.set_block_time (chosen_nbits args)) _ h₁ in
      let (share, m, h₃) = then_check-eq-pass (check_multiminer args) _ h₂ in
      let (_, i, h₄) = then_check-eq-pass (check_max_interval args.max_interval) _ h₃ in
      let (target, _, h₅) =
        then_check-eq-pass (of_result (target_of int_16 (chosen_nbits args))) _ h₄ in
      let (nversion, _, h₆) =
        then_check-eq-pass (of_result (nversion_of int_16 args.nversion)) _ h₅ in
      let e : settings_of fl int_16 encode args now limit share target nversion ≡ s = cc in
      subst (IsSound args) e (
        made limit share target nversion (block_limit-cases args limit l) l
          (check_multiminer-IsShare args share m) (check_max_interval-ge args.max_interval i))
    where
      made :
          (limit : Option ℕ) (share : Share) (target : Ratio) (nversion : Option ℕ)
          → ((n : ℕ) → limit ≡ some n → 1 ≤ n) × (limit ≡ none → args.ongoing ≡ true)
          → block_limit args ≡ pass limit
          → IsShare share
          → pos 960 ≤ℤ args.max_interval
          → IsSound args (settings_of fl int_16 encode args now limit share target nversion)
      made limit share target nversion l b m i =
          unfold settings_of in
          record { interval = i; share = m; limit = l.0; endless = l.1; of_args = b }

  -- With a block time, no compact target, no `--multiminer` and a maximal interval that is permitted,
  -- the checks end in a TypeError: no message asks for `--nbits`.
  pub settings-no_nbits :
      (args : Args) (now : Number) (t : ℤ)
      → args.set_block_time ≡ some t
      → args.nbits ≡ none
      → args.min_nbits ≡ false
      → args.multiminer ≡ none
      → pos 960 ≤ℤ args.max_interval
      → settings fl int_16 encode args now ≡ raise type_error
  unfolding settings
  settings-no_nbits args now t e n f m i = ground arith

  -- The limit of the settings is that of the arguments.
  pub settings-limit :
      (args : Args) (now : Number) (s : Settings fl int_16 encode) (n : ℕ)
      → settings fl int_16 encode args now ≡ pass s
      → block_limit args ≡ pass (some n)
      → s.limit ≡ some n
  settings-limit args now s n h k = cc ((settings-IsSound args now s h).of_args)
