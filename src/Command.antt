-- ===== src/Command.antt =====
-- The command `generate` of `miner`: `do_generate`, from its checks of the arguments to the end of
-- the mining loop. `int(_, 16)` of a text and `str.encode` belong to Python's library and are
-- parameters; of the texts that `int` accepts only those of non-negative numbers are modelled.
pub mod Checks
pub mod Whole
pub mod Tests
use mutiny_net.Prelude.{
  ℕ, ◌+◌, Option, none, some, List, [], ◌∷◌, ◌++◌, Bool, true, false, not, ◌==◌, if◌then◌else◌,
  length,
}
use mutiny_net.Prelude.Int.{ℤ, pos, negsuc, ltb_ℤ, pos_part}
use mutiny_net.Prelude.Result.{Exception, Result, ok, err, type_error, ◌>>=◌}
use mutiny_net.Decimal.{dec_text}
use mutiny_net.NBits.{Ratio, nbits_to_target}
use mutiny_net.Multiminer.{
  Share, default_share, Refusal, no_match, inconsistent, Checked, accepted, refused, my_blocks,
}
use mutiny_net.Float.{Float}
use mutiny_net.Schedule.{Generate}
use mutiny_net.Mining.{Surroundings, Event, Status, finished, returned_1, uncaught, start, run}

-- The arguments that `do_generate` reads; a text is the list of its code points.
pub record Args : Type 0 where
  pub ongoing : Bool
  pub max_blocks : Option ℤ
  pub set_block_time : Option ℤ
  pub nbits : Option (List ℕ)
  pub min_nbits : Bool
  pub poisson : Bool
  pub multiminer : Option (List ℕ)
  pub backup_delay : ℤ
  pub standby_delay : ℤ
  pub max_interval : ℤ
  pub poolnum : Option ℤ
  pub poolid : Option (List ℕ)
  pub nversion : Option (List ℕ)

-- The messages with which the command returns 1.
pub data Problem : Type 0 where
  bad_max_blocks no_nbits not_ongoing bad_max_interval : Problem
  bad_multiminer : Refusal → Problem

-- A check that may make the command return 1, or may raise.
pub data Check {ℓ} (A : Type ℓ) : Type ℓ where
  pass : A → Check A
  stop : Problem → Check A
  raise : Exception → Check A

abbrev pub then_check {ℓ κ} : {A : Type ℓ} {B : Type κ} → Check A → (A → Check B) → Check B
then_check (pass a) f = f a
then_check (stop p) f = stop p
then_check (raise e) f = raise e

abbrev of_result {ℓ} : {A : Type ℓ} → Result A → Check A
of_result (ok a) = pass a
of_result (err e) = raise e

-- `max_blocks`; `none` is no limit.
unfoldable pub block_limit : Args → Check (Option ℕ)
block_limit args = elim args.set_block_time [
  | some t ↦ pass (some 1)
  | none ↦ elim args.max_blocks [
    | some n ↦ if ltb_ℤ n (pos 1) then stop bad_max_blocks else pass (some (pos_part n))
    | none ↦ pass (if args.ongoing then none else some 1)
  ]
]

-- "1e0377ae", and `args.nbits` after `--min-nbits`
abbrev pub minimum_nbits : List ℕ
minimum_nbits = b'1' ∷ b'e' ∷ b'0' ∷ b'3' ∷ b'7' ∷ b'7' ∷ b'a' ∷ b'e' ∷ []

unfoldable pub chosen_nbits : Args → Option (List ℕ)
chosen_nbits args = if args.min_nbits then some minimum_nbits else args.nbits

-- `--nbits` has to be given, with eight characters, unless the block time is.
unfoldable pub check_nbits : Option ℤ → Option (List ℕ) → Check (Unit {0})
check_nbits (some t) nbits = pass tt
check_nbits none none = stop no_nbits
check_nbits none (some nbits) = if length nbits == 8 then pass tt else stop no_nbits

unfoldable pub of_checked : Checked → Check Share
of_checked (accepted m) = pass m
of_checked (refused r) = stop (bad_multiminer r)

unfoldable pub check_multiminer : Args → Check Share
unfolding of_checked my_blocks
check_multiminer args = elim args.multiminer [
  | none ↦ pass default_share
  | some text ↦ if args.ongoing then of_checked (my_blocks text) else stop not_ongoing
]

unfoldable pub check_max_interval : ℤ → Check (Unit {0})
check_max_interval n = if ltb_ℤ n (pos 960) then stop bad_max_interval else pass tt

module _ (encode : List ℕ → List ℕ) where
  -- `b"/signet:%d/" % args.poolnum`, unless `--poolid` is given
  unfoldable pub get_poolid : Args → Option (List ℕ)
  unfolding dec_text
  get_poolid args = elim args.poolid [
    | some text ↦ some (encode text)
    | none ↦ elim args.poolnum [
      | none ↦ none
      | some n ↦
          some (
            (b'/' ∷ b's' ∷ b'i' ∷ b'g' ∷ b'n' ∷ b'e' ∷ b't' ∷ b':' ∷ []) ++ dec_text n ++ b'/' ∷ [])
    ]
  ]

module _ (int_16 : List ℕ → Result ℕ) where
  -- `int(args.nbits,16)` of an absent text is a TypeError.
  unfoldable pub target_of : Option (List ℕ) → Result Ratio
  unfolding nbits_to_target
  target_of none = err type_error
  target_of (some nbits) = do n ← int_16 nbits; ok (nbits_to_target n)

  unfoldable pub nversion_of : Option (List ℕ) → Result (Option ℕ)
  nversion_of none = ok none
  nversion_of (some text) = do n ← int_16 text; ok (some n)

module _ (fl : Float) (int_16 : List ℕ → Result ℕ) (encode : List ℕ → List ℕ) where
  open fl use {Number, of_ℤ}

  pub record Settings : Type 0 where
    pub limit : Option ℕ
    pub gen : Generate fl
    pub poolid : Option (List ℕ)
    pub nversion : Option ℕ

  -- A negative block time stands for the current time.
  unfoldable pub block_time : Number → Option ℤ → Option Number
  block_time now none = none
  block_time now (some t) = some (if ltb_ℤ t (pos 0) then now else of_ℤ t)

  unfoldable pub settings_of : Args → Number → Option ℕ → Share → Ratio → Option ℕ → Settings
  unfolding block_time get_poolid
  settings_of args now limit share target nversion = record {
    limit = limit;
    gen = record {
      share = share;
      ultimate_target = target;
      poisson = args.poisson;
      max_interval = args.max_interval;
      standby_delay = args.standby_delay;
      backup_delay = args.backup_delay;
      set_block_time = block_time now args.set_block_time;
    };
    poolid = get_poolid encode args;
    nversion = nversion;
  }

  -- The checks of `do_generate` in their order, and the `Generate` that it makes.
  unfoldable pub settings : Args → Number → Check Settings
  unfolding block_limit chosen_nbits check_nbits check_multiminer check_max_interval target_of
      nversion_of settings_of
  settings args now = then_check (block_limit args) λ limit.
      then_check (check_nbits args.set_block_time (chosen_nbits args)) λ _.
        then_check (check_multiminer args) λ share.
          then_check (check_max_interval args.max_interval) λ _.
            then_check (of_result (target_of int_16 (chosen_nbits args))) λ target.
              then_check (of_result (nversion_of int_16 args.nversion))
                λ nversion. pass (settings_of args now limit share target nversion)

  -- The whole command, with the rounds of its loop.
  unfoldable pub do_generate : Args → Number → List (Surroundings fl) → List (Event fl) × Status
  unfolding settings run
  do_generate args now rounds = elim (settings args now) [
    | stop p ↦ ([], returned_1)
    | raise e ↦ ([], uncaught e)
    | pass s ↦ run fl s.gen s.limit (start fl) rounds
  ]
