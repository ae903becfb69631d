-- ===== src/Mine.antt =====
-- `generate_psbt` and `Generate.mine` of `miner`, and the commands `genpsbt` and `solvepsbt`: a block
-- is made from a template, signed as a PSBT, decoded and finished. The wallet that signs is a
-- parameter: `walletprocesspsbt` tells whether the result is complete, and gives a PSBT.
pub mod Signed
pub mod Tests
use mutiny_net.Prelude.{ℕ, Option, none, some, List, Bool, true, false}
use mutiny_net.Prelude.Int.{ℤ}
use mutiny_net.Prelude.Result.{Result, ok, ◌>>=◌}
use mutiny_net.Messages.{CBlock}
use mutiny_net.Messages.Write.{ser_block}
use mutiny_net.Signet.{BlockTemplate, block_to_sign, finish_block}
use mutiny_net.Psbt.{psbt_to_sign, decode_psbt}

-- The attributes of `Generate` that `mine` reads.
pub record MineSettings : Type 0 where
  pub mine_time : ℤ
  pub poolid : Option (List ℕ)
  pub nversion : Option ℤ

-- The reply of the wallet
pub record Processed : Type 0 where
  pub complete : Bool
  pub psbt : List ℕ

module _ (hash256 : List ℕ → List ℕ) where
  unfoldable pub generate_psbt :
      BlockTemplate → List ℕ → Option ℤ → Option (List ℕ) → Option ℤ → Result (List ℕ)
  unfolding block_to_sign psbt_to_sign
  generate_psbt tmpl reward_spk blocktime poolid nversion = do
    (block, signme, spendme) ← block_to_sign hash256 tmpl reward_spk blocktime poolid nversion
    psbt_to_sign block signme spendme

  -- A block that was signed, from its PSBT
  unfoldable pub solved : List ℕ → Option (List ℕ → Result (List ℕ)) → Result CBlock
  unfolding decode_psbt finish_block
  solved psbt grind_cmd = do
    (block, signet_solution) ← decode_psbt psbt
    finish_block hash256 block signet_solution grind_cmd

  unfoldable pub mine_outcome :
      Option (List ℕ → Result (List ℕ)) → Processed → Result (Option CBlock)
  unfolding solved
  mine_outcome grind_cmd signed = elim signed.complete [
    | false ↦ ok none
    | true ↦ do block ← solved signed.psbt grind_cmd; ok (some block)
  ]

  -- `Generate.mine`; `none` if the signing failed
  unfoldable pub mine :
      MineSettings
      → (List ℕ → Result Processed)
      → Option (List ℕ → Result (List ℕ))
      → BlockTemplate
      → List ℕ
      → Result (Option CBlock)
  unfolding generate_psbt mine_outcome
  mine gen wallet grind_cmd tmpl reward_spk = do
    psbt ← generate_psbt tmpl reward_spk (some gen.mine_time) gen.poolid gen.nversion
    signed ← wallet psbt
    mine_outcome grind_cmd signed

  -- `do_genpsbt`, from the template and the script of the reward on
  unfoldable pub do_genpsbt : Option (List ℕ) → Option ℤ → BlockTemplate → List ℕ → Result (List ℕ)
  unfolding generate_psbt
  do_genpsbt poolid nversion tmpl reward_spk = generate_psbt tmpl reward_spk none poolid nversion

  -- `do_solvepsbt`: the bytes whose text is printed
  unfoldable pub do_solvepsbt : List ℕ → Option (List ℕ → Result (List ℕ)) → Result (List ℕ)
  unfolding solved ser_block
  do_solvepsbt psbt grind_cmd = do block ← solved psbt grind_cmd; ser_block block
