-- ===== src/Mine/Tests.antt =====
-- A block mined from an empty template, with a wallet that adds a final script.
use mutiny_net.Prelude.{ℕ, ◌≡◌, ◌++◌, refl, arith, none, some, List, [], ◌∷◌, true}
use mutiny_net.Prelude.Int.{pos, ◌≤ℤ◌}
use mutiny_net.Prelude.Result.{Result, ok, err}
use mutiny_net.Bytes.{◌>>=◌, give}
use mutiny_net.Messages.{CTransaction, CBlock, new_tx, set_null}
use mutiny_net.Messages.Write.{serialize_with_witness, ser_block}
use mutiny_net.Block.{nonces}
use mutiny_net.Signet.{BlockTemplate, block_to_sign}
use mutiny_net.Signet.Finish.{IsFinished}
use mutiny_net.Signet.Template.{block_to_sign-time}
use mutiny_net.Signet.Tests.{zero_hash}
use mutiny_net.Psbt.{PsbtMap, has_key, ser_psbt, psbt_to_sign, in_final_scriptsig, get_or_default}
use mutiny_net.Psbt.Decode.{globals}
use mutiny_net.Mine.{MineSettings, Processed, mine}
use mutiny_net.Mine.Signed.{IsSigning, read_block, mine-IsFinished}

abbrev tmpl : BlockTemplate
tmpl = record {
  signet_challenge = 0x51 ∷ [];
  height = 300;
  coinbasevalue = pos 50;
  version = pos 4;
  previousblockhash = 0;
  curtime = 3;
  mintime = 4;
  bits = 0x1e0377ae;
  transactions = [];
}

abbrev gen : MineSettings
gen = record { mine_time = pos 5; poolid = some (0x2f ∷ []); nversion = none }

abbrev value_or {ℓ} : {A : Type ℓ} → A → Result A → A
value_or d (ok a) = a
value_or d (err x) = d

abbrev nothing : CBlock × CTransaction × CTransaction
nothing = (record { header = set_null; vtx = [] }, new_tx, new_tx)

made : CBlock × CTransaction × CTransaction
unfolding block_to_sign
made =
    value_or nothing
      (block_to_sign zero_hash tmpl (0x52 ∷ []) (some gen.mine_time) gen.poolid gen.nversion)

unsigned : List ℕ
unfolding made serialize_with_witness
unsigned = value_or [] (serialize_with_witness made.1)

raw : List ℕ
unfolding made ser_block
raw = value_or [] (ser_block made.0)

sent : List ℕ
unfolding made psbt_to_sign
sent = value_or [] (psbt_to_sign made.0 made.1 made.2)

abbrev input : PsbtMap
input = (in_final_scriptsig, 0x51 ∷ []) ∷ []

signed : List ℕ
unfolding unsigned raw ser_psbt
signed = value_or [] (ser_psbt (globals unsigned raw) (input ∷ []) ([] ∷ []))

abbrev wallet : List ℕ → Result Processed
wallet s = ok (record { complete = true; psbt = signed })

block_signed : IsSigning zero_hash gen wallet tmpl (0x52 ∷ []) made.0 input
unfolding made unsigned raw sent signed block_to_sign serialize_with_witness ser_block psbt_to_sign
    ser_psbt has_key ◌>>=◌ give
block_signed = record {
  signme = made.1;
  spendme = made.2;
  output = [];
  unsigned = unsigned;
  raw = raw;
  sent = sent;
  signed = signed;
  made = refl;
  inputs = (omega arith, tt);
  unsigned_written = refl;
  block_written = refl;
  sent_written = refl;
  reply = refl;
  input_keys = (omega arith, refl, tt);
  output_keys = tt;
  signed_written = refl;
}

mined : CBlock
unfolding mine nonces ◌>>=◌ give signed
mined = value_or (nothing.0) (elim (mine zero_hash gen wallet none tmpl (0x52 ∷ [])) [
  | ok o ↦ elim o [ some b ↦ ok b | none ↦ ok (nothing.0) ]
  | err x ↦ err x
])

mine-IsFinished_example :
    IsFinished zero_hash (read_block made.0) ((1 ∷ 0x51 ∷ []) ++ 0 ∷ []) none mined
unfolding made mined mine nonces get_or_default ◌>>=◌ give signed unsigned raw
mine-IsFinished_example =
    mine-IsFinished zero_hash gen wallet none tmpl (0x52 ∷ []) made.0 mined input (1 ∷ 0x51 ∷ [])
      block_signed refl refl

block_to_sign-time_example :
    (pos 4 ≤ℤ pos made.0.header.n_time) × (pos 4 ≤ℤ pos 5 → pos made.0.header.n_time ≡ pos 5)
unfolding made block_to_sign
block_to_sign-time_example =
    block_to_sign-time zero_hash tmpl (0x52 ∷ []) (pos 5) (some (0x2f ∷ [])) none made.0 made.1
      made.2 refl
