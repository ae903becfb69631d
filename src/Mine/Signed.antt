-- ===== src/Mine/Signed.antt =====
-- What is mined with a wallet that signs.
use mutiny_net.Prelude.{
  ℕ, ◌≡◌, ap, sym, ◌∙◌, map, Option, none, some, List, [], ◌∷◌, ◌++◌, true, length, drop,
}
use mutiny_net.Prelude.Int.{ℤ}
use mutiny_net.Prelude.Result.{Result, ok, >>=-eq-ok, ok-injective}
use mutiny_net.Messages.{CTransaction, CBlockHeader, CBlock}
use mutiny_net.Messages.Write.{ser_string, serialize_with_witness, ser_block}
use mutiny_net.Messages.RoundTrip.{as_read, HaveInputs}
use mutiny_net.Script.{encode_op_pushdata}
use mutiny_net.Block.{rehash, known_sha256}
use mutiny_net.Block.Merkle.{EachRight}
use mutiny_net.Signet.{
  BlockTemplate, spend_tx, to_spend_tx, signet_data, signet_root, signing_pair, signet_txs,
  template_block, block_to_sign, finish_block,
}
use mutiny_net.Signet.Finish.{IsFinished, finish_block-IsFinished}
use mutiny_net.Psbt.{
  PsbtMap, get_or_default, in_final_scriptsig, in_final_scriptwitness, ser_psbt, psbt_to_sign,
  decode_psbt,
}
use mutiny_net.Psbt.Maps.{NewKeys}
use mutiny_net.Psbt.Decode.{globals, decode_psbt-signed, step}
use mutiny_net.Mine.{MineSettings, Processed, generate_psbt, solved, mine_outcome, mine}

-- A block as it is read back
abbrev pub read_block : CBlock → CBlock
read_block b = record { header = record b.header { block_sha256 = none }; vtx = map as_read b.vtx }

module _ (hash256 : List ℕ → List ℕ) where
  -- What was read has no identifier cached.
  as_read-EachRight : (vtx : List CTransaction) → EachRight hash256 (map as_read vtx)
  unfolding as_read
  as_read-EachRight [] = tt
  as_read-EachRight (tx ∷ vtx) = (record { cached = λ h e. absurd (cc e) }, as_read-EachRight vtx)

  as_read-EachRight-drop : (vtx : List CTransaction) → EachRight hash256 (drop 1 (map as_read vtx))
  as_read-EachRight-drop [] = tt
  as_read-EachRight-drop (tx ∷ vtx) = as_read-EachRight vtx

  signing_pair-spend_tx :
      (h : CBlockHeader) (mroot : ℕ) (challenge : List ℕ) (s t : CTransaction)
      → signing_pair hash256 h mroot challenge ≡ ok (s, t)
      → (k : ℕ) × (spend_tx k ≡ s)
  unfolding signing_pair
  signing_pair-spend_tx h mroot challenge s t e =
      let (sd, _, f₁) = >>=-eq-ok (signet_data h mroot) _ e in
      let (push, _, f₂) = >>=-eq-ok (encode_op_pushdata sd) _ f₁ in
      let (u, _, f₃) = >>=-eq-ok (rehash hash256 (to_spend_tx push challenge)) _ f₂ in
      let (k, _, f₄) = >>=-eq-ok (known_sha256 hash256 u) _ f₃ in
      (k, ap (λ (x : CTransaction × CTransaction). x.0) (ok-injective f₄))

  -- The transaction to be signed spends one output and makes one.
  block_to_sign-spend_tx :
      (tmpl : BlockTemplate) (reward_spk : List ℕ) (blocktime : Option ℤ) (poolid : Option (List ℕ))
      (nversion : Option ℤ) (block : CBlock) (s t : CTransaction)
      → block_to_sign hash256 tmpl reward_spk blocktime poolid nversion ≡ ok (block, s, t)
      → (k : ℕ) × (spend_tx k ≡ s)
  unfolding block_to_sign signet_txs
  block_to_sign-spend_tx tmpl reward_spk blocktime poolid nversion block s t e =
      let (b, _, f₁) =
        >>=-eq-ok (template_block hash256 tmpl reward_spk blocktime poolid nversion) _ e in
      let ((vtx, mroot), _, f₂) = >>=-eq-ok (signet_root hash256 b.vtx) _ f₁ in
      let ((s', t'), g, f₃) =
        >>=-eq-ok (signing_pair hash256 b.header mroot tmpl.signet_challenge) _ f₂ in
      let (k, p) = signing_pair-spend_tx b.header mroot tmpl.signet_challenge s' t' g in
      (k, p ∙ ap (λ (x : CBlock × CTransaction × CTransaction). x.1) (ok-injective f₃))

  -- The template's block, the PSBT that the wallet gets and the one that it gives back: complete, with
  -- the globals that it got, and with distinct keys in the maps of the input and the output.
  pub record IsSigning (gen : MineSettings) (wallet : List ℕ → Result Processed)
      (tmpl : BlockTemplate) (reward_spk : List ℕ) (block : CBlock) (input : PsbtMap) : Type 0 where
    pub signme : CTransaction
    pub spendme : CTransaction
    pub output : PsbtMap
    pub unsigned : List ℕ
    pub raw : List ℕ
    pub sent : List ℕ
    pub signed : List ℕ
    pub made :
        block_to_sign hash256 tmpl reward_spk (some gen.mine_time) gen.poolid gen.nversion
        ≡ ok (block, signme, spendme)
    pub inputs : HaveInputs block.vtx
    pub unsigned_written : serialize_with_witness signme ≡ ok unsigned
    pub block_written : ser_block block ≡ ok raw
    pub sent_written : psbt_to_sign block signme spendme ≡ ok sent
    pub reply : wallet sent ≡ ok (record { complete = true; psbt = signed })
    pub input_keys : NewKeys [] input
    pub output_keys : NewKeys [] output
    pub signed_written : ser_psbt (globals unsigned raw) (input ∷ []) (output ∷ []) ≡ ok signed

  generate_psbt-ok :
      (gen : MineSettings) (tmpl : BlockTemplate) (reward_spk : List ℕ) (block : CBlock)
      (s t : CTransaction) (sent : List ℕ)
      → block_to_sign hash256 tmpl reward_spk (some gen.mine_time) gen.poolid gen.nversion
        ≡ ok (block, s, t)
      → psbt_to_sign block s t ≡ ok sent
      → generate_psbt hash256 tmpl reward_spk (some gen.mine_time) gen.poolid gen.nversion ≡ ok sent
  unfolding generate_psbt
  generate_psbt-ok gen tmpl reward_spk block s t sent e f =
      step (block_to_sign hash256 tmpl reward_spk (some gen.mine_time) gen.poolid gen.nversion) _ e
        f

  IsFinished-of :
      (grind_cmd : Option (List ℕ → Result (List ℕ))) (block b : CBlock) (signed solution : List ℕ)
      → EachRight hash256 (drop 1 block.vtx)
      → decode_psbt signed ≡ ok (block, solution)
      → mine_outcome hash256 grind_cmd (record { complete = true; psbt = signed }) ≡ ok (some b)
      → IsFinished hash256 block solution grind_cmd b
  unfolding mine_outcome solved
  IsFinished-of grind_cmd block b signed solution right decoded e =
      let (b', g₁, f₁) = >>=-eq-ok (solved hash256 signed grind_cmd) _ e in
      let (x, g₂, f₂) = >>=-eq-ok (decode_psbt signed) _ g₁ in
      let pair : x ≡ (block, solution) = ok-injective (sym g₂ ∙ decoded) in
      let same : b' ≡ b = cc (ok-injective f₁) in
      finish_block-IsFinished hash256 block b solution grind_cmd right (
        sym (ap (λ (y : CBlock × List ℕ). finish_block hash256 y.0 y.1 grind_cmd) pair)
        ∙ f₂
        ∙ ap ok same)

  -- With a wallet that signs, a block that `mine` gives is the template's block, finished with the
  -- final scripts that the wallet gave.
  pub mine-IsFinished :
      (gen : MineSettings) (wallet : List ℕ → Result Processed)
      (grind_cmd : Option (List ℕ → Result (List ℕ))) (tmpl : BlockTemplate) (reward_spk : List ℕ)
      (block b : CBlock) (input : PsbtMap) (sig : List ℕ)
      → IsSigning gen wallet tmpl reward_spk block input
      → ser_string (get_or_default in_final_scriptsig input []) ≡ ok sig
      → mine hash256 gen wallet grind_cmd tmpl reward_spk ≡ ok (some b)
      → IsFinished hash256
          (read_block block)
          (sig ++ get_or_default in_final_scriptwitness input (0 ∷ []))
          grind_cmd
          b
  unfolding mine generate_psbt mine_outcome solved
  mine-IsFinished gen wallet grind_cmd tmpl reward_spk block b input sig r es e =
      let solution = sig ++ get_or_default in_final_scriptwitness input (0 ∷ []) in
      let (k, p) =
        block_to_sign-spend_tx tmpl reward_spk (some gen.mine_time) gen.poolid gen.nversion block
          r.signme r.spendme r.made in
      let decoded =
        decode_psbt-signed block r.signme input r.output r.unsigned r.raw sig r.signed r.inputs
          (ap (λ (t : CTransaction). length t.vin) (sym p))
          (ap (λ (t : CTransaction). length t.vout) (sym p)) r.input_keys r.output_keys
          r.unsigned_written r.block_written es r.signed_written in
      let (psbt, g₁, f₁) =
        >>=-eq-ok
          (generate_psbt hash256 tmpl reward_spk (some gen.mine_time) gen.poolid gen.nversion) _
          e in
      let (reply, g₂, f₂) = >>=-eq-ok (wallet psbt) _ f₁ in
      let sent : psbt ≡ r.sent = ok-injective (
        sym g₁
        ∙ generate_psbt-ok gen tmpl reward_spk block r.signme r.spendme r.sent r.made
            r.sent_written) in
      let replied = ok-injective (sym g₂ ∙ ap wallet sent ∙ r.reply) in
      IsFinished-of grind_cmd (read_block block) b r.signed solution
        (as_read-EachRight-drop block.vtx) decoded
        (sym (ap (mine_outcome hash256 grind_cmd) replied) ∙ f₂)
