-- ===== src/Signet/Template.antt =====
-- The block that a template is made into.
use mutiny_net.Prelude.{ℕ, ◌≡◌, ap, ◌∙◌, subst, arith, Option, some, List, ◌∷◌, map}
use mutiny_net.Prelude.Int.{ℤ, pos, ◌≤ℤ◌}
use mutiny_net.Prelude.Result.{ok, >>=-eq-ok, ok-injective}
use mutiny_net.Messages.{CTransaction, CBlock, CBlockHeader}
use mutiny_net.Messages.Read.{deser_tx}
use mutiny_net.Block.{calc_witness_merkle_root}
use mutiny_net.Signet.{
  BlockTemplate, time_of_block, coinbase_tx, get_witness_script, template_block, signet_root,
  signing_pair, signet_txs, block_to_sign,
}

time_of_block-mintime :
    (tmpl : BlockTemplate) (t : ℤ)
    → (pos tmpl.mintime ≤ℤ pos (time_of_block tmpl (some t)))
      × (pos tmpl.mintime ≤ℤ t → pos (time_of_block tmpl (some t)) ≡ t)
unfolding time_of_block
time_of_block-mintime tmpl t = (ground arith, λ h. ground arith)

module _ (hash256 : List ℕ → List ℕ) where
  signet_txs-header :
      (b b' : CBlock) (challenge : List ℕ) (s u : CTransaction)
      → signet_txs hash256 b challenge ≡ ok (b', s, u)
      → b.header ≡ b'.header
  unfolding signet_txs
  signet_txs-header b b' challenge s u e =
      let ((vtx, mroot), _, f) = >>=-eq-ok (signet_root hash256 b.vtx) _ e in
      let (_, _, g) = >>=-eq-ok (signing_pair hash256 b.header mroot challenge) _ f in
      ap (λ (x : CBlock × CTransaction × CTransaction). x.0.header) (ok-injective g)

  template_block-time :
      (tmpl : BlockTemplate) (spk : List ℕ) (t : Option ℤ) (poolid : Option (List ℕ))
      (nversion : Option ℤ) (b : CBlock)
      → template_block hash256 tmpl spk t poolid nversion ≡ ok b
      → time_of_block tmpl t ≡ b.header.n_time
  unfolding template_block
  template_block-time tmpl spk t poolid nversion b e =
      let (cbtx, _, f₁) = >>=-eq-ok (coinbase_tx hash256 tmpl spk poolid) _ e in
      let (root, _, f₂) =
        >>=-eq-ok
          (calc_witness_merkle_root hash256 (cbtx ∷ map (λ s. (deser_tx s).0) tmpl.transactions)) _
          f₁ in
      let (script, _, f₄) = >>=-eq-ok (get_witness_script hash256 root 0) _ f₂ in
      ap (λ (x : CBlock). x.header.n_time) (ok-injective f₄)

  -- A block that is made for a block time has a time that is not below the template's minimum, and
  -- exactly the block time if that is not below the minimum.
  pub block_to_sign-time :
      (tmpl : BlockTemplate) (spk : List ℕ) (t : ℤ) (poolid : Option (List ℕ)) (nversion : Option ℤ)
      (b : CBlock) (s u : CTransaction)
      → block_to_sign hash256 tmpl spk (some t) poolid nversion ≡ ok (b, s, u)
      → (pos tmpl.mintime ≤ℤ pos b.header.n_time)
        × (pos tmpl.mintime ≤ℤ t → pos b.header.n_time ≡ t)
  unfolding block_to_sign
  block_to_sign-time tmpl spk t poolid nversion b s u e =
      let (b₀, e₁, f₁) = >>=-eq-ok (template_block hash256 tmpl spk (some t) poolid nversion) _ e in
      let same =
        template_block-time tmpl spk (some t) poolid nversion b₀ e₁
        ∙ ap (λ (h : CBlockHeader). h.n_time)
            (signet_txs-header b₀ b tmpl.signet_challenge s u f₁) in
      subst (λ (n : ℕ). (pos tmpl.mintime ≤ℤ pos n) × (pos tmpl.mintime ≤ℤ t → pos n ≡ t)) same
        (time_of_block-mintime tmpl t)
