-- ===== src/Signet/Commitment.antt =====
-- What the signature of a block covers.
use mutiny_net.Prelude.{
  ℕ, ◌≡◌, refl, ap, sym, ◌∙◌, subst, none, some, List, [], ◌∷◌, ◌++◌, map, take, drop,
}
use mutiny_net.Prelude.Result.{Result, ok, err, ◌>>=◌, >>=-eq-ok, ok-injective}
use mutiny_net.Prelude.Int.{ℤ}
use mutiny_net.Bytes.{to_bytes, to_bytes_signed}
use mutiny_net.Bytes.Reads.{◌+>◌}
use mutiny_net.Messages.{CTransaction, CTxOut, CBlockHeader, CBlock}
use mutiny_net.Messages.Write.{ser_uint256, serialize_without_witness}
use mutiny_net.Script.{encode_op_pushdata}
use mutiny_net.Block.{txid, known_sha256, rehash, leaves, on_each, get_merkle_root}
use mutiny_net.Block.Merkle.{Hashed, done, next, leaves-Hashed}
use mutiny_net.Signet.{
  signet_header, extend_last, extend_coinbase, signet_data, signet_root, signing_pair, signet_txs,
  to_spend_tx, spend_tx,
}
use mutiny_net.Signet.Finish.{rehash-eq-ok}

-- A transaction without its witness and its cached identifier
abbrev pub bare : CTransaction → CTransaction
bare tx = record tx { wit = []; sha256 = none }

signet_data-same :
    (h₁ h₂ : CBlockHeader) (mroot : ℕ)
    → h₁.n_version ≡ h₂.n_version
    → h₁.hash_prev_block ≡ h₂.hash_prev_block
    → h₁.n_time ≡ h₂.n_time
    → signet_data h₁ mroot ≡ signet_data h₂ mroot
unfolding signet_data
signet_data-same h₁ h₂ mroot v p t =
    ap
      (λ (n : ℤ).
        to_bytes_signed 4 n
        +> ser_uint256 h₁.hash_prev_block
        +> ser_uint256 mroot
        +> to_bytes 4 h₁.n_time)
      v
    ∙ ap
        (λ (n : ℕ).
          to_bytes_signed 4 h₂.n_version
          +> ser_uint256 n
          +> ser_uint256 mroot
          +> to_bytes 4 h₁.n_time)
        p
    ∙ ap
        (λ (n : ℕ).
          to_bytes_signed 4 h₂.n_version
          +> ser_uint256 h₂.hash_prev_block
          +> ser_uint256 mroot
          +> to_bytes 4 n)
        t

module _ (hash256 : List ℕ → List ℕ) where
  leaves-bare :
      (vtx : List CTransaction) → leaves (txid hash256) (map bare vtx) ≡ leaves (txid hash256) vtx
  unfolding leaves txid serialize_without_witness
  leaves-bare [] = refl
  leaves-bare (tx ∷ vtx) = rw (leaves-bare vtx) refl

  on_each-rehash-Hashed :
      (vtx vtx' : List CTransaction)
      → on_each (rehash hash256) vtx ≡ ok vtx'
      → Hashed hash256 vtx vtx'
  unfolding on_each
  on_each-rehash-Hashed [] vtx' e = subst (Hashed hash256 []) (ok-injective e) done
  on_each-rehash-Hashed (tx ∷ vtx) vtx' e =
      let (tx', e₁, e₂) = >>=-eq-ok (rehash hash256 tx) _ e in
      let (rest, e₃, e₄) = >>=-eq-ok (on_each (rehash hash256) vtx) _ e₂ in
      let (h, k, g) = rehash-eq-ok hash256 tx tx' e₁ in
      let same : record tx { sha256 = some h } ∷ rest ≡ vtx' =
        ap (λ (t : CTransaction). t ∷ rest) g ∙ ok-injective e₄ in
      subst (Hashed hash256 (tx ∷ vtx)) same
        (next tx h vtx rest k (on_each-rehash-Hashed vtx rest e₃))

  rehash-ok :
      (tx : CTransaction) (h : ℕ)
      → txid hash256 tx ≡ ok h
      → rehash hash256 tx ≡ ok (record tx { sha256 = some h })
  unfolding rehash txid
  rehash-ok tx h e = ap (λ (r : Result ℕ). r >>= λ k. ok (record tx { sha256 = some k })) e

  -- If the identifiers can be computed, the rehashing succeeds.
  on_each-rehash-ok :
      (vtx : List CTransaction) (hashes : List (List ℕ))
      → leaves (txid hash256) vtx ≡ ok hashes
      → (vtx' : List CTransaction) × (on_each (rehash hash256) vtx ≡ ok vtx')
  unfolding on_each leaves rehash txid
  on_each-rehash-ok [] hashes e = ([], refl)
  on_each-rehash-ok (tx ∷ vtx) hashes e =
      let (h, e₁, f₁) = >>=-eq-ok (txid hash256 tx) _ e in
      let (s, _, f₂) = >>=-eq-ok (ser_uint256 h) _ f₁ in
      let (rest, e₃, _) = >>=-eq-ok (leaves (txid hash256) vtx) _ f₂ in
      let (vtx', g) = on_each-rehash-ok vtx rest e₃ in
      let t : CTransaction = record tx { sha256 = some h } in
      (
        t ∷ vtx',
        ap
              (λ (r : Result CTransaction).
                r >>= λ tx'. on_each (rehash hash256) vtx >>= λ rest. ok (tx' ∷ rest))
              (rehash-ok tx h e₁)
            ∙ ap (λ (r : Result (List CTransaction)). r >>= λ rest. ok (t ∷ rest)) g,
      )

  -- The Merkle root that is signed, from identifiers that are computed anew
  unfoldable pub fresh_root : List CTransaction → Result ℕ
  unfolding extend_coinbase leaves txid get_merkle_root encode_op_pushdata
  fresh_root vtx = do
    txs ← extend_coinbase (encode_op_pushdata signet_header) vtx
    hashes ← leaves (txid hash256) txs
    get_merkle_root hash256 hashes

  -- The rest of `fresh_root` behind the coinbase's last output
  abbrev root_with : CTransaction → List CTransaction → Result (List CTxOut) → Result ℕ
  root_with tx vtx r = (r >>= λ vout. ok (record tx { vout = vout } ∷ vtx)) >>= λ txs.
      leaves (txid hash256) txs >>= λ hashes. get_merkle_root hash256 hashes

  fresh_root-cons :
      (tx : CTransaction) (vtx : List CTransaction) {r : Result (List CTxOut)}
      → extend_last (encode_op_pushdata signet_header) tx.vout ≡ r
      → fresh_root (tx ∷ vtx) ≡ root_with tx vtx r
  unfolding fresh_root
  fresh_root-cons tx vtx e = ap (root_with tx vtx) e

  fresh_root-bare : (vtx : List CTransaction) → fresh_root (map bare vtx) ≡ fresh_root vtx
  unfolding fresh_root
  fresh_root-bare [] = refl
  fresh_root-bare (tx ∷ vtx) = cases (extend_last (encode_op_pushdata signet_header) tx.vout) refl
    where
      cases :
          (r : Result (List CTxOut))
          → extend_last (encode_op_pushdata signet_header) tx.vout ≡ r
          → fresh_root (bare tx ∷ map bare vtx) ≡ fresh_root (tx ∷ vtx)
      cases (err x) e = fresh_root-cons (bare tx) (map bare vtx) e ∙ sym (fresh_root-cons tx vtx e)
      cases (ok vout) e =
          fresh_root-cons (bare tx) (map bare vtx) e
          ∙ ap (λ (l : Result (List (List ℕ))). l >>= λ hashes. get_merkle_root hash256 hashes)
              (leaves-bare (record tx { vout = vout } ∷ vtx))
          ∙ sym (fresh_root-cons tx vtx e)

  signet_root-fresh_root :
      (vtx vtx' : List CTransaction) (mroot : ℕ)
      → signet_root hash256 vtx ≡ ok (vtx', mroot)
      → fresh_root vtx ≡ ok mroot
  unfolding signet_root fresh_root
  signet_root-fresh_root vtx vtx' mroot e =
      let (txs, e₁, f₁) = >>=-eq-ok (extend_coinbase (encode_op_pushdata signet_header) vtx) _ e in
      let (txs', e₂, f₂) = >>=-eq-ok (on_each (rehash hash256) txs) _ f₁ in
      let (hashes, e₃, f₃) = >>=-eq-ok (leaves (known_sha256 hash256) txs') _ f₂ in
      let (m, e₄, f₄) = >>=-eq-ok (get_merkle_root hash256 hashes) _ f₃ in
      let ids = sym (leaves-Hashed hash256 txs txs' (on_each-rehash-Hashed txs txs' e₂)) ∙ e₃ in
      ap
        (λ (r : Result (List CTransaction)).
          r >>= λ t. leaves (txid hash256) t >>= λ hs. get_merkle_root hash256 hs)
        e₁
      ∙ ap (λ (r : Result (List (List ℕ))). r >>= λ hs. get_merkle_root hash256 hs) ids
      ∙ e₄
      ∙ ap (λ (x : List CTransaction × ℕ). ok (x.1)) (ok-injective f₄)

  signet_root-ok :
      (vtx : List CTransaction) (mroot : ℕ)
      → fresh_root vtx ≡ ok mroot
      → (vtx' : List CTransaction) × (signet_root hash256 vtx ≡ ok (vtx', mroot))
  unfolding signet_root fresh_root
  signet_root-ok vtx mroot e =
      let (txs, e₁, f₁) = >>=-eq-ok (extend_coinbase (encode_op_pushdata signet_header) vtx) _ e in
      let (hashes, e₂, f₂) = >>=-eq-ok (leaves (txid hash256) txs) _ f₁ in
      let (txs', e₃) = on_each-rehash-ok txs hashes e₂ in
      let ids = leaves-Hashed hash256 txs txs' (on_each-rehash-Hashed txs txs' e₃) ∙ e₂ in
      (take 1 vtx ++ drop 1 txs', rw (e₁, e₃, ids, f₂) refl)

  signing_pair-same :
      (h₁ h₂ : CBlockHeader) (mroot : ℕ) (challenge : List ℕ)
      → h₁.n_version ≡ h₂.n_version
      → h₁.hash_prev_block ≡ h₂.hash_prev_block
      → h₁.n_time ≡ h₂.n_time
      → signing_pair hash256 h₁ mroot challenge ≡ signing_pair hash256 h₂ mroot challenge
  unfolding signing_pair
  signing_pair-same h₁ h₂ mroot challenge v p t =
      ap
        (λ (r : Result (List ℕ)). r >>= λ sd. encode_op_pushdata sd >>= λ push.
          rehash hash256 (to_spend_tx push challenge) >>= λ to_spend.
          known_sha256 hash256 to_spend >>= λ hash. ok (spend_tx hash, to_spend))
        (signet_data-same h₁ h₂ mroot v p t)

  -- Two blocks have the same transactions to sign, whatever is signed with them, if they agree in the
  -- version, the block before, the time, and the transactions without their witnesses: compact target,
  -- nonce, Merkle root in the header, witnesses and cached identifiers do not count.
  pub signet_txs-same :
      (b₁ b₂ b₁' : CBlock) (challenge : List ℕ) (spend to_spend : CTransaction)
      → b₁.header.n_version ≡ b₂.header.n_version
      → b₁.header.hash_prev_block ≡ b₂.header.hash_prev_block
      → b₁.header.n_time ≡ b₂.header.n_time
      → map bare b₁.vtx ≡ map bare b₂.vtx
      → signet_txs hash256 b₁ challenge ≡ ok (b₁', spend, to_spend)
      → (b₂' : CBlock) × (signet_txs hash256 b₂ challenge ≡ ok (b₂', spend, to_spend))
  unfolding signet_txs
  signet_txs-same b₁ b₂ b₁' challenge spend to_spend v p t same e =
      let ((vtx, mroot), e₁, f₁) = >>=-eq-ok (signet_root hash256 b₁.vtx) _ e in
      let ((s, u), e₂, f₂) = >>=-eq-ok (signing_pair hash256 b₁.header mroot challenge) _ f₁ in
      let fresh : fresh_root b₂.vtx ≡ ok mroot =
        sym (fresh_root-bare b₂.vtx)
        ∙ ap fresh_root (sym same)
        ∙ fresh_root-bare b₁.vtx
        ∙ signet_root-fresh_root b₁.vtx vtx mroot e₁ in
      let (vtx₂, g₁) = signet_root-ok b₂.vtx mroot fresh in
      let g₂ = sym (signing_pair-same b₁.header b₂.header mroot challenge v p t) ∙ e₂ in
      let triple = ok-injective f₂ in
      (
        record b₂ { vtx = vtx₂ },
        ap
              (λ (r : Result (List CTransaction × ℕ)). r >>= λ x.
                signing_pair hash256 b₂.header x.1 challenge >>= λ y.
                ok (record b₂ { vtx = x.0 }, y.0, y.1))
              g₁
            ∙ ap
                (λ (r : Result (CTransaction × CTransaction)).
                  r >>= λ y. ok (record b₂ { vtx = vtx₂ }, y.0, y.1))
                g₂
            ∙ ap
                (λ (x : CBlock × CTransaction × CTransaction).
                  ok (record b₂ { vtx = vtx₂ }, x.1, x.2))
                triple,
      )
