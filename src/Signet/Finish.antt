-- ===== src/Signet/Finish.antt =====
-- What a finished block is.
use mutiny_net.Prelude.{
  ℕ, ◌≡◌, ◌≤◌, refl, ap, sym, ◌∙◌, subst, Option, none, some, List, [], ◌∷◌, ◌++◌, drop,
}
use mutiny_net.Prelude.Result.{Result, ok, >>=-eq-ok, ok-injective}
use mutiny_net.Messages.{CTransaction, CBlockHeader, CBlock}
use mutiny_net.Messages.Write.{ser_header}
use mutiny_net.Messages.Read.{deser_header}
use mutiny_net.Script.{encode_op_pushdata}
use mutiny_net.Block.{
  txid, known_sha256, calc_sha256, rehash, leaves, on_each, get_merkle_root, calc_merkle_root,
  header_hash, rehash_header, uint256_from_compact,
}
use mutiny_net.Block.Merkle.{EachRight, Hashed, next, on_each-Hashed, leaves-Hashed}
use mutiny_net.Block.Solve.{solve-IsFirst}
use mutiny_net.Signet.{
  signet_header, extend_last, extend_coinbase, rehash_first, grind_header, finish_block,
}

extend_coinbase-drop :
    (more : Result (List ℕ)) (vtx extended : List CTransaction)
    → extend_coinbase more vtx ≡ ok extended
    → drop 1 extended ≡ drop 1 vtx
unfolding extend_coinbase
extend_coinbase-drop more [] extended e = absurd (cc e)
extend_coinbase-drop more (tx ∷ vtx) extended e =
    let (vout, _, f) = >>=-eq-ok (extend_last more tx.vout) _ e in
    sym (ap (drop 1) (ok-injective f))

module _ (hash256 : List ℕ → List ℕ) where
  calc_merkle_root-Hashed :
      (vtx vtx' : List CTransaction) (root : ℕ)
      → EachRight hash256 vtx
      → calc_merkle_root hash256 vtx ≡ ok (vtx', root)
      → Hashed hash256 vtx vtx'
        × ((hashes : List (List ℕ)) × (leaves (txid hash256) vtx ≡ ok hashes)
            × (get_merkle_root hash256 hashes ≡ ok root))
  unfolding calc_merkle_root
  calc_merkle_root-Hashed vtx vtx' root r e =
      let (v, e₁, f₁) = >>=-eq-ok (on_each (calc_sha256 hash256) vtx) _ e in
      let (hashes, e₂, f₂) = >>=-eq-ok (leaves (known_sha256 hash256) v) _ f₁ in
      let (m, e₃, f₃) = >>=-eq-ok (get_merkle_root hash256 hashes) _ f₂ in
      let hashed = on_each-Hashed hash256 vtx v r e₁ in
      let p = ok-injective f₃ in
      (
        subst (Hashed hash256 vtx) (ap (λ (x : List CTransaction × ℕ). x.0) p) hashed,
        (
          hashes,
          sym (leaves-Hashed hash256 vtx v hashed) ∙ e₂,
          e₃ ∙ ap (λ (x : List CTransaction × ℕ). ok (x.1)) p,
        ),
      )

  -- A cached identifier of the coinbase is no part of what is hashed.
  Hashed-cached :
      (tx : CTransaction) (o : Option ℕ) (vtx vtx' : List CTransaction)
      → Hashed hash256 (record tx { sha256 = o } ∷ vtx) vtx'
      → Hashed hash256 (tx ∷ vtx) vtx'
  unfolding txid
  Hashed-cached tx o vtx _ (next _ h _ v' e r) = next tx h vtx v' e r

  leaves-cached :
      (tx : CTransaction) (o : Option ℕ) (vtx : List CTransaction)
      → leaves (txid hash256) (record tx { sha256 = o } ∷ vtx) ≡ leaves (txid hash256) (tx ∷ vtx)
  unfolding leaves txid
  leaves-cached tx o vtx = refl

  pub rehash-eq-ok :
      (tx tx' : CTransaction)
      → rehash hash256 tx ≡ ok tx'
      → (h : ℕ) × (txid hash256 tx ≡ ok h) × (record tx { sha256 = some h } ≡ tx')
  unfolding rehash txid
  rehash-eq-ok tx tx' e =
      let (h, e₁, f) = >>=-eq-ok (txid hash256 tx) _ e in (h, e₁, ok-injective f)

  -- The coinbase is hashed anew, whatever was cached for it.
  rehash_first-eq-ok :
      (vtx vtx' : List CTransaction)
      → EachRight hash256 (drop 1 vtx)
      → rehash_first hash256 vtx ≡ ok vtx'
      → EachRight hash256 vtx'
        × ((w : List CTransaction) → Hashed hash256 vtx' w → Hashed hash256 vtx w)
        × (leaves (txid hash256) vtx' ≡ leaves (txid hash256) vtx)
  unfolding rehash_first txid
  rehash_first-eq-ok [] vtx' r e = absurd (cc e)
  rehash_first-eq-ok (tx ∷ vtx) vtx' r e =
      let (tx', e₁, f) = >>=-eq-ok (rehash hash256 tx) _ e in
      let (h, e₂, g) = rehash-eq-ok tx tx' e₁ in
      let same : record tx { sha256 = some h } ∷ vtx ≡ vtx' =
        ap (λ (t : CTransaction). t ∷ vtx) g ∙ ok-injective f in
      subst
        (λ (l : List CTransaction).
          EachRight hash256 l
          × ((w : List CTransaction) → Hashed hash256 l w → Hashed hash256 (tx ∷ vtx) w)
          × (leaves (txid hash256) l ≡ leaves (txid hash256) (tx ∷ vtx)))
        same
        (
          (record { cached = λ k p. e₂ ∙ cc p }, r),
          λ w. Hashed-cached tx (some h) vtx w,
          leaves-cached tx (some h) vtx,
        )

  -- What the header is after the search for a nonce, or after the command.
  pub record IsGround (grind_cmd : Option (List ℕ → Result (List ℕ))) (h h' : CBlockHeader)
      : Type 0 where
    pub value : ℕ
    pub header : h' ≡ record h { n_nonce = h'.n_nonce; block_sha256 = some value }
    pub hashed : header_hash hash256 h' ≡ ok value
    pub searched :
        grind_cmd ≡ none
        → (target : ℕ) × (uint256_from_compact h.n_bits ≡ ok target) × (value ≤ target)

  grind_header-IsGround :
      (grind_cmd : Option (List ℕ → Result (List ℕ))) (h h' : CBlockHeader)
      → grind_header hash256 grind_cmd h ≡ ok h'
      → IsGround grind_cmd h h'
  unfolding grind_header rehash_header header_hash
  grind_header-IsGround none h h' e =
      let (target, u, f) = solve-IsFirst hash256 h h' e in
      record {
        value = f.value;
        header = f.header;
        hashed = f.hashed;
        searched = λ _. (target, u, f.meets);
      }
  grind_header-IsGround (some grind) h h' e =
      let (head, _, f) = >>=-eq-ok (ser_header h) _ e in
      let (newhead, _, g) = >>=-eq-ok (grind head) _ f in
      let found = record h { n_nonce = ((deser_header newhead).0).n_nonce } in
      let (v, k, p) = >>=-eq-ok (header_hash hash256 found) _ g in
      subst (IsGround (some grind) h) (ok-injective p)
        (record { value = v; header = refl; hashed = k; searched = λ q. absurd (cc q) })

  -- The finished block: its coinbase ends with the solution, the identifier of each transaction is
  -- cached, the header holds their Merkle root, and nothing else of the block is changed but the
  -- nonce and the cached hash.
  pub record IsFinished (block : CBlock) (solution : List ℕ)
      (grind_cmd : Option (List ℕ → Result (List ℕ))) (b : CBlock) : Type 0 where
    pub extended : List CTransaction
    pub hashes : List (List ℕ)
    pub signed :
        extend_coinbase (encode_op_pushdata (signet_header ++ solution)) block.vtx ≡ ok extended
    pub same : Hashed hash256 extended b.vtx
    pub ids : leaves (txid hash256) extended ≡ ok hashes
    pub root : get_merkle_root hash256 hashes ≡ ok b.header.hash_merkle_root
    pub ground_header :
        IsGround grind_cmd
          (record block.header { hash_merkle_root = b.header.hash_merkle_root })
          b.header

  root_kept :
      (block : CBlock) (grind_cmd : Option (List ℕ → Result (List ℕ))) (root : ℕ) (h : CBlockHeader)
      → grind_header hash256 grind_cmd (record block.header { hash_merkle_root = root }) ≡ ok h
      → root ≡ h.hash_merkle_root
  root_kept block grind_cmd root h e =
      sym (
        ap (λ (k : CBlockHeader). k.hash_merkle_root)
          (grind_header-IsGround grind_cmd _ h e).header)

  -- If the transactions behind the coinbase have no wrong identifier cached, as those of a block that
  -- was just read, a block that is finished is finished rightly: its coinbase ends with the solution,
  -- its header holds the Merkle root of the transactions that it has then, and the cached hash is that
  -- of the header; without a grinding command the hash meets the target of the header.
  pub finish_block-IsFinished :
      (block b : CBlock) (solution : List ℕ) (grind_cmd : Option (List ℕ → Result (List ℕ)))
      → EachRight hash256 (drop 1 block.vtx)
      → finish_block hash256 block solution grind_cmd ≡ ok b
      → IsFinished block solution grind_cmd b
  unfolding finish_block
  finish_block-IsFinished block b solution grind_cmd r e =
      let more = encode_op_pushdata (signet_header ++ solution) in
      let (extended, e₁, f₁) = >>=-eq-ok (extend_coinbase more block.vtx) _ e in
      let (hashed, e₂, f₂) = >>=-eq-ok (rehash_first hash256 extended) _ f₁ in
      let ((vtx, root), e₃, f₃) = >>=-eq-ok (calc_merkle_root hash256 hashed) _ f₂ in
      let (h, e₄, f₄) =
        >>=-eq-ok (grind_header hash256 grind_cmd (record block.header { hash_merkle_root = root }))
          _ f₃ in
      let tail =
        subst (EachRight hash256) (sym (extend_coinbase-drop more block.vtx extended e₁)) r in
      let (right, back, same_ids) = rehash_first-eq-ok extended hashed tail e₂ in
      let (kept, (hashes, ids, m)) = calc_merkle_root-Hashed hashed vtx root right e₃ in
      let made : IsFinished block solution grind_cmd (record { header = h; vtx = vtx }) = record {
        extended = extended;
        hashes = hashes;
        signed = e₁;
        same = back vtx kept;
        ids = sym same_ids ∙ ids;
        root = m ∙ ap ok (root_kept block grind_cmd root h e₄);
        ground_header =
            subst (λ (r : ℕ). IsGround grind_cmd (record block.header { hash_merkle_root = r }) h)
              (root_kept block grind_cmd root h e₄) (grind_header-IsGround grind_cmd _ h e₄);
      } in
      subst (IsFinished block solution grind_cmd) (ok-injective f₄) made
