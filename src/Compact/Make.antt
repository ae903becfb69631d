-- ===== src/Compact/Make.antt =====
-- `HeaderAndShortIDs.initialize_from_block`: a compact block is made of a block. The hashes are
-- parameters.
use mutiny_net.Prelude.{
  ℕ, suc, ◌%◌, ◌^◌, ◌==◌, List, [], ◌∷◌, Bool, true, false, Option, none, some, if◌then◌else◌, take,
  drop, get_elem?, ◌||◌,
}
use mutiny_net.Prelude.Int.{pos}
use mutiny_net.Prelude.Result.{Result, ok, err, index_error, assertion_error, ◌>>=◌}
use mutiny_net.Bytes.{to_bytes, le_value}
use mutiny_net.Bytes.Reads.{◌+>◌}
use mutiny_net.Messages.{CTransaction, CBlockHeader, CBlock}
use mutiny_net.Messages.Write.{ser_header}
use mutiny_net.Block.{wtxid, rehash_header}
use mutiny_net.Siphash.{siphash256}
use mutiny_net.Compact.{PrefilledTransaction, HeaderAndShortIds}

-- The short identifier keeps the low 48 bits.
unfoldable pub calculate_shortid : ℕ → ℕ → ℕ → Result ℕ
unfolding siphash256
calculate_shortid k0 k1 tx_hash = do h ← siphash256 k0 k1 tx_hash; ok (h % 2 ^ 48)

-- `i in prefill_list`
unfoldable pub is_in : ℕ → List ℕ → Bool
is_in i [] = false
is_in i (j ∷ l) = (i == j) || is_in i l

-- `block.vtx[i]`
unfoldable pub item : List CTransaction → ℕ → Result CTransaction
item vtx i = elim (get_elem? vtx i) [ none ↦ err index_error | some tx ↦ ok tx ]

unfoldable pub prefill : List CTransaction → List ℕ → Result (List PrefilledTransaction)
unfolding item
prefill vtx [] = ok []
prefill vtx (i ∷ l) = do
  tx ← item vtx i
  rest ← prefill vtx l
  ok (record { index = pos i; tx = tx } ∷ rest)

module _ (hash256 : List ℕ → List ℕ) where
  -- `CBlockHeader(header)`: a copy has its hash computed.
  unfoldable pub copy_header : CBlockHeader → Result CBlockHeader
  unfolding rehash_header
  copy_header h = elim h.block_sha256 [ none ↦ rehash_header hash256 h | some v ↦ ok h ]

-- `[0]` in place of no list
unfoldable pub positions_or : Option (List ℕ) → List ℕ
positions_or none = 0 ∷ []
positions_or (some l) = l

module _ (sha256 hash256 : List ℕ → List ℕ) where
  unfoldable pub get_siphash_keys : CBlockHeader → ℕ → Result (ℕ × ℕ)
  unfolding ser_header to_bytes le_value
  get_siphash_keys header nonce = do
    header_nonce ← ser_header header +> to_bytes 8 nonce
    ok (le_value (take 8 (sha256 header_nonce)), le_value (take 8 (drop 8 (sha256 header_nonce))))

  -- The identifier of a transaction; `siphash256` asserts that it is there.
  unfoldable pub tx_hash_of : Bool → CTransaction → Result ℕ
  unfolding wtxid
  tx_hash_of true tx = wtxid hash256 tx
  tx_hash_of false tx = elim tx.sha256 [ none ↦ err assertion_error | some h ↦ ok h ]

  -- The loop over the positions of the block, from `i`
  unfoldable pub shortids_from : Bool → ℕ → ℕ → List ℕ → ℕ → List CTransaction → Result (List ℕ)
  unfolding tx_hash_of calculate_shortid is_in
  shortids_from use_witness k0 k1 prefill_list i [] = ok []
  shortids_from use_witness k0 k1 prefill_list i (tx ∷ vtx) =
      let rest = shortids_from use_witness k0 k1 prefill_list (suc i) vtx in
      if is_in i prefill_list then rest else (do
        tx_hash ← tx_hash_of use_witness tx
        x ← calculate_shortid k0 k1 tx_hash
        xs ← rest
        ok (x ∷ xs))

  -- Without a list the coinbase is prefilled.
  unfoldable pub initialize_from_block :
      CBlock → ℕ → Option (List ℕ) → Bool → Result HeaderAndShortIds
  unfolding positions_or copy_header prefill get_siphash_keys shortids_from
  initialize_from_block block nonce prefill_list use_witness = do
    let prefilled = positions_or prefill_list
    header ← copy_header hash256 block.header
    prefilled_txn ← prefill block.vtx prefilled
    (k0, k1) ← get_siphash_keys header nonce
    shortids ← shortids_from use_witness k0 k1 prefilled 0 block.vtx
    ok (record {
      header = header;
      nonce = nonce;
      shortids = shortids;
      prefilled_txn = prefilled_txn;
      use_witness = use_witness;
    })
