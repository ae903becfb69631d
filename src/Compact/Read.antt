-- ===== src/Compact/Read.antt =====
-- The methods `deserialize` of the compact blocks.
use mutiny_net.Prelude.{ℕ, [], ◌∷◌, ◌++◌, false, length, take, drop}
use mutiny_net.Prelude.Int.{ℤ, pos}
use mutiny_net.Bytes.{Reader, ◌>>=◌, give, read_int, le_value}
use mutiny_net.Messages.Read.{
  deser_compact_size, deser_uint256, deser_vector, deser_entries, deser_header, deser_tx,
}
use mutiny_net.Compact.{
  PrefilledTransaction, P2PHeaderAndShortIds, BlockTransactionsRequest, BlockTransactions,
}

unfoldable pub deser_index : Reader ℤ
unfolding deser_compact_size
deser_index = deser_compact_size >>= λ i. give (pos i)

unfoldable pub deser_prefilled : Reader PrefilledTransaction
unfolding deser_index deser_tx
deser_prefilled = deser_index >>= λ i. deser_tx >>= λ t. give (record { index = i; tx = t })

-- `int.from_bytes(f.read(6) + b'\x00\x00', "little")`
unfoldable pub deser_shortid : Reader ℕ
unfolding le_value
deser_shortid f = (le_value (take 6 f ++ 0 ∷ 0 ∷ []), drop 6 f)

unfoldable pub deser_header_and_shortids : Reader P2PHeaderAndShortIds
unfolding deser_header read_int deser_compact_size deser_entries deser_shortid deser_vector
    deser_prefilled
deser_header_and_shortids = do
  header ← deser_header
  nonce ← read_int 8
  shortids_length ← deser_compact_size
  shortids ← deser_entries deser_shortid shortids_length
  prefilled_txn ← deser_vector deser_prefilled
  give (record {
    header = header;
    nonce = nonce;
    shortids_length = shortids_length;
    shortids = shortids;
    prefilled_txn_length = length prefilled_txn;
    prefilled_txn = prefilled_txn;
    witness_ids = false;
  })

unfoldable pub deser_block_txn_request : Reader BlockTransactionsRequest
unfolding read_int deser_compact_size deser_entries deser_index
deser_block_txn_request = do
  blockhash ← deser_uint256
  indexes_length ← deser_compact_size
  indexes ← deser_entries deser_index indexes_length
  give (record { blockhash = blockhash; indexes = indexes })

unfoldable pub deser_block_transactions : Reader BlockTransactions
unfolding read_int deser_vector deser_tx
deser_block_transactions = do
  blockhash ← deser_uint256
  transactions ← deser_vector deser_tx
  give (record { blockhash = blockhash; transactions = transactions })
