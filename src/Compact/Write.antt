-- ===== src/Compact/Write.antt =====
-- The methods `serialize` of the compact blocks.
use mutiny_net.Prelude.{ℕ, List, Bool, if◌then◌else◌, length, take}
use mutiny_net.Prelude.Int.{ℤ, pos, negsuc}
use mutiny_net.Prelude.Result.{Result, ok, err, overflow_error, ◌>>=◌}
use mutiny_net.Bytes.{to_bytes}
use mutiny_net.Bytes.Reads.{◌+>◌}
use mutiny_net.Messages.{CTransaction}
use mutiny_net.Messages.Write.{
  ser_compact_size, ser_uint256, ser_vector, ser_entries, ser_header, serialize_with_witness,
  serialize_without_witness,
}
use mutiny_net.Compact.{
  PrefilledTransaction, P2PHeaderAndShortIds, BlockTransactionsRequest, BlockTransactions,
}

-- `ser_compact_size` of any integer: `to_bytes` raises on a negative one.
unfoldable pub ser_index : ℤ → Result (List ℕ)
unfolding ser_compact_size
ser_index (pos i) = ser_compact_size i
ser_index (negsuc i) = err overflow_error

abbrev pub ser_transaction : Bool → CTransaction → Result (List ℕ)
ser_transaction with_witness tx =
    if with_witness then serialize_with_witness tx else serialize_without_witness tx

unfoldable pub ser_prefilled : Bool → PrefilledTransaction → Result (List ℕ)
unfolding ser_index serialize_with_witness serialize_without_witness
ser_prefilled with_witness p = ser_index p.index +> ser_transaction with_witness p.tx

-- `x.to_bytes(8, "little")[0:6]`
unfoldable pub ser_shortid : ℕ → Result (List ℕ)
unfolding to_bytes
ser_shortid x = do s ← to_bytes 8 x; ok (take 6 s)

unfoldable pub ser_header_and_shortids : Bool → P2PHeaderAndShortIds → Result (List ℕ)
unfolding ser_header to_bytes ser_compact_size ser_entries ser_shortid ser_vector ser_prefilled
ser_header_and_shortids with_witness h =
    ser_header h.header
    +> to_bytes 8 h.nonce
    +> ser_compact_size h.shortids_length
    +> ser_entries ser_shortid h.shortids
    +> ser_vector (ser_prefilled with_witness) h.prefilled_txn

unfoldable pub ser_block_txn_request : BlockTransactionsRequest → Result (List ℕ)
unfolding to_bytes ser_compact_size ser_entries ser_index
ser_block_txn_request r =
    ser_uint256 r.blockhash
    +> ser_compact_size (length r.indexes)
    +> ser_entries ser_index r.indexes

unfoldable pub ser_block_transactions : Bool → BlockTransactions → Result (List ℕ)
unfolding to_bytes ser_vector serialize_with_witness serialize_without_witness
ser_block_transactions with_witness b =
    ser_uint256 b.blockhash +> ser_vector (ser_transaction with_witness) b.transactions
