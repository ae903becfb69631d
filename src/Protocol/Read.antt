-- ===== src/Protocol/Read.antt =====
-- The methods `deserialize` of the messages.
use mutiny_net.Prelude.{true, not, ◌==◌}
use mutiny_net.Bytes.{Reader, ◌>>=◌, give, read_int}
use mutiny_net.Messages.Read.{deser_string, deser_uint256, deser_vector, deser_block, deser_tx}
use mutiny_net.Messages.Vectors.{deser_uint256_vector}
use mutiny_net.Inventory.{deser_inv, deser_locator}
use mutiny_net.Compact.Read.{
  deser_header_and_shortids, deser_block_txn_request, deser_block_transactions,
}
use mutiny_net.Partial.{deser_merkle_block}
use mutiny_net.Protocol

unfoldable pub deser_msg_inv : Reader Protocol.MsgInv
unfolding deser_vector deser_inv
deser_msg_inv = deser_vector deser_inv >>= λ i0. give (record { inv = i0 })

unfoldable pub deser_getdata : Reader Protocol.MsgGetdata
unfolding deser_vector deser_inv
deser_getdata = deser_vector deser_inv >>= λ i0. give (record { inv = i0 })

unfoldable pub deser_getblocks : Reader Protocol.MsgGetblocks
unfolding deser_locator read_int
deser_getblocks = do
  locator ← deser_locator
  hashstop ← deser_uint256
  give (record { locator = locator; hashstop = hashstop })

unfoldable pub deser_ping : Reader Protocol.MsgPing
unfolding read_int
deser_ping = read_int 8 >>= λ n0. give (record { nonce = n0 })

unfoldable pub deser_pong : Reader Protocol.MsgPong
unfolding read_int
deser_pong = read_int 8 >>= λ n0. give (record { nonce = n0 })

unfoldable pub deser_notfound : Reader Protocol.MsgNotfound
unfolding deser_vector deser_inv
deser_notfound = deser_vector deser_inv >>= λ v0. give (record { vec = v0 })

unfoldable pub deser_getheaders : Reader Protocol.MsgGetheaders
unfolding deser_locator read_int
deser_getheaders = do
  locator ← deser_locator
  hashstop ← deser_uint256
  give (record { locator = locator; hashstop = hashstop })

unfoldable pub deser_filterload : Reader Protocol.MsgFilterload
unfolding deser_string read_int
deser_filterload = do
  bytes ← deser_string
  n_hash_funcs ← read_int 4
  n_tweak ← read_int 4
  n_flags ← read_int 1
  give (record { bytes = bytes; n_hash_funcs = n_hash_funcs; n_tweak = n_tweak; n_flags = n_flags })

unfoldable pub deser_filteradd : Reader Protocol.MsgFilteradd
unfolding deser_string
deser_filteradd = deser_string >>= λ b0. give (record { bytes = b0 })

unfoldable pub deser_feefilter : Reader Protocol.MsgFeefilter
unfolding read_int
deser_feefilter = read_int 8 >>= λ f0. give (record { feerate = f0 })

unfoldable pub deser_getblocktxn : Reader Protocol.MsgGetblocktxn
unfolding deser_block_txn_request
deser_getblocktxn = deser_block_txn_request >>= λ b0. give (record { block_txn_request = b0 })

unfoldable pub deser_getcfilters : Reader Protocol.MsgGetcfilters
unfolding read_int
deser_getcfilters = do
  filter_type ← read_int 1
  start_height ← read_int 4
  stop_hash ← deser_uint256
  give (record { filter_type = filter_type; start_height = start_height; stop_hash = stop_hash })

unfoldable pub deser_cfilter : Reader Protocol.MsgCfilter
unfolding read_int deser_string
deser_cfilter = do
  filter_type ← read_int 1
  block_hash ← deser_uint256
  filter_data ← deser_string
  give (record { filter_type = filter_type; block_hash = block_hash; filter_data = filter_data })

unfoldable pub deser_getcfheaders : Reader Protocol.MsgGetcfheaders
unfolding read_int
deser_getcfheaders = do
  filter_type ← read_int 1
  start_height ← read_int 4
  stop_hash ← deser_uint256
  give (record { filter_type = filter_type; start_height = start_height; stop_hash = stop_hash })

unfoldable pub deser_cfheaders : Reader Protocol.MsgCfheaders
unfolding read_int deser_uint256_vector
deser_cfheaders = do
  filter_type ← read_int 1
  stop_hash ← deser_uint256
  prev_header ← deser_uint256
  hashes ← deser_uint256_vector
  give (record {
    filter_type = filter_type;
    stop_hash = stop_hash;
    prev_header = prev_header;
    hashes = hashes;
  })

unfoldable pub deser_getcfcheckpt : Reader Protocol.MsgGetcfcheckpt
unfolding read_int
deser_getcfcheckpt = do
  filter_type ← read_int 1
  stop_hash ← deser_uint256
  give (record { filter_type = filter_type; stop_hash = stop_hash })

unfoldable pub deser_cfcheckpt : Reader Protocol.MsgCfcheckpt
unfolding read_int deser_uint256_vector
deser_cfcheckpt = do
  filter_type ← read_int 1
  stop_hash ← deser_uint256
  headers ← deser_uint256_vector
  give (record { filter_type = filter_type; stop_hash = stop_hash; headers = headers })

unfoldable pub deser_sendtxrcncl : Reader Protocol.MsgSendtxrcncl
unfolding read_int
deser_sendtxrcncl = do
  version ← read_int 4
  salt ← read_int 8
  give (record { version = version; salt = salt })

-- `bool(_)` of a byte
unfoldable pub deser_sendcmpct : Reader Protocol.MsgSendcmpct
unfolding read_int
deser_sendcmpct = do
  announce ← read_int 1
  version ← read_int 8
  give (record { announce = not (announce == 0); version = version })

unfoldable pub deser_msg_tx : Reader Protocol.MsgTx
unfolding deser_tx
deser_msg_tx = deser_tx >>= λ t. give (record { tx = t; with_witness = true })

unfoldable pub deser_msg_block : Reader Protocol.MsgBlock
unfolding deser_block
deser_msg_block = deser_block >>= λ b. give (record { block = b; with_witness = true })

unfoldable pub deser_cmpctblock : Reader Protocol.MsgCmpctblock
unfolding deser_header_and_shortids
deser_cmpctblock = deser_header_and_shortids >>= λ h. give (record { header_and_shortids = h })

unfoldable pub deser_blocktxn : Reader Protocol.MsgBlocktxn
unfolding deser_block_transactions
deser_blocktxn =
    deser_block_transactions >>= λ b. give (record { block_transactions = b; with_witness = true })

unfoldable pub deser_merkleblock : Reader Protocol.MsgMerkleblock
unfolding deser_merkle_block
deser_merkleblock = deser_merkle_block >>= λ b. give (record { merkleblock = b })
