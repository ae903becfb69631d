-- ===== src/Protocol/Write.antt =====
-- The methods `serialize` of the messages.
use mutiny_net.Prelude.{ℕ, List, [], ◌∷◌, true, false, if◌then◌else◌}
use mutiny_net.Prelude.Result.{Result, ok, ◌>>=◌}
use mutiny_net.Bytes.{to_bytes, to_bytes_signed}
use mutiny_net.Bytes.Reads.{◌+>◌}
use mutiny_net.Messages.{CBlockHeader, CBlock}
use mutiny_net.Messages.Write.{
  ser_string, ser_uint256, ser_vector, ser_header, ser_block, serialize_with_witness,
  serialize_without_witness,
}
use mutiny_net.Messages.Vectors.{ser_uint256_vector}
use mutiny_net.Address.{Texts, ser_address, ser_address_v2}
use mutiny_net.Inventory.{ser_inv, ser_locator}
use mutiny_net.Compact.Write.{
  ser_header_and_shortids, ser_block_txn_request, ser_block_transactions, ser_transaction,
}
use mutiny_net.Compact.Make.{copy_header}
use mutiny_net.Partial.{ser_merkle_block}
use mutiny_net.Protocol
use mutiny_net.Protocol.{Message, Library}

unfoldable pub ser_msg_inv : Protocol.MsgInv → Result (List ℕ)
unfolding ser_vector ser_inv
ser_msg_inv m = ser_vector ser_inv m.inv

unfoldable pub ser_getdata : Protocol.MsgGetdata → Result (List ℕ)
unfolding ser_vector ser_inv
ser_getdata m = ser_vector ser_inv m.inv

unfoldable pub ser_getblocks : Protocol.MsgGetblocks → Result (List ℕ)
unfolding ser_locator to_bytes
ser_getblocks m = ser_locator m.locator +> ser_uint256 m.hashstop

unfoldable pub ser_ping : Protocol.MsgPing → Result (List ℕ)
unfolding to_bytes
ser_ping m = to_bytes 8 m.nonce

unfoldable pub ser_pong : Protocol.MsgPong → Result (List ℕ)
unfolding to_bytes
ser_pong m = to_bytes 8 m.nonce

unfoldable pub ser_notfound : Protocol.MsgNotfound → Result (List ℕ)
unfolding ser_vector ser_inv
ser_notfound m = ser_vector ser_inv m.vec

unfoldable pub ser_getheaders : Protocol.MsgGetheaders → Result (List ℕ)
unfolding ser_locator to_bytes
ser_getheaders m = ser_locator m.locator +> ser_uint256 m.hashstop

unfoldable pub ser_filterload : Protocol.MsgFilterload → Result (List ℕ)
unfolding ser_string to_bytes
ser_filterload m =
    ser_string m.bytes +> to_bytes 4 m.n_hash_funcs +> to_bytes 4 m.n_tweak +> to_bytes 1 m.n_flags

unfoldable pub ser_filteradd : Protocol.MsgFilteradd → Result (List ℕ)
unfolding ser_string
ser_filteradd m = ser_string m.bytes

unfoldable pub ser_feefilter : Protocol.MsgFeefilter → Result (List ℕ)
unfolding to_bytes
ser_feefilter m = to_bytes 8 m.feerate

unfoldable pub ser_getblocktxn : Protocol.MsgGetblocktxn → Result (List ℕ)
unfolding ser_block_txn_request
ser_getblocktxn m = ser_block_txn_request m.block_txn_request

unfoldable pub ser_getcfilters : Protocol.MsgGetcfilters → Result (List ℕ)
unfolding to_bytes
ser_getcfilters m = to_bytes 1 m.filter_type +> to_bytes 4 m.start_height +> ser_uint256 m.stop_hash

unfoldable pub ser_cfilter : Protocol.MsgCfilter → Result (List ℕ)
unfolding to_bytes ser_string
ser_cfilter m = to_bytes 1 m.filter_type +> ser_uint256 m.block_hash +> ser_string m.filter_data

unfoldable pub ser_getcfheaders : Protocol.MsgGetcfheaders → Result (List ℕ)
unfolding to_bytes
ser_getcfheaders m =
    to_bytes 1 m.filter_type +> to_bytes 4 m.start_height +> ser_uint256 m.stop_hash

unfoldable pub ser_cfheaders : Protocol.MsgCfheaders → Result (List ℕ)
unfolding to_bytes ser_uint256_vector
ser_cfheaders m =
    to_bytes 1 m.filter_type
    +> ser_uint256 m.stop_hash
    +> ser_uint256 m.prev_header
    +> ser_uint256_vector m.hashes

unfoldable pub ser_getcfcheckpt : Protocol.MsgGetcfcheckpt → Result (List ℕ)
unfolding to_bytes
ser_getcfcheckpt m = to_bytes 1 m.filter_type +> ser_uint256 m.stop_hash

unfoldable pub ser_cfcheckpt : Protocol.MsgCfcheckpt → Result (List ℕ)
unfolding to_bytes ser_uint256_vector
ser_cfcheckpt m =
    to_bytes 1 m.filter_type +> ser_uint256 m.stop_hash +> ser_uint256_vector m.headers

unfoldable pub ser_sendtxrcncl : Protocol.MsgSendtxrcncl → Result (List ℕ)
unfolding to_bytes
ser_sendtxrcncl m = to_bytes 4 m.version +> to_bytes 8 m.salt

-- `int(self.announce)`
unfoldable pub ser_sendcmpct : Protocol.MsgSendcmpct → Result (List ℕ)
unfolding to_bytes
ser_sendcmpct m = to_bytes 1 (if m.announce then 1 else 0) +> to_bytes 8 m.version

unfoldable pub ser_msg_tx : Protocol.MsgTx → Result (List ℕ)
unfolding serialize_with_witness serialize_without_witness
ser_msg_tx m = ser_transaction m.with_witness m.tx

-- `CBlock.serialize` with and without witnesses
unfoldable pub ser_msg_block : Protocol.MsgBlock → Result (List ℕ)
unfolding ser_block ser_header ser_vector serialize_without_witness
ser_msg_block m =
    if m.with_witness
    then ser_block m.block
    else ser_header m.block.header +> ser_vector serialize_without_witness m.block.vtx

-- The class of the compact block tells whether witnesses are written.
unfoldable pub ser_cmpctblock : Protocol.MsgCmpctblock → Result (List ℕ)
unfolding ser_header_and_shortids
ser_cmpctblock m = ser_header_and_shortids m.header_and_shortids.witness_ids m.header_and_shortids

unfoldable pub ser_blocktxn : Protocol.MsgBlocktxn → Result (List ℕ)
unfolding ser_block_transactions
ser_blocktxn m = ser_block_transactions m.with_witness m.block_transactions

-- A message without contents
unfoldable pub ser_verack : Result (List ℕ)
ser_verack = ok []

-- `[CBlock(x) for x in self.headers]`
unfoldable pub blocks_of :
    (CBlockHeader → Result CBlockHeader) → List CBlockHeader → Result (List CBlock)
blocks_of copy [] = ok []
blocks_of copy (h ∷ hs) = do
  h' ← copy h
  rest ← blocks_of copy hs
  ok (record { header = h'; vtx = [] } ∷ rest)

module _ (lib : Texts) where
  unfoldable pub ser_addr : Protocol.MsgAddr → Result (List ℕ)
  unfolding ser_vector ser_address
  ser_addr m = ser_vector (ser_address lib true) m.addrs

  unfoldable pub ser_addrv2 : Protocol.MsgAddrv2 → Result (List ℕ)
  unfolding ser_vector ser_address_v2
  ser_addrv2 m = ser_vector (ser_address_v2 lib) m.addrs

  unfoldable pub ser_version :
      (encode : List ℕ → Result (List ℕ)) → Protocol.MsgVersion → Result (List ℕ)
  unfolding to_bytes_signed to_bytes ser_address ser_string
  ser_version encode m =
      to_bytes_signed 4 m.n_version
      +> to_bytes 8 m.n_services
      +> to_bytes_signed 8 m.n_time
      +> ser_address lib false m.addr_to
      +> ser_address lib false m.addr_from
      +> to_bytes 8 m.n_nonce
      +> (do s ← encode m.str_sub_ver; ser_string s)
      +> to_bytes_signed 4 m.n_starting_height
      +> to_bytes 1 m.relay

unfoldable pub ser_headers :
    (CBlockHeader → Result CBlockHeader) → Protocol.MsgHeaders → Result (List ℕ)
unfolding blocks_of ser_vector ser_block
ser_headers copy m = do blocks ← blocks_of copy m.headers; ser_vector ser_block blocks

unfoldable pub ser_merkleblock : Protocol.MsgMerkleblock → Result (List ℕ)
unfolding ser_merkle_block
ser_merkleblock m = ser_merkle_block m.merkleblock

-- `message.serialize()`
unfoldable pub serialize : Library → Message → Result (List ℕ)
unfolding ser_msg_inv ser_getdata ser_getblocks ser_ping ser_pong ser_notfound ser_getheaders
    ser_filterload ser_filteradd ser_feefilter ser_getblocktxn ser_getcfilters ser_cfilter
    ser_getcfheaders ser_cfheaders ser_getcfcheckpt ser_cfcheckpt ser_sendtxrcncl ser_msg_tx
    ser_msg_block ser_sendcmpct ser_cmpctblock ser_blocktxn ser_merkleblock ser_verack ser_addr
    ser_addrv2 ser_version ser_headers copy_header
serialize lib (Message.inv m) = ser_msg_inv m
serialize lib (Message.getdata m) = ser_getdata m
serialize lib (Message.getblocks m) = ser_getblocks m
serialize lib (Message.ping m) = ser_ping m
serialize lib (Message.pong m) = ser_pong m
serialize lib (Message.notfound m) = ser_notfound m
serialize lib (Message.getheaders m) = ser_getheaders m
serialize lib (Message.filterload m) = ser_filterload m
serialize lib (Message.filteradd m) = ser_filteradd m
serialize lib (Message.feefilter m) = ser_feefilter m
serialize lib (Message.getblocktxn m) = ser_getblocktxn m
serialize lib (Message.getcfilters m) = ser_getcfilters m
serialize lib (Message.cfilter m) = ser_cfilter m
serialize lib (Message.getcfheaders m) = ser_getcfheaders m
serialize lib (Message.cfheaders m) = ser_cfheaders m
serialize lib (Message.getcfcheckpt m) = ser_getcfcheckpt m
serialize lib (Message.cfcheckpt m) = ser_cfcheckpt m
serialize lib (Message.sendtxrcncl m) = ser_sendtxrcncl m
serialize lib (Message.tx m) = ser_msg_tx m
serialize lib (Message.block m) = ser_msg_block m
serialize lib (Message.sendcmpct m) = ser_sendcmpct m
serialize lib (Message.cmpctblock m) = ser_cmpctblock m
serialize lib (Message.blocktxn m) = ser_blocktxn m
serialize lib (Message.merkleblock m) = ser_merkleblock m
serialize lib (Message.addr m) = ser_addr lib.texts m
serialize lib (Message.addrv2 m) = ser_addrv2 lib.texts m
serialize lib (Message.version m) = ser_version lib.texts lib.encode m
serialize lib (Message.headers m) = ser_headers (copy_header lib.hash256) m
serialize lib Message.verack = ser_verack
serialize lib Message.sendaddrv2 = ser_verack
serialize lib Message.wtxidrelay = ser_verack
serialize lib Message.getaddr = ser_verack
serialize lib Message.mempool = ser_verack
serialize lib Message.sendheaders = ser_verack
serialize lib Message.filterclear = ser_verack
