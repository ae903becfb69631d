-- ===== src/Protocol.antt =====
-- The messages of the peer-to-peer protocol: the classes `msg_…` of
-- `miner_imports/test_framework/messages.py`, and the frames of `miner_imports/test_framework/p2p.py`
-- in which they are sent. A message whose class has `None` for a field that is not set yet is not
-- kept apart: its fields are set.
pub mod Write
pub mod Read
pub mod Names
pub mod Map
pub mod Headers
pub mod Parts
pub mod Payloads
pub mod RoundTrip
pub mod Frame
pub mod Slices
pub mod Stream
pub mod Waiting
pub mod Pieces
pub mod Faults
pub mod Contents
pub mod Tests
use mutiny_net.Prelude.{ℕ, List, [], ◌∷◌, Bool}
use mutiny_net.Prelude.Int.{ℤ}
use mutiny_net.Messages.{CTransaction, CBlockHeader, CBlock}
use mutiny_net.Prelude.{◌≡◌}
use mutiny_net.Prelude.Result.{Result, ok}
use mutiny_net.Address.{CAddress, Texts}
use mutiny_net.Inventory.{CInv, CBlockLocator}
use mutiny_net.Partial.{CMerkleBlock}
use mutiny_net.Compact.{P2PHeaderAndShortIds, BlockTransactionsRequest, BlockTransactions}

-- `str_sub_ver` is a text, of code points.
pub record MsgVersion : Type 0 where
  pub n_version : ℤ
  pub n_services : ℕ
  pub n_time : ℤ
  pub addr_to : CAddress
  pub addr_from : CAddress
  pub n_nonce : ℕ
  pub str_sub_ver : List ℕ
  pub n_starting_height : ℤ
  pub relay : ℕ

pub record MsgAddr : Type 0 where
  pub addrs : List CAddress

pub record MsgAddrv2 : Type 0 where
  pub addrs : List CAddress

pub record MsgInv : Type 0 where
  pub inv : List CInv

pub record MsgGetdata : Type 0 where
  pub inv : List CInv

pub record MsgGetblocks : Type 0 where
  pub locator : CBlockLocator
  pub hashstop : ℕ

-- `with_witness` tells `msg_tx` from `msg_no_witness_tx`; likewise for the blocks and their
-- transactions.
pub record MsgTx : Type 0 where
  pub tx : CTransaction
  pub with_witness : Bool

pub record MsgBlock : Type 0 where
  pub block : CBlock
  pub with_witness : Bool

pub record MsgPing : Type 0 where
  pub nonce : ℕ

pub record MsgPong : Type 0 where
  pub nonce : ℕ

pub record MsgNotfound : Type 0 where
  pub vec : List CInv

pub record MsgGetheaders : Type 0 where
  pub locator : CBlockLocator
  pub hashstop : ℕ

pub record MsgHeaders : Type 0 where
  pub headers : List CBlockHeader

pub record MsgMerkleblock : Type 0 where
  pub merkleblock : CMerkleBlock

pub record MsgFilterload : Type 0 where
  pub bytes : List ℕ
  pub n_hash_funcs : ℕ
  pub n_tweak : ℕ
  pub n_flags : ℕ

pub record MsgFilteradd : Type 0 where
  pub bytes : List ℕ

pub record MsgFeefilter : Type 0 where
  pub feerate : ℕ

pub record MsgSendcmpct : Type 0 where
  pub announce : Bool
  pub version : ℕ

pub record MsgCmpctblock : Type 0 where
  pub header_and_shortids : P2PHeaderAndShortIds

pub record MsgGetblocktxn : Type 0 where
  pub block_txn_request : BlockTransactionsRequest

pub record MsgBlocktxn : Type 0 where
  pub block_transactions : BlockTransactions
  pub with_witness : Bool

pub record MsgGetcfilters : Type 0 where
  pub filter_type : ℕ
  pub start_height : ℕ
  pub stop_hash : ℕ

pub record MsgCfilter : Type 0 where
  pub filter_type : ℕ
  pub block_hash : ℕ
  pub filter_data : List ℕ

pub record MsgGetcfheaders : Type 0 where
  pub filter_type : ℕ
  pub start_height : ℕ
  pub stop_hash : ℕ

pub record MsgCfheaders : Type 0 where
  pub filter_type : ℕ
  pub stop_hash : ℕ
  pub prev_header : ℕ
  pub hashes : List ℕ

pub record MsgGetcfcheckpt : Type 0 where
  pub filter_type : ℕ
  pub stop_hash : ℕ

pub record MsgCfcheckpt : Type 0 where
  pub filter_type : ℕ
  pub stop_hash : ℕ
  pub headers : List ℕ

pub record MsgSendtxrcncl : Type 0 where
  pub version : ℕ
  pub salt : ℕ

pub data Message : Type 0 where
  version : MsgVersion → Message
  addr : MsgAddr → Message
  addrv2 : MsgAddrv2 → Message
  inv : MsgInv → Message
  getdata : MsgGetdata → Message
  getblocks : MsgGetblocks → Message
  tx : MsgTx → Message
  block : MsgBlock → Message
  ping : MsgPing → Message
  pong : MsgPong → Message
  notfound : MsgNotfound → Message
  getheaders : MsgGetheaders → Message
  headers : MsgHeaders → Message
  merkleblock : MsgMerkleblock → Message
  filterload : MsgFilterload → Message
  filteradd : MsgFilteradd → Message
  feefilter : MsgFeefilter → Message
  sendcmpct : MsgSendcmpct → Message
  cmpctblock : MsgCmpctblock → Message
  getblocktxn : MsgGetblocktxn → Message
  blocktxn : MsgBlocktxn → Message
  getcfilters : MsgGetcfilters → Message
  cfilter : MsgCfilter → Message
  getcfheaders : MsgGetcfheaders → Message
  cfheaders : MsgCfheaders → Message
  getcfcheckpt : MsgGetcfcheckpt → Message
  cfcheckpt : MsgCfcheckpt → Message
  sendtxrcncl : MsgSendtxrcncl → Message
  verack sendaddrv2 wtxidrelay getaddr mempool sendheaders filterclear : Message

-- What the messages use of the standard library: the texts of addresses, UTF-8, which reads back what
-- it wrote, and the double SHA-256 of `messages.py`.
pub record Library : Type 0 where
  pub texts : Texts
  pub encode : List ℕ → Result (List ℕ)
  pub decode : List ℕ → Result (List ℕ)
  pub decode-encode : (t s : List ℕ) → encode t ≡ ok s → decode s ≡ ok t
  pub hash256 : List ℕ → List ℕ
