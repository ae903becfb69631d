-- ===== src/Protocol/Parts.antt =====
-- Each message that is written by numbers, hashes and strings is read back.
use mutiny_net.Prelude.{◌≡◌, refl, Bool, true, false, not, subst, if◌then◌else◌, ◌==◌}
use mutiny_net.Bytes.Reads.{Reads, Reads-append, Reads-map, Reads-int}
use mutiny_net.Messages.Parts.{Reads-string, Reads-vector_same}
use mutiny_net.Messages.Vectors.{Reads-uint256_vector}
use mutiny_net.Inventory.{Reads-inv, Reads-locator}
use mutiny_net.Compact.Parts.{Reads-block_txn_request}
use mutiny_net.Protocol
use mutiny_net.Protocol.Write.{
  ser_msg_inv, ser_getdata, ser_getblocks, ser_ping, ser_pong, ser_notfound, ser_getheaders,
  ser_filterload, ser_filteradd, ser_feefilter, ser_getblocktxn, ser_getcfilters, ser_cfilter,
  ser_getcfheaders, ser_cfheaders, ser_getcfcheckpt, ser_cfcheckpt, ser_sendtxrcncl, ser_sendcmpct,
}
use mutiny_net.Protocol.Read.{
  deser_msg_inv, deser_getdata, deser_getblocks, deser_ping, deser_pong, deser_notfound,
  deser_getheaders, deser_filterload, deser_filteradd, deser_feefilter, deser_getblocktxn,
  deser_getcfilters, deser_cfilter, deser_getcfheaders, deser_cfheaders, deser_getcfcheckpt,
  deser_cfcheckpt, deser_sendtxrcncl, deser_sendcmpct,
}

pub Reads-msg_inv : (m : Protocol.MsgInv) → Reads (ser_msg_inv m) deser_msg_inv m
unfolding ser_msg_inv deser_msg_inv
Reads-msg_inv m = Reads-map _ (Reads-vector_same Reads-inv m.inv)

pub Reads-getdata : (m : Protocol.MsgGetdata) → Reads (ser_getdata m) deser_getdata m
unfolding ser_getdata deser_getdata
Reads-getdata m = Reads-map _ (Reads-vector_same Reads-inv m.inv)

pub Reads-getblocks : (m : Protocol.MsgGetblocks) → Reads (ser_getblocks m) deser_getblocks m
unfolding ser_getblocks deser_getblocks
Reads-getblocks m = Reads-append _ (Reads-locator m.locator) (Reads-map _ (Reads-int 32 m.hashstop))

pub Reads-ping : (m : Protocol.MsgPing) → Reads (ser_ping m) deser_ping m
unfolding ser_ping deser_ping
Reads-ping m = Reads-map _ (Reads-int 8 m.nonce)

pub Reads-pong : (m : Protocol.MsgPong) → Reads (ser_pong m) deser_pong m
unfolding ser_pong deser_pong
Reads-pong m = Reads-map _ (Reads-int 8 m.nonce)

pub Reads-notfound : (m : Protocol.MsgNotfound) → Reads (ser_notfound m) deser_notfound m
unfolding ser_notfound deser_notfound
Reads-notfound m = Reads-map _ (Reads-vector_same Reads-inv m.vec)

pub Reads-getheaders : (m : Protocol.MsgGetheaders) → Reads (ser_getheaders m) deser_getheaders m
unfolding ser_getheaders deser_getheaders
Reads-getheaders m =
    Reads-append _ (Reads-locator m.locator) (Reads-map _ (Reads-int 32 m.hashstop))

pub Reads-filterload : (m : Protocol.MsgFilterload) → Reads (ser_filterload m) deser_filterload m
unfolding ser_filterload deser_filterload
Reads-filterload m = Reads-append _ (Reads-string m.bytes) (
    Reads-append _ (Reads-int 4 m.n_hash_funcs)
      (Reads-append _ (Reads-int 4 m.n_tweak) (Reads-map _ (Reads-int 1 m.n_flags))))

pub Reads-filteradd : (m : Protocol.MsgFilteradd) → Reads (ser_filteradd m) deser_filteradd m
unfolding ser_filteradd deser_filteradd
Reads-filteradd m = Reads-map _ (Reads-string m.bytes)

pub Reads-feefilter : (m : Protocol.MsgFeefilter) → Reads (ser_feefilter m) deser_feefilter m
unfolding ser_feefilter deser_feefilter
Reads-feefilter m = Reads-map _ (Reads-int 8 m.feerate)

pub Reads-getblocktxn :
    (m : Protocol.MsgGetblocktxn) → Reads (ser_getblocktxn m) deser_getblocktxn m
unfolding ser_getblocktxn deser_getblocktxn
Reads-getblocktxn m = Reads-map _ (Reads-block_txn_request m.block_txn_request)

pub Reads-getcfilters :
    (m : Protocol.MsgGetcfilters) → Reads (ser_getcfilters m) deser_getcfilters m
unfolding ser_getcfilters deser_getcfilters
Reads-getcfilters m =
    Reads-append _ (Reads-int 1 m.filter_type)
      (Reads-append _ (Reads-int 4 m.start_height) (Reads-map _ (Reads-int 32 m.stop_hash)))

pub Reads-cfilter : (m : Protocol.MsgCfilter) → Reads (ser_cfilter m) deser_cfilter m
unfolding ser_cfilter deser_cfilter
Reads-cfilter m =
    Reads-append _ (Reads-int 1 m.filter_type)
      (Reads-append _ (Reads-int 32 m.block_hash) (Reads-map _ (Reads-string m.filter_data)))

pub Reads-getcfheaders :
    (m : Protocol.MsgGetcfheaders) → Reads (ser_getcfheaders m) deser_getcfheaders m
unfolding ser_getcfheaders deser_getcfheaders
Reads-getcfheaders m =
    Reads-append _ (Reads-int 1 m.filter_type)
      (Reads-append _ (Reads-int 4 m.start_height) (Reads-map _ (Reads-int 32 m.stop_hash)))

pub Reads-cfheaders : (m : Protocol.MsgCfheaders) → Reads (ser_cfheaders m) deser_cfheaders m
unfolding ser_cfheaders deser_cfheaders
Reads-cfheaders m = Reads-append _ (Reads-int 1 m.filter_type) (
    Reads-append _ (Reads-int 32 m.stop_hash)
      (Reads-append _ (Reads-int 32 m.prev_header) (Reads-map _ (Reads-uint256_vector m.hashes))))

pub Reads-getcfcheckpt :
    (m : Protocol.MsgGetcfcheckpt) → Reads (ser_getcfcheckpt m) deser_getcfcheckpt m
unfolding ser_getcfcheckpt deser_getcfcheckpt
Reads-getcfcheckpt m =
    Reads-append _ (Reads-int 1 m.filter_type) (Reads-map _ (Reads-int 32 m.stop_hash))

pub Reads-cfcheckpt : (m : Protocol.MsgCfcheckpt) → Reads (ser_cfcheckpt m) deser_cfcheckpt m
unfolding ser_cfcheckpt deser_cfcheckpt
Reads-cfcheckpt m =
    Reads-append _ (Reads-int 1 m.filter_type)
      (Reads-append _ (Reads-int 32 m.stop_hash) (Reads-map _ (Reads-uint256_vector m.headers)))

pub Reads-sendtxrcncl :
    (m : Protocol.MsgSendtxrcncl) → Reads (ser_sendtxrcncl m) deser_sendtxrcncl m
unfolding ser_sendtxrcncl deser_sendtxrcncl
Reads-sendtxrcncl m = Reads-append _ (Reads-int 4 m.version) (Reads-map _ (Reads-int 8 m.salt))

byte_of-announce : (b : Bool) → not ((if b then 1 else 0) == 0) ≡ b
byte_of-announce true = refl
byte_of-announce false = refl

pub Reads-sendcmpct : (m : Protocol.MsgSendcmpct) → Reads (ser_sendcmpct m) deser_sendcmpct m
unfolding ser_sendcmpct deser_sendcmpct
Reads-sendcmpct m =
    subst (λ (b : Bool). Reads (ser_sendcmpct m) deser_sendcmpct (record m { announce = b }))
      (byte_of-announce m.announce)
      (Reads-append _ (Reads-int 1 (if m.announce then 1 else 0))
        (Reads-map _ (Reads-int 8 m.version)))
