-- ===== src/Protocol/Map.antt =====
-- The readers of the messages that may raise, and the table `MESSAGEMAP` of
-- `miner_imports/test_framework/p2p.py`: the name of a message tells its class.
use mutiny_net.Prelude.{ℕ, zero, suc, List, [], ◌∷◌, true, false, Option, none, some, if◌then◌else◌}
use mutiny_net.Prelude.Result.{Result, ok, err, type_error}
use mutiny_net.Prelude.Texts.{eq_text}
use mutiny_net.Bytes.{Reader, read_int, read_signed}
use mutiny_net.Bytes.Parser.{Parser, ◌>>=◌, always, call}
use mutiny_net.Messages.{CBlockHeader, CBlock}
use mutiny_net.Messages.Read.{deser_compact_size, deser_string, deser_vector, deser_block}
use mutiny_net.Address.{Texts}
use mutiny_net.Address.Read.{deser_address, deser_address_v2}
use mutiny_net.Protocol
use mutiny_net.Compact.Make.{copy_header}
use mutiny_net.Protocol.{Message, Library}
use mutiny_net.Protocol.Read.{
  deser_msg_inv, deser_getdata, deser_getblocks, deser_ping, deser_pong, deser_notfound,
  deser_getheaders, deser_filterload, deser_filteradd, deser_feefilter, deser_getblocktxn,
  deser_getcfilters, deser_cfilter, deser_getcfheaders, deser_cfheaders, deser_getcfcheckpt,
  deser_cfcheckpt, deser_sendtxrcncl, deser_msg_tx, deser_msg_block, deser_sendcmpct,
  deser_cmpctblock, deser_blocktxn, deser_merkleblock,
}
use mutiny_net.Protocol.Names.{
  name_of_addr, name_of_addrv2, name_of_block, name_of_blocktxn, name_of_cfcheckpt,
  name_of_cfheaders, name_of_cfilter, name_of_cmpctblock, name_of_feefilter, name_of_filteradd,
  name_of_filterclear, name_of_filterload, name_of_getaddr, name_of_getblocks, name_of_getblocktxn,
  name_of_getcfcheckpt, name_of_getcfheaders, name_of_getcfilters, name_of_getdata,
  name_of_getheaders, name_of_headers, name_of_inv, name_of_mempool, name_of_merkleblock,
  name_of_notfound, name_of_ping, name_of_pong, name_of_sendaddrv2, name_of_sendcmpct,
  name_of_sendheaders, name_of_sendtxrcncl, name_of_tx, name_of_verack, name_of_version,
  name_of_wtxidrelay,
}

-- `deser_vector` for entries whose reader may raise
unfoldable pub parse_entries {ℓ} : {A : Type ℓ} → Parser A → ℕ → Parser (List A)
unfolding call
parse_entries deser zero = call (ok [])
parse_entries deser (suc nit) =
    deser >>= (λ t. parse_entries deser nit >>= (λ r. call (ok (t ∷ r))))

unfoldable pub parse_vector {ℓ} : {A : Type ℓ} → Parser A → Parser (List A)
unfolding always deser_compact_size parse_entries
parse_vector deser = always deser_compact_size >>= parse_entries deser

-- `for x in blocks: self.headers.append(CBlockHeader(x))`
unfoldable pub headers_of :
    (CBlockHeader → Result CBlockHeader) → List CBlock → Parser (List CBlockHeader)
unfolding call
headers_of copy [] = call (ok [])
headers_of copy (b ∷ blocks) =
    call (copy b.header) >>= (λ h. headers_of copy blocks >>= (λ hs. call (ok (h ∷ hs))))

unfoldable pub deser_headers : (CBlockHeader → Result CBlockHeader) → Parser Protocol.MsgHeaders
unfolding always call deser_vector deser_block headers_of
deser_headers copy = do
  blocks ← always (deser_vector deser_block)
  hs ← headers_of copy blocks
  call (ok (record { headers = hs }))

module _ (lib : Texts) where
  unfoldable pub deser_addr : Parser Protocol.MsgAddr
  unfolding parse_vector deser_address call
  deser_addr = parse_vector (deser_address lib true) >>= λ l. call (ok (record { addrs = l }))

  unfoldable pub deser_addrv2 : Parser Protocol.MsgAddrv2
  unfolding parse_vector deser_address_v2 call
  deser_addrv2 = parse_vector (deser_address_v2 lib) >>= λ l. call (ok (record { addrs = l }))

  unfoldable pub deser_version : (decode : List ℕ → Result (List ℕ)) → Parser Protocol.MsgVersion
  unfolding always call read_int read_signed deser_address deser_string
  deser_version decode = do
    n_version ← always (read_signed 4)
    n_services ← always (read_int 8)
    n_time ← always (read_signed 8)
    addr_to ← deser_address lib false
    addr_from ← deser_address lib false
    n_nonce ← always (read_int 8)
    s ← always deser_string
    str_sub_ver ← call (decode s)
    n_starting_height ← always (read_signed 4)
    relay ← always (read_int 1)
    call (
        ok (record {
          n_version = n_version;
          n_services = n_services;
          n_time = n_time;
          addr_to = addr_to;
          addr_from = addr_from;
          n_nonce = n_nonce;
          str_sub_ver = str_sub_ver;
          n_starting_height = n_starting_height;
          relay = relay;
        }))

-- A class whose reader does not raise, one whose reader may, and one without contents
abbrev pub reads : {A : Type 0} → Reader A → (A → Message) → Parser Message
reads deser c = always deser >>= λ m. call (ok (c m))

abbrev pub parses : {A : Type 0} → Parser A → (A → Message) → Parser Message
parses deser c = deser >>= λ m. call (ok (c m))

-- `MESSAGEMAP`, with the making of an object of each class and its method `deserialize`: an object of
-- `msg_filteradd` cannot be made without its bytes.
unfoldable pub message_map : Library → List (List ℕ × Parser Message)
unfolding always call ◌>>=◌ deser_msg_inv deser_getdata deser_getblocks deser_ping deser_pong
    deser_notfound deser_getheaders deser_filterload deser_filteradd deser_feefilter
    deser_getblocktxn deser_getcfilters deser_cfilter deser_getcfheaders deser_cfheaders
    deser_getcfcheckpt deser_cfcheckpt deser_sendtxrcncl deser_msg_tx deser_msg_block
    deser_sendcmpct deser_cmpctblock deser_blocktxn deser_merkleblock deser_headers deser_addr
    deser_addrv2 deser_version copy_header
message_map lib =
    (name_of_addr, parses (deser_addr lib.texts) Message.addr)
    ∷ (name_of_addrv2, parses (deser_addrv2 lib.texts) Message.addrv2)
    ∷ (name_of_block, reads deser_msg_block Message.block)
    ∷ (name_of_blocktxn, reads deser_blocktxn Message.blocktxn)
    ∷ (name_of_cfcheckpt, reads deser_cfcheckpt Message.cfcheckpt)
    ∷ (name_of_cfheaders, reads deser_cfheaders Message.cfheaders)
    ∷ (name_of_cfilter, reads deser_cfilter Message.cfilter)
    ∷ (name_of_cmpctblock, reads deser_cmpctblock Message.cmpctblock)
    ∷ (name_of_feefilter, reads deser_feefilter Message.feefilter)
    ∷ (name_of_filteradd, call (err type_error))
    ∷ (name_of_filterclear, call (ok Message.filterclear))
    ∷ (name_of_filterload, reads deser_filterload Message.filterload)
    ∷ (name_of_getaddr, call (ok Message.getaddr))
    ∷ (name_of_getblocks, reads deser_getblocks Message.getblocks)
    ∷ (name_of_getblocktxn, reads deser_getblocktxn Message.getblocktxn)
    ∷ (name_of_getcfcheckpt, reads deser_getcfcheckpt Message.getcfcheckpt)
    ∷ (name_of_getcfheaders, reads deser_getcfheaders Message.getcfheaders)
    ∷ (name_of_getcfilters, reads deser_getcfilters Message.getcfilters)
    ∷ (name_of_getdata, reads deser_getdata Message.getdata)
    ∷ (name_of_getheaders, reads deser_getheaders Message.getheaders)
    ∷ (name_of_headers, parses (deser_headers (copy_header lib.hash256)) Message.headers)
    ∷ (name_of_inv, reads deser_msg_inv Message.inv)
    ∷ (name_of_mempool, call (ok Message.mempool))
    ∷ (name_of_merkleblock, reads deser_merkleblock Message.merkleblock)
    ∷ (name_of_notfound, reads deser_notfound Message.notfound)
    ∷ (name_of_ping, reads deser_ping Message.ping)
    ∷ (name_of_pong, reads deser_pong Message.pong)
    ∷ (name_of_sendaddrv2, call (ok Message.sendaddrv2))
    ∷ (name_of_sendcmpct, reads deser_sendcmpct Message.sendcmpct)
    ∷ (name_of_sendheaders, call (ok Message.sendheaders))
    ∷ (name_of_sendtxrcncl, reads deser_sendtxrcncl Message.sendtxrcncl)
    ∷ (name_of_tx, reads deser_msg_tx Message.tx)
    ∷ (name_of_verack, call (ok Message.verack))
    ∷ (name_of_version, parses (deser_version lib.texts lib.decode) Message.version)
    ∷ (name_of_wtxidrelay, call (ok Message.wtxidrelay))
    ∷ []

-- `MESSAGEMAP[msgtype]`, if it is there
unfoldable pub find : List ℕ → List (List ℕ × Parser Message) → Option (Parser Message)
unfolding eq_text
find msgtype [] = none
find msgtype ((n, p) ∷ l) = if eq_text n msgtype then some p else find msgtype l

-- `message.msgtype`
unfoldable pub msgtype : Message → List ℕ
msgtype (Message.inv m) = name_of_inv
msgtype (Message.getdata m) = name_of_getdata
msgtype (Message.getblocks m) = name_of_getblocks
msgtype (Message.ping m) = name_of_ping
msgtype (Message.pong m) = name_of_pong
msgtype (Message.notfound m) = name_of_notfound
msgtype (Message.getheaders m) = name_of_getheaders
msgtype (Message.filterload m) = name_of_filterload
msgtype (Message.filteradd m) = name_of_filteradd
msgtype (Message.feefilter m) = name_of_feefilter
msgtype (Message.getblocktxn m) = name_of_getblocktxn
msgtype (Message.getcfilters m) = name_of_getcfilters
msgtype (Message.cfilter m) = name_of_cfilter
msgtype (Message.getcfheaders m) = name_of_getcfheaders
msgtype (Message.cfheaders m) = name_of_cfheaders
msgtype (Message.getcfcheckpt m) = name_of_getcfcheckpt
msgtype (Message.cfcheckpt m) = name_of_cfcheckpt
msgtype (Message.sendtxrcncl m) = name_of_sendtxrcncl
msgtype (Message.tx m) = name_of_tx
msgtype (Message.block m) = name_of_block
msgtype (Message.sendcmpct m) = name_of_sendcmpct
msgtype (Message.cmpctblock m) = name_of_cmpctblock
msgtype (Message.blocktxn m) = name_of_blocktxn
msgtype (Message.merkleblock m) = name_of_merkleblock
msgtype (Message.addr m) = name_of_addr
msgtype (Message.addrv2 m) = name_of_addrv2
msgtype (Message.version m) = name_of_version
msgtype (Message.headers m) = name_of_headers
msgtype Message.verack = name_of_verack
msgtype Message.sendaddrv2 = name_of_sendaddrv2
msgtype Message.wtxidrelay = name_of_wtxidrelay
msgtype Message.getaddr = name_of_getaddr
msgtype Message.mempool = name_of_mempool
msgtype Message.sendheaders = name_of_sendheaders
msgtype Message.filterclear = name_of_filterclear
