-- ===== src/Protocol/RoundTrip.antt =====
-- Every message is read back as it was written.
use mutiny_net.Prelude.{ℕ, ◌≡◌, refl, some, List, map, All, true, false}
use mutiny_net.Prelude.Result.{Result}
use mutiny_net.Bytes.Reads.{Reads, Reads-nothing}
use mutiny_net.Bytes.Parser.{Parser, call, Parses, Parses-always, Parses-give}
use mutiny_net.Address.RoundTrip.{IsText, IsIpv4, kept_time}
use mutiny_net.Compact.Parts.{HasInput, IsSendable, received_tx, received_ids}
use mutiny_net.Partial.RoundTrip.{received_merkle_block}
use mutiny_net.Bytes.{Reader}
use mutiny_net.Protocol.{Message, Library}
use mutiny_net.Protocol.Write.{serialize}
use mutiny_net.Protocol.Parts.{
  Reads-msg_inv, Reads-getdata, Reads-getblocks, Reads-ping, Reads-pong, Reads-notfound,
  Reads-getheaders, Reads-filterload, Reads-feefilter, Reads-getblocktxn, Reads-getcfilters,
  Reads-cfilter, Reads-getcfheaders, Reads-cfheaders, Reads-getcfcheckpt, Reads-cfcheckpt,
  Reads-sendtxrcncl, Reads-sendcmpct,
}
use mutiny_net.Protocol.Headers.{hashed, Parses-headers}
use mutiny_net.Protocol.Map.{reads, parses, message_map, find, msgtype}
use mutiny_net.Protocol.Payloads.{
  Reads-msg_tx, received_block, Reads-msg_block, Reads-cmpctblock, received_blocktxn,
  Reads-blocktxn, Reads-merkleblock, Parses-version, Parses-addr, Parses-addrv2,
}

module _ (lib : Library) where
  -- A message that the reader takes: version 1 of an address is for IPv4, a text of an address is the
  -- one that the library makes, transactions have inputs, and the lengths in a compact block are
  -- right. No `filteradd` is taken.
  abbrev pub IsDeliverable : Message → Type 0
  IsDeliverable (Message.version m) = IsIpv4 lib.texts m.addr_to × IsIpv4 lib.texts m.addr_from
  IsDeliverable (Message.addr m) = All (IsIpv4 lib.texts) m.addrs
  IsDeliverable (Message.addrv2 m) = All (IsText lib.texts) m.addrs
  IsDeliverable (Message.tx m) = HasInput m.tx
  IsDeliverable (Message.block m) = All HasInput m.block.vtx
  IsDeliverable (Message.cmpctblock m) = IsSendable m.header_and_shortids
  IsDeliverable (Message.blocktxn m) = All HasInput m.block_transactions.transactions
  IsDeliverable (Message.filteradd m) = ⊥
  IsDeliverable other = Unit

  -- What is left of a message: no cached hashes but those of `headers`, witnesses as they are read,
  -- no time in the addresses of `version`, and bits up to the end of a byte.
  unfoldable pub received : Message → Message
  unfolding hashed
  received (Message.version m) =
      Message.version
        (record m { addr_to = kept_time false m.addr_to; addr_from = kept_time false m.addr_from })
  received (Message.tx m) =
      Message.tx (record { tx = received_tx m.with_witness m.tx; with_witness = true })
  received (Message.block m) =
      Message.block (record { block = received_block m.with_witness m.block; with_witness = true })
  received (Message.headers m) =
      Message.headers (record { headers = map (hashed lib.hash256) m.headers })
  received (Message.cmpctblock m) = Message.cmpctblock (record {
    header_and_shortids = received_ids m.header_and_shortids.witness_ids m.header_and_shortids;
  })
  received (Message.blocktxn m) = Message.blocktxn (received_blocktxn m)
  received (Message.merkleblock m) =
      Message.merkleblock (record { merkleblock = received_merkle_block m.merkleblock })
  received other = other

  -- A class whose reader does not raise
  at_once :
      {A : Type 0} {m : Result (List ℕ)} {d : Reader A} {a : A} (c : A → Message)
      → Reads m d a
      → Parses m (reads d c) (c a)
  unfolding call
  at_once c r = Parses-give _ (Parses-always r) (λ rest. refl)

  maybe :
      {A : Type 0} {m : Result (List ℕ)} {d : Parser A} {a : A} (c : A → Message)
      → Parses m d a
      → Parses m (parses d c) (c a)
  unfolding call
  maybe c r = Parses-give _ r (λ rest. refl)

  -- The class that the name of a message tells reads the message back.
  pub record IsRead (m : Message) : Type 0 where
    pub parser : Parser Message
    pub found : find (msgtype m) (message_map lib) ≡ some parser
    pub reads_back : Parses (serialize lib m) parser (received m)

  taken :
      {m : Message} {parser : Parser Message}
      → find (msgtype m) (message_map lib) ≡ some parser
      → Parses (serialize lib m) parser (received m)
      → IsRead m
  taken {parser = parser} e p = record { parser = parser; found = e; reads_back = p }

  pub message-IsRead : (m : Message) → IsDeliverable m → IsRead m
  unfolding find msgtype message_map serialize received
  message-IsRead (Message.inv m) h = taken refl (at_once Message.inv (Reads-msg_inv m))
  message-IsRead (Message.getdata m) h = taken refl (at_once Message.getdata (Reads-getdata m))
  message-IsRead (Message.getblocks m) h =
      taken refl (at_once Message.getblocks (Reads-getblocks m))
  message-IsRead (Message.ping m) h = taken refl (at_once Message.ping (Reads-ping m))
  message-IsRead (Message.pong m) h = taken refl (at_once Message.pong (Reads-pong m))
  message-IsRead (Message.notfound m) h = taken refl (at_once Message.notfound (Reads-notfound m))
  message-IsRead (Message.getheaders m) h =
      taken refl (at_once Message.getheaders (Reads-getheaders m))
  message-IsRead (Message.filterload m) h =
      taken refl (at_once Message.filterload (Reads-filterload m))
  message-IsRead (Message.feefilter m) h =
      taken refl (at_once Message.feefilter (Reads-feefilter m))
  message-IsRead (Message.getblocktxn m) h =
      taken refl (at_once Message.getblocktxn (Reads-getblocktxn m))
  message-IsRead (Message.getcfilters m) h =
      taken refl (at_once Message.getcfilters (Reads-getcfilters m))
  message-IsRead (Message.cfilter m) h = taken refl (at_once Message.cfilter (Reads-cfilter m))
  message-IsRead (Message.getcfheaders m) h =
      taken refl (at_once Message.getcfheaders (Reads-getcfheaders m))
  message-IsRead (Message.cfheaders m) h =
      taken refl (at_once Message.cfheaders (Reads-cfheaders m))
  message-IsRead (Message.getcfcheckpt m) h =
      taken refl (at_once Message.getcfcheckpt (Reads-getcfcheckpt m))
  message-IsRead (Message.cfcheckpt m) h =
      taken refl (at_once Message.cfcheckpt (Reads-cfcheckpt m))
  message-IsRead (Message.sendtxrcncl m) h =
      taken refl (at_once Message.sendtxrcncl (Reads-sendtxrcncl m))
  message-IsRead (Message.sendcmpct m) h =
      taken refl (at_once Message.sendcmpct (Reads-sendcmpct m))
  message-IsRead (Message.tx m) h = taken refl (at_once Message.tx (Reads-msg_tx m h))
  message-IsRead (Message.block m) h = taken refl (at_once Message.block (Reads-msg_block m h))
  message-IsRead (Message.cmpctblock m) h =
      taken refl (at_once Message.cmpctblock (Reads-cmpctblock m h))
  message-IsRead (Message.blocktxn m) h = taken refl (at_once Message.blocktxn (Reads-blocktxn m h))
  message-IsRead (Message.merkleblock m) h =
      taken refl (at_once Message.merkleblock (Reads-merkleblock m))
  message-IsRead (Message.headers m) h =
      taken refl (maybe Message.headers (Parses-headers lib.hash256 m))
  message-IsRead (Message.addr m) h = taken refl (maybe Message.addr (Parses-addr lib m h))
  message-IsRead (Message.addrv2 m) h = taken refl (maybe Message.addrv2 (Parses-addrv2 lib m h))
  message-IsRead (Message.version m) h =
      taken refl (maybe Message.version (Parses-version lib m h.0 h.1))
  message-IsRead (Message.filteradd m) h = absurd h
  message-IsRead Message.verack h = taken refl (Parses-always (Reads-nothing Message.verack))
  message-IsRead Message.sendaddrv2 h =
      taken refl (Parses-always (Reads-nothing Message.sendaddrv2))
  message-IsRead Message.wtxidrelay h =
      taken refl (Parses-always (Reads-nothing Message.wtxidrelay))
  message-IsRead Message.getaddr h = taken refl (Parses-always (Reads-nothing Message.getaddr))
  message-IsRead Message.mempool h = taken refl (Parses-always (Reads-nothing Message.mempool))
  message-IsRead Message.sendheaders h =
      taken refl (Parses-always (Reads-nothing Message.sendheaders))
  message-IsRead Message.filterclear h =
      taken refl (Parses-always (Reads-nothing Message.filterclear))
