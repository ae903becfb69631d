-- ===== src/Protocol/Payloads.antt =====
-- What the kinds of messages that carry transactions or addresses say is read back.
use mutiny_net.Prelude.{ℕ, ◌≡◌, refl, none, List, [], ◌∷◌, map, length, All, Bool, true, false}
use mutiny_net.Prelude.Result.{Result, ok, err, ◌>>=◌}
use mutiny_net.Bytes.Reads.{
  Reads, ◌+>◌, Reads-append, Reads-map, Reads-int, Reads-signed, Reads-nothing,
}
use mutiny_net.Bytes.Parser.{
  Parser, always, call, Parses, Parses-always, Parses-append, Parses-give, Parses-call,
}
use mutiny_net.Messages.{CBlock}
use mutiny_net.Messages.Write.{ser_entries, ser_vector, ser_string, ser_block}
use mutiny_net.Messages.Parts.{Reads-string, Reads-compact_size, Reads-header, Reads-vector-All}
use mutiny_net.Address.RoundTrip.{IsText, IsIpv4, kept_time, Parses-address, Parses-address_v2}
use mutiny_net.Compact.Parts.{
  HasInput, IsSendable, received_tx, received_ids, Reads-transaction, Reads-header_and_shortids,
  Reads-block_transactions,
}
use mutiny_net.Partial.RoundTrip.{received_merkle_block, Reads-merkle_block}
use mutiny_net.Protocol
use mutiny_net.Bytes.{give}
use mutiny_net.Messages.Read.{deser_block}
use mutiny_net.Protocol.{Message, Library}
use mutiny_net.Protocol.Write.{
  ser_msg_tx, ser_msg_block, ser_cmpctblock, ser_blocktxn, ser_addr, ser_addrv2, ser_version,
  ser_merkleblock,
}
use mutiny_net.Protocol.Read.{
  deser_msg_tx, deser_msg_block, deser_cmpctblock, deser_blocktxn, deser_merkleblock,
}
use mutiny_net.Protocol.Map.{parse_entries, parse_vector, deser_addr, deser_addrv2, deser_version}

module _ {A : Type 0} {ser : A → Result (List ℕ)} {deser : Parser A} {P : A → Type 0} where
  pub Parses-entries :
      ((a : A) → P a → Parses (ser a) deser a)
      → (l : List A) → All P l
      → Parses (ser_entries ser l) (parse_entries deser (length l)) l
  unfolding ser_entries parse_entries call always give
  Parses-entries r [] h = Parses-always (Reads-nothing [])
  Parses-entries r (a ∷ l) (h, hs) =
      Parses-append _ (r a h) (Parses-give _ (Parses-entries r l hs) (λ rest. refl))

  pub Parses-vector :
      ((a : A) → P a → Parses (ser a) deser a)
      → (l : List A) → All P l
      → Parses (ser_vector ser l) (parse_vector deser) l
  unfolding ser_vector parse_vector
  Parses-vector r l h =
      Parses-append _ (Parses-always (Reads-compact_size (length l))) (Parses-entries r l h)

-- A writer of what a call gives
pub Parses-after {ℓ} :
    {A : Type ℓ} (w : List ℕ → Result (List ℕ)) (n : Result (List ℕ)) {d : Parser A} {a : A}
    (r : Result (List ℕ))
    → ((x : List ℕ) → r ≡ ok x → Parses (w x +> n) d a)
    → Parses ((r >>= w) +> n) d a
Parses-after w n (ok x) p = p x refl
Parses-after w n (err e) p = record { back = λ s rest h. cc }

pub Reads-msg_tx :
    (m : Protocol.MsgTx)
    → HasInput m.tx
    → Reads
        (ser_msg_tx m)
        deser_msg_tx
        (record { tx = received_tx m.with_witness m.tx; with_witness = true })
unfolding ser_msg_tx deser_msg_tx
Reads-msg_tx m h = Reads-map _ (Reads-transaction m.with_witness m.tx h)

-- What is left of a block: its header without the cached hash, and the transactions as they are read
abbrev pub received_block : Bool → CBlock → CBlock
received_block w b = record {
  header = record b.header { block_sha256 = none };
  vtx = map (received_tx w) b.vtx;
}

pub Reads-either :
    (w : Bool) (b : CBlock)
    → All HasInput b.vtx
    → Reads
        (ser_msg_block (record { block = b; with_witness = w }))
        deser_block
        (received_block w b)
unfolding ser_msg_block ser_block deser_block
Reads-either true b h =
    Reads-append _ (Reads-header b.header)
      (Reads-map _ (Reads-vector-All (Reads-transaction true) b.vtx h))
Reads-either false b h =
    Reads-append _ (Reads-header b.header)
      (Reads-map _ (Reads-vector-All (Reads-transaction false) b.vtx h))

pub Reads-msg_block :
    (m : Protocol.MsgBlock)
    → All HasInput m.block.vtx
    → Reads
        (ser_msg_block m)
        deser_msg_block
        (record { block = received_block m.with_witness m.block; with_witness = true })
unfolding ser_msg_block deser_msg_block
Reads-msg_block m h = Reads-map _ (Reads-either m.with_witness m.block h)

pub Reads-cmpctblock :
    (m : Protocol.MsgCmpctblock)
    → IsSendable m.header_and_shortids
    → Reads (ser_cmpctblock m) deser_cmpctblock (record {
      header_and_shortids = received_ids m.header_and_shortids.witness_ids m.header_and_shortids;
    })
unfolding ser_cmpctblock deser_cmpctblock
Reads-cmpctblock m h =
    Reads-map _
      (Reads-header_and_shortids m.header_and_shortids.witness_ids m.header_and_shortids h)

abbrev pub received_blocktxn : Protocol.MsgBlocktxn → Protocol.MsgBlocktxn
received_blocktxn m = record {
  block_transactions = record m.block_transactions {
    transactions = map (received_tx m.with_witness) m.block_transactions.transactions;
  };
  with_witness = true;
}

pub Reads-blocktxn :
    (m : Protocol.MsgBlocktxn)
    → All HasInput m.block_transactions.transactions
    → Reads (ser_blocktxn m) deser_blocktxn (received_blocktxn m)
unfolding ser_blocktxn deser_blocktxn
Reads-blocktxn m h = Reads-map _ (Reads-block_transactions m.with_witness m.block_transactions h)

pub Reads-merkleblock :
    (m : Protocol.MsgMerkleblock)
    → Reads
        (ser_merkleblock m)
        deser_merkleblock
        (record { merkleblock = received_merkle_block m.merkleblock })
unfolding ser_merkleblock deser_merkleblock
Reads-merkleblock m = Reads-map _ (Reads-merkle_block m.merkleblock)

module _ (lib : Library) where
  pub Parses-version :
      (m : Protocol.MsgVersion)
      → IsIpv4 lib.texts m.addr_to
      → IsIpv4 lib.texts m.addr_from
      → Parses (ser_version lib.texts lib.encode m) (deser_version lib.texts lib.decode) (record m {
        addr_to = kept_time false m.addr_to;
        addr_from = kept_time false m.addr_from;
      })
  unfolding ser_version deser_version call
  Parses-version m to from = Parses-append _ (Parses-always (Reads-signed 4 m.n_version)) (
      Parses-append _ (Parses-always (Reads-int 8 m.n_services)) (
        Parses-append _ (Parses-always (Reads-signed 8 m.n_time)) (
          Parses-append _ (Parses-address lib.texts false m.addr_to to) (
            Parses-append _ (Parses-address lib.texts false m.addr_from from) (
              Parses-append _ (Parses-always (Reads-int 8 m.n_nonce)) (
                Parses-after ser_string _ (lib.encode m.str_sub_ver) λ s e.
                  Parses-append _ (Parses-always (Reads-string s)) (
                    Parses-call _ (lib.decode-encode m.str_sub_ver s e) (
                      Parses-append _ (Parses-always (Reads-signed 4 m.n_starting_height))
                        (Parses-give _ (Parses-always (Reads-int 1 m.relay)) (λ rest. refl))))))))))

  pub Parses-addr :
      (m : Protocol.MsgAddr)
      → All (IsIpv4 lib.texts) m.addrs
      → Parses (ser_addr lib.texts m) (deser_addr lib.texts) m
  unfolding ser_addr deser_addr call
  Parses-addr m h =
      Parses-give _ (Parses-vector (Parses-address lib.texts true) m.addrs h) (λ rest. refl)

  pub Parses-addrv2 :
      (m : Protocol.MsgAddrv2)
      → All (IsText lib.texts) m.addrs
      → Parses (ser_addrv2 lib.texts m) (deser_addrv2 lib.texts) m
  unfolding ser_addrv2 deser_addrv2 call
  Parses-addrv2 m h =
      Parses-give _ (Parses-vector (Parses-address_v2 lib.texts) m.addrs h) (λ rest. refl)
