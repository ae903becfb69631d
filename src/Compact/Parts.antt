-- ===== src/Compact/Parts.antt =====
-- Compact blocks are read back as they were written.
use mutiny_net.Prelude.{
  ℕ, ◌^◌, ◌<◌, ◌≡◌, refl, sym, ◌∙◌, subst, arith, map, none, true, false, Bool, List, [], ◌∷◌, ◌++◌,
  All, length, length-map, if◌then◌else◌,
}
use mutiny_net.Prelude.Int.{ℤ, pos, negsuc}
use mutiny_net.Prelude.Result.{ok}
use mutiny_net.Bytes.{le_value, le_digits, to_bytes}
use mutiny_net.Bytes.Reads.{Reads, Reads-append, Reads-map, Reads-int}
use mutiny_net.Messages.{CTransaction}
use mutiny_net.Messages.Write.{ser_entries}
use mutiny_net.Messages.Read.{deser_entries, deser_tx}
use mutiny_net.Messages.Parts.{
  Reads-compact_size, Reads-header, Reads-entries_same, Reads-entries-All, Reads-vector-All,
  map-same,
}
use mutiny_net.Messages.RoundTrip.{as_read, Reads-tx, Reads-without_witness}
use mutiny_net.Compact.{
  PrefilledTransaction, P2PHeaderAndShortIds, BlockTransactionsRequest, BlockTransactions,
}
use mutiny_net.Compact.Write.{
  ser_index, ser_transaction, ser_prefilled, ser_shortid, ser_header_and_shortids,
  ser_block_txn_request, ser_block_transactions,
}
use mutiny_net.Compact.Read.{
  deser_index, deser_prefilled, deser_shortid, deser_header_and_shortids, deser_block_txn_request,
  deser_block_transactions,
}

Reads-index : (i : ℤ) → Reads (ser_index i) deser_index i
unfolding ser_index deser_index
Reads-index (pos i) = Reads-map _ (Reads-compact_size i)
Reads-index (negsuc i) = record { back = λ s rest h. cc }

-- Six bytes are enough for a short identifier.
le_value-six : (x : ℕ) → x < 2 ^ 48 → le_value (le_digits 6 x ++ 0 ∷ 0 ∷ []) ≡ x
unfolding le_value le_digits
le_value-six x h = omega arith

ser_shortid-eq-ok : (x : ℕ) (s : List ℕ) → ser_shortid x ≡ ok s → s ≡ le_digits 6 x
unfolding ser_shortid to_bytes le_digits
ser_shortid-eq-ok x s h = ground arith

Reads-shortid : (x : ℕ) → x < 2 ^ 48 → Reads (ser_shortid x) deser_shortid x
unfolding deser_shortid
Reads-shortid x h = record {
  back = λ s rest e.
      subst (λ (t : List ℕ). deser_shortid (t ++ rest) ≡ (x, rest)) (sym (ser_shortid-eq-ok x s e))
        (unfold le_digits in rw (le_value-six x h) refl);
}

-- What is left of a transaction that was written with or without its witness
abbrev pub received_tx : Bool → CTransaction → CTransaction
received_tx with_witness tx =
    if with_witness then as_read tx else record tx { wit = []; sha256 = none }

-- A transaction has an input.
abbrev pub HasInput : CTransaction → Type 0
HasInput tx = 0 < length tx.vin

pub Reads-transaction :
    (w : Bool) (tx : CTransaction)
    → HasInput tx
    → Reads (ser_transaction w tx) deser_tx (received_tx w tx)
Reads-transaction true tx h = Reads-tx tx h
Reads-transaction false tx h = Reads-without_witness tx h

abbrev pub received_prefilled : Bool → PrefilledTransaction → PrefilledTransaction
received_prefilled w p = record p { tx = received_tx w p.tx }

Reads-prefilled :
    (w : Bool) (p : PrefilledTransaction)
    → HasInput p.tx
    → Reads (ser_prefilled w p) deser_prefilled (received_prefilled w p)
unfolding ser_prefilled deser_prefilled
Reads-prefilled w p h =
    Reads-append _ (Reads-index p.index) (Reads-map _ (Reads-transaction w p.tx h))

-- The lengths that are kept are those of the lists, the short identifiers have six bytes, and the
-- prefilled transactions have inputs.
pub record IsSendable (h : P2PHeaderAndShortIds) : Type 0 where
  pub counted : h.shortids_length ≡ length h.shortids
  pub prefilled_counted : h.prefilled_txn_length ≡ length h.prefilled_txn
  pub short : All (λ x. x < 2 ^ 48) h.shortids
  pub have_inputs : All (λ p. HasInput p.tx) h.prefilled_txn

-- What is left of a compact block that was written with or without witnesses
abbrev pub received_ids : Bool → P2PHeaderAndShortIds → P2PHeaderAndShortIds
received_ids w h = record h {
  header = record h.header { block_sha256 = none };
  prefilled_txn = map (received_prefilled w) h.prefilled_txn;
  witness_ids = false;
}

Reads-shortids :
    (l : List ℕ)
    → All (λ x. x < 2 ^ 48) l
    → Reads (ser_entries ser_shortid l) (deser_entries deser_shortid (length l)) l
Reads-shortids l h =
    subst (Reads (ser_entries ser_shortid l) (deser_entries deser_shortid (length l))) (map-same l)
      (Reads-entries-All Reads-shortid l h)

pub Reads-header_and_shortids :
    (w : Bool) (h : P2PHeaderAndShortIds)
    → IsSendable h
    → Reads (ser_header_and_shortids w h) deser_header_and_shortids (received_ids w h)
unfolding ser_header_and_shortids deser_header_and_shortids
Reads-header_and_shortids w h sendable =
    subst
      (λ (n : ℕ).
        Reads (ser_header_and_shortids w h) deser_header_and_shortids
          (record (received_ids w h) { prefilled_txn_length = n }))
      (length-map h.prefilled_txn (received_prefilled w) ∙ sym sendable.prefilled_counted)
      (Reads-append _ (Reads-header h.header) (
        Reads-append _ (Reads-int 8 h.nonce) (
          Reads-append _ (Reads-compact_size h.shortids_length) (
            Reads-append _
              (subst
                (λ (n : ℕ).
                  Reads (ser_entries ser_shortid h.shortids) (deser_entries deser_shortid n)
                    h.shortids)
                (sym sendable.counted) (Reads-shortids h.shortids sendable.short))
              (Reads-map _ (
                Reads-vector-All (λ p. Reads-prefilled w p) h.prefilled_txn
                  sendable.have_inputs))))))

pub Reads-block_txn_request :
    (r : BlockTransactionsRequest) → Reads (ser_block_txn_request r) deser_block_txn_request r
unfolding ser_block_txn_request deser_block_txn_request
Reads-block_txn_request r = Reads-append _ (Reads-int 32 r.blockhash) (
    Reads-append _ (Reads-compact_size (length r.indexes))
      (Reads-map _ (Reads-entries_same Reads-index r.indexes)))

pub Reads-block_transactions :
    (w : Bool) (b : BlockTransactions)
    → All HasInput b.transactions
    → Reads
        (ser_block_transactions w b)
        deser_block_transactions
        (record b { transactions = map (received_tx w) b.transactions })
unfolding ser_block_transactions deser_block_transactions
Reads-block_transactions w b h =
    Reads-append _ (Reads-int 32 b.blockhash)
      (Reads-map _ (Reads-vector-All (Reads-transaction w) b.transactions h))
