-- ===== src/Messages/RoundTrip.antt =====
-- Transactions and blocks are read back as they were written.
use mutiny_net.Prelude.{
  ℕ, ◌-◌, ◌≡◌, ◌<◌, refl, sym, subst, arith, map, none, List, [], ◌∷◌, ◌++◌, length, true, false,
  if◌then◌else◌, Bool-cases, inl, inr, take, replicate, length-append, length-take,
  length-replicate,
}
use mutiny_net.Prelude.Result.{Result, ok}
use mutiny_net.Bytes.Reads.{
  Reads, Reads-int, Reads-append, Reads-map, Reads-give, Reads-nothing, Reads-after_give,
  Reads-assoc,
}
use mutiny_net.Messages.{CTxIn, CTxOut, CTxInWitness, CTransaction, CBlock, wit_is_null}
use mutiny_net.Messages.Write.{
  ser_compact_size, ser_entries, ser_vector, ser_tx_out, ser_tx_in_witness, fit_witness,
  serialize_without_witness, serialize_with_witness, ser_block,
}
use mutiny_net.Messages.Read.{
  deser_vector, deser_entries, deser_tx_in, deser_tx_in_witness, deser_flagged, deser_ins_outs,
  deser_wit, deser_tx, deser_block,
}
use mutiny_net.Messages.Parts.{
  Reads-compact_size, Reads-tx_in, Reads-tx_out, Reads-tx_in_witness, Reads-header,
  Reads-vector_same, Reads-entries_same,
}

length-fit_witness : (tx : CTransaction) → length (fit_witness tx) ≡ length tx.vin
unfolding fit_witness
length-fit_witness tx =
    let w : CTxInWitness = record { stack = [] } in
    omega (
      arith,
      length-append (take (length tx.vin) tx.wit) (replicate (length tx.vin - length tx.wit) w),
      length-take (length tx.vin) tx.wit,
      length-replicate (length tx.vin - length tx.wit) w,
    )

-- What is left of a transaction that was written: a witness without items is none, another has as
-- many entries as there are inputs, and no hash is cached.
unfoldable pub as_read : CTransaction → CTransaction
unfolding wit_is_null fit_witness
as_read tx = record tx { wit = if wit_is_null tx.wit then [] else fit_witness tx; sha256 = none }

Reads-ins_outs :
    (vin : List CTxIn) (vout : List CTxOut)
    → 0 < length vin
    → Reads (ser_vector ser_tx_out vout) (deser_ins_outs vin) (0, vin, vout)
unfolding deser_ins_outs
Reads-ins_outs [] vout h = absurd (omega arith)
Reads-ins_outs (i ∷ vin) vout h = Reads-map _ (Reads-vector_same Reads-tx_out vout)

pub Reads-without_witness :
    (tx : CTransaction)
    → 0 < length tx.vin
    → Reads (serialize_without_witness tx) deser_tx (record tx { wit = []; sha256 = none })
unfolding serialize_without_witness deser_tx deser_wit
Reads-without_witness tx h = Reads-append _ (Reads-int 4 tx.version) (
    Reads-append _ (Reads-vector_same Reads-tx_in tx.vin) (
      Reads-append _ (Reads-ins_outs tx.vin tx.vout h)
        (Reads-after_give _ [] (Reads-map _ (Reads-int 4 tx.n_lock_time)))))

-- The mark of a witness is read as an empty vector.
Reads-mark : Reads (ser_compact_size 0) (deser_vector deser_tx_in) []
unfolding deser_vector deser_entries
Reads-mark = Reads-give _ (Reads-compact_size 0) refl

Reads-witness :
    (tx : CTransaction)
    → Reads
        (ser_entries ser_tx_in_witness (fit_witness tx))
        (deser_wit 1 (length tx.vin))
        (fit_witness tx)
unfolding deser_wit
Reads-witness tx =
    subst
      (λ (n : ℕ).
        Reads (ser_entries ser_tx_in_witness (fit_witness tx)) (deser_entries deser_tx_in_witness n)
          (fit_witness tx))
      (length-fit_witness tx) (Reads-entries_same Reads-tx_in_witness (fit_witness tx))

Reads-with_witness :
    (tx : CTransaction)
    → wit_is_null tx.wit ≡ false
    → Reads (serialize_with_witness tx) deser_tx (record tx { wit = fit_witness tx; sha256 = none })
unfolding serialize_with_witness deser_tx deser_ins_outs deser_flagged
Reads-with_witness tx h = rw h (
    Reads-append _ (Reads-int 4 tx.version) (
      Reads-append _ Reads-mark (
        Reads-assoc _ _ _ (
          Reads-append _ (Reads-int 1 1) (
            Reads-assoc _ _ _ (
              Reads-append _ (Reads-vector_same Reads-tx_in tx.vin) (
                Reads-assoc _ _ _ (
                  Reads-append _ (Reads-vector_same Reads-tx_out tx.vout) (
                    Reads-after_give _ _ (
                      Reads-append _ (Reads-witness tx)
                        (Reads-map _ (Reads-int 4 tx.n_lock_time))))))))))))

serialize_with_witness-plain :
    (tx : CTransaction)
    → wit_is_null tx.wit ≡ true
    → serialize_with_witness tx ≡ serialize_without_witness tx
unfolding serialize_with_witness
serialize_with_witness-plain tx e = rw e refl

pub Reads-tx :
    (tx : CTransaction)
    → 0 < length tx.vin
    → Reads (serialize_with_witness tx) deser_tx (as_read tx)
unfolding as_read
Reads-tx tx h = elim (Bool-cases (wit_is_null tx.wit)) [
  | inl e ↦
      subst (λ (m : Result (List ℕ)). Reads m deser_tx (as_read tx))
        (sym (serialize_with_witness-plain tx e)) (rw e (Reads-without_witness tx h))
  | inr e ↦ rw e (Reads-with_witness tx e)
]

-- Whatever follows it in the stream, a transaction with an input that was written is read back: with
-- the witness that was written, if it has an item, and else with none; no hash of it is cached.
pub deser_tx-serialize_with_witness :
    (tx : CTransaction) (s rest : List ℕ)
    → 0 < length tx.vin
    → serialize_with_witness tx ≡ ok s
    → deser_tx (s ++ rest) ≡ (as_read tx, rest)
deser_tx-serialize_with_witness tx s rest h e = (Reads-tx tx h).back s rest e

-- Every transaction has an input.
abbrev pub HaveInputs : List CTransaction → Type 0
HaveInputs [] = Unit
HaveInputs (tx ∷ vtx) = (0 < length tx.vin) × HaveInputs vtx

Reads-txs :
    (vtx : List CTransaction)
    → HaveInputs vtx
    → Reads
        (ser_entries serialize_with_witness vtx)
        (deser_entries deser_tx (length vtx))
        (map as_read vtx)
unfolding ser_entries deser_entries
Reads-txs [] h = Reads-nothing []
Reads-txs (tx ∷ vtx) (h, hs) = Reads-append _ (Reads-tx tx h) (Reads-map _ (Reads-txs vtx hs))

pub Reads-block :
    (b : CBlock)
    → HaveInputs b.vtx
    → Reads
        (ser_block b)
        deser_block
        (record { header = record b.header { block_sha256 = none }; vtx = map as_read b.vtx })
unfolding ser_block deser_block ser_vector deser_vector
Reads-block b h =
    Reads-append _ (Reads-header b.header)
      (Reads-map _ (Reads-append _ (Reads-compact_size (length b.vtx)) (Reads-txs b.vtx h)))

-- A block whose transactions all have an input is read back as it was written, but for the cached
-- hashes and for witnesses without items.
pub deser_block-ser_block :
    (b : CBlock) (s rest : List ℕ)
    → HaveInputs b.vtx
    → ser_block b ≡ ok s
    → deser_block (s ++ rest)
      ≡ (record { header = record b.header { block_sha256 = none }; vtx = map as_read b.vtx }, rest)
deser_block-ser_block b s rest h e = (Reads-block b h).back s rest e
