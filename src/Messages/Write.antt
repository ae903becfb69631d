-- ===== src/Messages/Write.antt =====
-- The methods `serialize` of `messages.py`, and its functions `ser_…`.
use mutiny_net.Prelude.{ℕ, ◌-◌, List, [], ◌∷◌, ◌++◌, ltb, if◌then◌else◌, length, take, replicate}
use mutiny_net.Prelude.Result.{Result, ok}
use mutiny_net.Bytes.{to_bytes, to_bytes_signed}
use mutiny_net.Bytes.Reads.{◌+>◌}
use mutiny_net.Messages.{
  COutPoint, CTxIn, CTxOut, CTxInWitness, CTransaction, CBlockHeader, CBlock, wit_is_null,
}

unfoldable pub ser_compact_size : ℕ → Result (List ℕ)
unfolding to_bytes
ser_compact_size l =
    if ltb l 253
    then to_bytes 1 l
    else if ltb l 0x10000
    then to_bytes 1 253 +> to_bytes 2 l
    else if ltb l 0x100000000
    then to_bytes 1 254 +> to_bytes 4 l
    else to_bytes 1 255 +> to_bytes 8 l

unfoldable pub ser_string : List ℕ → Result (List ℕ)
unfolding ser_compact_size
ser_string s = ser_compact_size (length s) +> ok s

abbrev pub ser_uint256 : ℕ → Result (List ℕ)
ser_uint256 u = to_bytes 32 u

-- `ser_vector` and its variants: `ser` is the method of an entry.
unfoldable pub ser_entries {ℓ} : {A : Type ℓ} → (A → Result (List ℕ)) → List A → Result (List ℕ)
ser_entries ser [] = ok []
ser_entries ser (a ∷ l) = ser a +> ser_entries ser l

unfoldable pub ser_vector {ℓ} : {A : Type ℓ} → (A → Result (List ℕ)) → List A → Result (List ℕ)
unfolding ser_compact_size ser_entries
ser_vector ser l = ser_compact_size (length l) +> ser_entries ser l

unfoldable pub ser_outpoint : COutPoint → Result (List ℕ)
unfolding to_bytes
ser_outpoint o = ser_uint256 o.hash +> to_bytes 4 o.n

unfoldable pub ser_tx_in : CTxIn → Result (List ℕ)
unfolding ser_outpoint ser_string to_bytes
ser_tx_in i = ser_outpoint i.prevout +> ser_string i.script_sig +> to_bytes 4 i.n_sequence

unfoldable pub ser_tx_out : CTxOut → Result (List ℕ)
unfolding to_bytes_signed ser_string
ser_tx_out o = to_bytes_signed 8 o.n_value +> ser_string o.script_pub_key

unfoldable pub ser_tx_in_witness : CTxInWitness → Result (List ℕ)
unfolding ser_vector ser_string
ser_tx_in_witness w = ser_vector ser_string w.stack

unfoldable pub serialize_without_witness : CTransaction → Result (List ℕ)
unfolding to_bytes ser_vector ser_tx_in ser_tx_out
serialize_without_witness tx =
    to_bytes 4 tx.version
    +> ser_vector ser_tx_in tx.vin
    +> ser_vector ser_tx_out tx.vout
    +> to_bytes 4 tx.n_lock_time

-- `vtxinwit` cut or filled up to the length of `vin`
unfoldable pub fit_witness : CTransaction → List CTxInWitness
fit_witness tx =
    take (length tx.vin) tx.wit ++ replicate (length tx.vin - length tx.wit) (record { stack = [] })

-- Two bytes mark a transaction with a witness: an empty vector and the flags.
unfoldable pub serialize_with_witness : CTransaction → Result (List ℕ)
unfolding to_bytes ser_vector ser_tx_in ser_tx_out ser_tx_in_witness wit_is_null fit_witness
    ser_entries serialize_without_witness
serialize_with_witness tx =
    if wit_is_null tx.wit
    then serialize_without_witness tx
    else to_bytes 4 tx.version
      +> ser_compact_size 0
      +> to_bytes 1 1
      +> ser_vector ser_tx_in tx.vin
      +> ser_vector ser_tx_out tx.vout
      +> ser_entries ser_tx_in_witness (fit_witness tx)
      +> to_bytes 4 tx.n_lock_time

unfoldable pub ser_header : CBlockHeader → Result (List ℕ)
unfolding to_bytes to_bytes_signed
ser_header h =
    to_bytes_signed 4 h.n_version
    +> ser_uint256 h.hash_prev_block
    +> ser_uint256 h.hash_merkle_root
    +> to_bytes 4 h.n_time
    +> to_bytes 4 h.n_bits
    +> to_bytes 4 h.n_nonce

-- `CBlock.serialize`; the miner leaves `with_witness` at its default.
unfoldable pub ser_block : CBlock → Result (List ℕ)
unfolding ser_header ser_vector serialize_with_witness
ser_block b = ser_header b.header +> ser_vector serialize_with_witness b.vtx
