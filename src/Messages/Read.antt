-- ===== src/Messages/Read.antt =====
-- The methods `deserialize` of `messages.py`, and its functions `deser_…`. A reader gives the object
-- and the rest of the stream.
use mutiny_net.Prelude.{ℕ, zero, suc, List, [], ◌∷◌, ◌==◌, if◌then◌else◌, length, none}
use mutiny_net.Bytes.{Reader, ◌>>=◌, give, read, read_int, read_signed}
use mutiny_net.Messages.{COutPoint, CTxIn, CTxOut, CTxInWitness, CTransaction, CBlockHeader, CBlock}

-- The size behind a first byte.
unfoldable pub size_after : ℕ → Reader ℕ
unfolding read_int
size_after nit =
    if nit == 253
    then read_int 2
    else if nit == 254
    then read_int 4
    else if nit == 255
    then read_int 8
    else give nit

unfoldable pub deser_compact_size : Reader ℕ
unfolding size_after read_int
deser_compact_size = read_int 1 >>= size_after

unfoldable pub deser_string : Reader (List ℕ)
unfolding deser_compact_size read
deser_string = deser_compact_size >>= read

abbrev pub deser_uint256 : Reader ℕ
unfolding read_int
deser_uint256 = read_int 32

-- `nit` entries, each read by `deser`
unfoldable pub deser_entries {ℓ} : {A : Type ℓ} → Reader A → ℕ → Reader (List A)
deser_entries deser zero = give []
deser_entries deser (suc nit) = deser >>= (λ t. deser_entries deser nit >>= (λ r. give (t ∷ r)))

unfoldable pub deser_vector {ℓ} : {A : Type ℓ} → Reader A → Reader (List A)
unfolding deser_compact_size deser_entries
deser_vector deser = deser_compact_size >>= deser_entries deser

unfoldable pub deser_outpoint : Reader COutPoint
unfolding read_int
deser_outpoint = deser_uint256 >>= λ h. read_int 4 >>= λ i. give (record { hash = h; n = i })

unfoldable pub deser_tx_in : Reader CTxIn
unfolding deser_outpoint deser_string read_int
deser_tx_in = do
  prevout ← deser_outpoint
  script_sig ← deser_string
  n_sequence ← read_int 4
  give (record { prevout = prevout; script_sig = script_sig; n_sequence = n_sequence })

unfoldable pub deser_tx_out : Reader CTxOut
unfolding read_signed deser_string
deser_tx_out = do
  n_value ← read_signed 8
  script_pub_key ← deser_string
  give (record { n_value = n_value; script_pub_key = script_pub_key })

unfoldable pub deser_tx_in_witness : Reader CTxInWitness
unfolding deser_vector deser_string
deser_tx_in_witness = deser_vector deser_string >>= λ stack. give (record { stack = stack })

unfoldable pub deser_flagged : ℕ → Reader (ℕ × List CTxIn × List CTxOut)
unfolding deser_vector deser_tx_in deser_tx_out
deser_flagged zero = give (0, [], [])
deser_flagged (suc flags) = do
  vin ← deser_vector deser_tx_in
  vout ← deser_vector deser_tx_out
  give (suc flags, vin, vout)

-- An empty first vector may be the mark of a witness; then the flags and both vectors follow.
unfoldable pub deser_ins_outs : List CTxIn → Reader (ℕ × List CTxIn × List CTxOut)
unfolding deser_vector deser_tx_out deser_flagged read_int
deser_ins_outs [] = read_int 1 >>= deser_flagged
deser_ins_outs (i ∷ vin) = deser_vector deser_tx_out >>= λ vout. give (0, i ∷ vin, vout)

unfoldable pub deser_wit : ℕ → ℕ → Reader (List CTxInWitness)
unfolding deser_entries deser_tx_in_witness
deser_wit zero n = give []
deser_wit (suc flags) n = deser_entries deser_tx_in_witness n

unfoldable pub deser_tx : Reader CTransaction
unfolding deser_ins_outs deser_wit deser_vector deser_tx_in read_int
deser_tx = do
  version ← read_int 4
  first ← deser_vector deser_tx_in
  (flags, vin, vout) ← deser_ins_outs first
  wit ← deser_wit flags (length vin)
  n_lock_time ← read_int 4
  give (record {
    version = version;
    vin = vin;
    vout = vout;
    wit = wit;
    n_lock_time = n_lock_time;
    sha256 = none;
  })

unfoldable pub deser_header : Reader CBlockHeader
unfolding read_signed read_int
deser_header = do
  n_version ← read_signed 4
  hash_prev_block ← deser_uint256
  hash_merkle_root ← deser_uint256
  n_time ← read_int 4
  n_bits ← read_int 4
  n_nonce ← read_int 4
  give (record {
    n_version = n_version;
    hash_prev_block = hash_prev_block;
    hash_merkle_root = hash_merkle_root;
    n_time = n_time;
    n_bits = n_bits;
    n_nonce = n_nonce;
    block_sha256 = none;
  })

unfoldable pub deser_block : Reader CBlock
unfolding deser_header deser_vector deser_tx
deser_block = do
  header ← deser_header
  vtx ← deser_vector deser_tx
  give (record { header = header; vtx = vtx })
