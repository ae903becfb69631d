-- ===== src/Signet.antt =====
-- `signet_txs`, `finish_block` and the block of `generate_psbt` in `miner`. A template's texts of
-- hexadecimal digits are the numbers and byte strings that they are parsed to. The hash `hash256` is
-- a parameter, and so is the command that grinds a header.
pub mod Finish
pub mod Commitment
pub mod Template
pub mod Tests
use mutiny_net.Prelude.{
  ℕ, zero, suc, ◌+◌, ◌-◌, Option, none, some, List, [], ◌∷◌, ◌++◌, map, take, drop, ◌==◌,
  if◌then◌else◌,
}
use mutiny_net.Prelude.Int.{ℤ, pos, pos_part, ltb_ℤ}
use mutiny_net.Prelude.Result.{Result, ok, err, index_error, overflow_error, ◌>>=◌}
use mutiny_net.Bytes.{to_bytes, to_bytes_signed}
use mutiny_net.Bytes.Reads.{◌+>◌}
use mutiny_net.Messages.{
  COutPoint, CTxIn, CTxOut, CTxInWitness, CTransaction, CBlockHeader, CBlock, new_tx, set_null,
}
use mutiny_net.Messages.Write.{ser_uint256, ser_header}
use mutiny_net.Messages.Read.{deser_tx, deser_header}
use mutiny_net.Script.{encode_op_pushdata, script_bip34_coinbase_height}
use mutiny_net.Block.{
  uint256_from_str, known_sha256, rehash, leaves, on_each, get_merkle_root, calc_merkle_root,
  calc_witness_merkle_root, rehash_header, solve,
}

-- SIGNET_HEADER
abbrev pub signet_header : List ℕ
signet_header = 0xec ∷ 0xc7 ∷ 0xda ∷ 0xa2 ∷ []

-- `vout[-1].scriptPubKey += …`; the list is looked at before the script is made.
unfoldable pub extend_last : Result (List ℕ) → List CTxOut → Result (List CTxOut)
extend_last more [] = err index_error
extend_last more (o ∷ []) = do
  s ← more
  ok (record o { script_pub_key = o.script_pub_key ++ s } ∷ [])
extend_last more (o ∷ o' ∷ vout) = do rest ← extend_last more (o' ∷ vout); ok (o ∷ rest)

-- `vtx[0].vout[-1].scriptPubKey += …`
unfoldable pub extend_coinbase : Result (List ℕ) → List CTransaction → Result (List CTransaction)
unfolding extend_last
extend_coinbase more [] = err index_error
extend_coinbase more (tx ∷ vtx) = do
  vout ← extend_last more tx.vout
  ok (record tx { vout = vout } ∷ vtx)

-- The block's data that the signature covers: `sd`
unfoldable pub signet_data : CBlockHeader → ℕ → Result (List ℕ)
unfolding to_bytes to_bytes_signed
signet_data h mroot =
    to_bytes_signed 4 h.n_version
    +> ser_uint256 h.hash_prev_block
    +> ser_uint256 mroot
    +> to_bytes 4 h.n_time

-- A transaction of version 0 with one input and one output
abbrev pub bare_tx : CTxIn → CTxOut → CTransaction
bare_tx i o = record new_tx { version = 0; vin = i ∷ []; vout = o ∷ [] }

abbrev pub to_spend_tx : List ℕ → List ℕ → CTransaction
to_spend_tx push challenge =
    bare_tx
      (record {
        prevout = record { hash = 0; n = 0xffffffff };
        script_sig = 0 ∷ push;
        n_sequence = 0;
      })
      (record { n_value = pos 0; script_pub_key = challenge })

abbrev pub spend_tx : ℕ → CTransaction
spend_tx hash =
    bare_tx (record { prevout = record { hash = hash; n = 0 }; script_sig = []; n_sequence = 0 })
      (record { n_value = pos 0; script_pub_key = 0x6a ∷ [] })

-- The parts of the reply to `getblocktemplate` that `generate_psbt` reads.
pub record BlockTemplate : Type 0 where
  pub signet_challenge : List ℕ
  pub height : ℕ
  pub coinbasevalue : ℤ
  pub version : ℤ
  pub previousblockhash : ℕ
  pub curtime : ℕ
  pub mintime : ℕ
  pub bits : ℕ
  pub transactions : List (List ℕ)

-- A poolid is pushed behind the height.
unfoldable pub coinbase_script : ℕ → Option (List ℕ) → Result (List ℕ)
unfolding script_bip34_coinbase_height encode_op_pushdata
coinbase_script height none = script_bip34_coinbase_height height
coinbase_script height (some poolid) =
    script_bip34_coinbase_height height +> encode_op_pushdata poolid

-- `tmpl["height"] - 1`; -1 cannot be written, which `cbtx.rehash()` finds.
unfoldable pub lock_time : ℕ → Result ℕ
lock_time zero = err overflow_error
lock_time (suc n) = ok n

-- The block time, raised to the template's minimum.
unfoldable pub time_of_block : BlockTemplate → Option ℤ → ℕ
time_of_block tmpl none =
    if ltb_ℤ (pos tmpl.curtime) (pos tmpl.mintime) then tmpl.mintime else tmpl.curtime
time_of_block tmpl (some t) = if ltb_ℤ t (pos tmpl.mintime) then tmpl.mintime else pos_part t

unfoldable pub version_of_block : BlockTemplate → Option ℤ → ℤ
version_of_block tmpl none = tmpl.version
version_of_block tmpl (some v) = v

module _ (hash256 : List ℕ → List ℕ) where
  -- The Merkle root of a block whose coinbase ends with the bare header of a solution; the
  -- transactions but the copied coinbase keep the identifiers that it computes.
  unfoldable pub signet_root : List CTransaction → Result (List CTransaction × ℕ)
  unfolding extend_coinbase encode_op_pushdata on_each rehash leaves known_sha256 get_merkle_root
  signet_root vtx = do
    txs ← extend_coinbase (encode_op_pushdata signet_header) vtx
    txs' ← on_each (rehash hash256) txs
    hashes ← leaves (known_sha256 hash256) txs'
    mroot ← get_merkle_root hash256 hashes
    ok (take 1 vtx ++ drop 1 txs', mroot)

  -- The two transactions, `spend` before `to_spend`.
  unfoldable pub signing_pair : CBlockHeader → ℕ → List ℕ → Result (CTransaction × CTransaction)
  unfolding signet_data encode_op_pushdata rehash known_sha256
  signing_pair h mroot challenge = do
    sd ← signet_data h mroot
    push ← encode_op_pushdata sd
    to_spend ← rehash hash256 (to_spend_tx push challenge)
    hash ← known_sha256 hash256 to_spend
    ok (spend_tx hash, to_spend)

  unfoldable pub signet_txs : CBlock → List ℕ → Result (CBlock × CTransaction × CTransaction)
  unfolding signet_root signing_pair
  signet_txs block challenge = do
    (vtx, mroot) ← signet_root block.vtx
    (spend, to_spend) ← signing_pair block.header mroot challenge
    ok (record block { vtx = vtx }, spend, to_spend)

  -- `get_witness_script`: OP_RETURN and the commitment to the witnesses
  unfoldable pub get_witness_script : ℕ → ℕ → Result (List ℕ)
  unfolding uint256_from_str to_bytes encode_op_pushdata
  get_witness_script witness_root witness_nonce = do
    s ← ser_uint256 witness_root +> ser_uint256 witness_nonce
    commitment ← ser_uint256 (uint256_from_str (hash256 s))
    push ← encode_op_pushdata (0xaa ∷ 0x21 ∷ 0xa9 ∷ 0xed ∷ commitment)
    ok (0x6a ∷ push)

  -- `cbtx`, with the identifier that it has at that point
  unfoldable pub coinbase_tx : BlockTemplate → List ℕ → Option (List ℕ) → Result CTransaction
  unfolding coinbase_script lock_time rehash
  coinbase_tx tmpl reward_spk poolid = do
    script_sig ← coinbase_script tmpl.height poolid
    lock ← lock_time tmpl.height
    rehash hash256 (record new_tx {
      n_lock_time = lock;
      vin =
          record {
            prevout = record { hash = 0; n = 0xffffffff };
            script_sig = script_sig;
            n_sequence = 0xfffffffe;
          }
          ∷ [];
      vout = record { n_value = tmpl.coinbasevalue; script_pub_key = reward_spk } ∷ [];
    })

  -- The block of `generate_psbt`: the coinbase commits to the witnesses in its last output.
  unfoldable pub template_block :
      BlockTemplate → List ℕ → Option ℤ → Option (List ℕ) → Option ℤ → Result CBlock
  unfolding coinbase_tx deser_tx calc_witness_merkle_root to_bytes get_witness_script time_of_block
      version_of_block
  template_block tmpl reward_spk blocktime poolid nversion = do
    cbtx ← coinbase_tx tmpl reward_spk poolid
    let txs = map (λ s. (deser_tx s).0) tmpl.transactions
    witroot ← calc_witness_merkle_root hash256 (cbtx ∷ txs)
    witnonce ← ser_uint256 0
    script ← get_witness_script witroot 0
    ok (record {
      header = record set_null {
        n_version = version_of_block tmpl nversion;
        hash_prev_block = tmpl.previousblockhash;
        n_time = time_of_block tmpl blocktime;
        n_bits = tmpl.bits;
      };
      vtx =
          record cbtx {
            wit = record { stack = witnonce ∷ [] } ∷ [];
            vout = cbtx.vout ++ record { n_value = pos 0; script_pub_key = script } ∷ [];
          }
          ∷ txs;
    })

  -- What is signed: the block, and the transactions of its signature
  unfoldable pub block_to_sign :
      BlockTemplate
      → List ℕ
      → Option ℤ
      → Option (List ℕ)
      → Option ℤ
      → Result (CBlock × CTransaction × CTransaction)
  unfolding template_block signet_txs
  block_to_sign tmpl reward_spk blocktime poolid nversion = do
    block ← template_block tmpl reward_spk blocktime poolid nversion
    signet_txs block tmpl.signet_challenge

  -- `block.vtx[0].rehash()`
  unfoldable pub rehash_first : List CTransaction → Result (List CTransaction)
  unfolding rehash
  rehash_first [] = err index_error
  rehash_first (tx ∷ vtx) = do tx' ← rehash hash256 tx; ok (tx' ∷ vtx)

  -- Without a command the miner searches the nonce itself; the command gives a whole header, of which
  -- the nonce is taken.
  unfoldable pub grind_header :
      Option (List ℕ → Result (List ℕ)) → CBlockHeader → Result CBlockHeader
  unfolding solve ser_header deser_header rehash_header
  grind_header none h = solve hash256 h
  grind_header (some grind) h = do
    head ← ser_header h
    newhead ← grind head
    rehash_header hash256 (record h { n_nonce = ((deser_header newhead).0).n_nonce })

  unfoldable pub finish_block : CBlock → List ℕ → Option (List ℕ → Result (List ℕ)) → Result CBlock
  unfolding extend_coinbase encode_op_pushdata rehash_first calc_merkle_root grind_header
  finish_block block signet_solution grind_cmd = do
    extended ← extend_coinbase (encode_op_pushdata (signet_header ++ signet_solution)) block.vtx
    hashed ← rehash_first extended
    (vtx, root) ← calc_merkle_root hash256 hashed
    h ← grind_header grind_cmd (record block.header { hash_merkle_root = root })
    ok (record { header = h; vtx = vtx })
