-- ===== src/Sighash.antt =====
-- The messages that are signed for an input of a transaction: `FindAndDelete`, `LegacySignatureMsg`,
-- `LegacySignatureHash` and `SegwitV0SignatureMsg` of `miner_imports/test_framework/script.py`.
pub mod Legacy
pub mod Deletion
pub mod Tests
use mutiny_net.Prelude.{
  ℕ, zero, suc, ◌+◌, ◌-◌, ◌%◌, List, [], ◌∷◌, ◌++◌, map, Option, none, some, Bool, true, false,
  ◌&&◌, not, ltb, leb, ◌==◌, if◌then◌else◌, length, take, drop, replicate, get_elem?, set,
}
use mutiny_net.Prelude.Int.{ℤ, pos, negsuc}
use mutiny_net.Prelude.Result.{Result, ok, err, index_error, script_invalid_error, ◌>>=◌}
use mutiny_net.Prelude.Texts.{eq_text}
use mutiny_net.Bytes.{to_bytes, to_bytes_signed}
use mutiny_net.Bytes.Reads.{◌+>◌}
use mutiny_net.Messages.{CTxIn, CTxOut, CTransaction}
use mutiny_net.Messages.Write.{
  ser_string, ser_uint256, ser_entries, ser_outpoint, ser_tx_out, serialize_without_witness,
}
use mutiny_net.Block.{uint256_from_str}
use mutiny_net.Script.Iter.{ScriptError, RawOp, raw_iter}
use Prim.Native.Nat.{bit_and}

abbrev pub sighash_none : ℕ
sighash_none = 2

abbrev pub sighash_single : ℕ
sighash_single = 3

-- `hashtype & SIGHASH_ANYONECANPAY`
unfoldable pub anyone_can_pay : ℕ → Bool
anyone_can_pay hashtype = not (bit_and hashtype 0x80 == 0)

-- `vin[inIdx]`
unfoldable pub present : Option CTxIn → Result CTxIn
present none = err index_error
present (some x) = ok x

unfoldable pub input_at : List CTxIn → ℕ → Result CTxIn
unfolding present
input_at vin i = present (get_elem? vin i)

-- `script[sop_idx:sop_idx + len(sig)] == sig`
unfoldable pub stands_at : List ℕ → List ℕ → ℕ → Bool
unfolding eq_text
stands_at script sig i = eq_text (take (length sig) (drop i script)) sig

-- The loop of `FindAndDelete`, with `r`, `last_sop_idx` and `skip`
unfoldable pub delete_loop : List ℕ → List ℕ → List RawOp → List ℕ → ℕ → Bool → List ℕ
unfolding stands_at
delete_loop script sig [] r last skip = if skip then r else r ++ drop last script
delete_loop script sig (o ∷ ops) r last skip =
    delete_loop script sig ops (if skip then r else r ++ take (o.sop_idx - last) (drop last script))
      o.sop_idx (stands_at script sig o.sop_idx)

-- An error of the iterator is raised.
unfoldable pub delete_all : List ℕ → List ℕ → List RawOp → Option ScriptError → Result (List ℕ)
unfolding delete_loop
delete_all script sig ops (some e) = err script_invalid_error
delete_all script sig ops none = ok (delete_loop script sig ops [] 0 true)

unfoldable pub find_and_delete : List ℕ → List ℕ → Result (List ℕ)
unfolding raw_iter delete_all
find_and_delete script sig = delete_all script sig (raw_iter script).0 (raw_iter script).1

-- `txin.scriptSig = b''` for every input but `inIdx`, which gets the script
unfoldable pub with_script : List CTxIn → ℕ → List ℕ → List CTxIn
with_script [] i s = []
with_script (x ∷ vin) zero s =
    record x { script_sig = s } ∷ map (λ (y : CTxIn). record y { script_sig = [] }) vin
with_script (x ∷ vin) (suc i) s = record x { script_sig = [] } ∷ with_script vin i s

-- `nSequence = 0` for every input but `inIdx`
unfoldable pub others_final : List CTxIn → ℕ → List CTxIn
others_final [] i = []
others_final (x ∷ vin) zero = x ∷ map (λ (y : CTxIn). record y { n_sequence = 0 }) vin
others_final (x ∷ vin) (suc i) = record x { n_sequence = 0 } ∷ others_final vin i

-- `(None, err)` for a missing input or output, or the message
pub data SignatureMsg : Type 0 where
  no_input no_output : SignatureMsg
  msg : List ℕ → SignatureMsg

-- `CTxOut(-1)`
abbrev pub null_output : CTxOut
null_output = record { n_value = negsuc 0; script_pub_key = [] }

-- The outputs and the sequence numbers that are signed
unfoldable pub chosen_outputs : CTransaction → ℕ → ℕ → Option CTransaction
unfolding others_final
chosen_outputs tx i hashtype =
    if hashtype % 32 == sighash_none
    then some (record tx { vout = []; vin = others_final tx.vin i })
    else if hashtype % 32 == sighash_single
    then elim (get_elem? tx.vout i) [
      | none ↦ none
      | some o ↦
          some (record tx { vout = replicate i null_output ++ o ∷ []; vin = others_final tx.vin i })
    ]
    else some tx

-- `ANYONECANPAY` leaves the input alone.
unfoldable pub chosen_inputs : CTransaction → ℕ → ℕ → Result CTransaction
unfolding anyone_can_pay input_at
chosen_inputs tx i hashtype =
    if anyone_can_pay hashtype
    then (do x ← input_at tx.vin i; ok (record tx { vin = x ∷ [] }))
    else ok tx

unfoldable pub signed_bytes : Option CTransaction → ℕ → ℕ → Result SignatureMsg
unfolding chosen_inputs serialize_without_witness to_bytes
signed_bytes none i hashtype = ok no_output
signed_bytes (some tx) i hashtype = do
  tx' ← chosen_inputs tx i hashtype
  s ← serialize_without_witness tx' +> to_bytes 4 hashtype
  ok (msg s)

unfoldable pub legacy_signature_msg : List ℕ → CTransaction → ℕ → ℕ → Result SignatureMsg
unfolding find_and_delete with_script chosen_outputs signed_bytes
legacy_signature_msg script tx i hashtype = if leb (length tx.vin) i then ok no_input else (do
  s ← find_and_delete script (0xab ∷ [])
  signed_bytes (chosen_outputs (record tx { vin = with_script tx.vin i s }) i hashtype) i hashtype)

-- `HASH_ONE`
abbrev pub hash_one : List ℕ
hash_one = 1 ∷ replicate 31 0

unfoldable pub hash_of_msg : (List ℕ → List ℕ) → SignatureMsg → List ℕ
hash_of_msg hash256 no_input = hash_one
hash_of_msg hash256 no_output = hash_one
hash_of_msg hash256 (msg s) = hash256 s

module _ (hash256 : List ℕ → List ℕ) where
  -- The hash of `LegacySignatureHash`
  unfoldable pub legacy_signature_hash : List ℕ → CTransaction → ℕ → ℕ → Result (List ℕ)
  unfolding legacy_signature_msg hash_of_msg
  legacy_signature_hash script tx i hashtype = do
    m ← legacy_signature_msg script tx i hashtype
    ok (hash_of_msg hash256 m)

  -- `uint256_from_str(hash256(_))` of what was written
  unfoldable pub hash_of : Result (List ℕ) → Result ℕ
  unfolding uint256_from_str
  hash_of written = do s ← written; ok (uint256_from_str (hash256 s))

  unfoldable pub hash_prevouts : CTransaction → ℕ → Result ℕ
  unfolding anyone_can_pay hash_of ser_entries ser_outpoint
  hash_prevouts tx hashtype =
      if anyone_can_pay hashtype
      then ok 0
      else hash_of (ser_entries (λ x. ser_outpoint x.prevout) tx.vin)

  unfoldable pub hash_sequence : CTransaction → ℕ → Result ℕ
  unfolding anyone_can_pay hash_of ser_entries to_bytes
  hash_sequence tx hashtype =
      if not (anyone_can_pay hashtype)
        && (not (hashtype % 32 == sighash_single) && not (hashtype % 32 == sighash_none))
      then hash_of (ser_entries (λ x. to_bytes 4 x.n_sequence) tx.vin)
      else ok 0

  unfoldable pub hash_outputs : CTransaction → ℕ → ℕ → Result ℕ
  unfolding hash_of ser_entries ser_tx_out
  hash_outputs tx i hashtype =
      if not (hashtype % 32 == sighash_single) && not (hashtype % 32 == sighash_none)
      then hash_of (ser_entries ser_tx_out tx.vout)
      else if hashtype % 32 == sighash_single
      then elim (get_elem? tx.vout i) [ none ↦ ok 0 | some o ↦ hash_of (ser_tx_out o) ]
      else ok 0

  unfoldable pub segwit_v0_signature_msg : List ℕ → CTransaction → ℕ → ℕ → ℤ → Result (List ℕ)
  unfolding hash_prevouts hash_sequence hash_outputs input_at to_bytes to_bytes_signed ser_outpoint
      ser_string
  segwit_v0_signature_msg script tx i hashtype amount = do
    prevouts ← hash_prevouts tx hashtype
    sequence ← hash_sequence tx hashtype
    outputs ← hash_outputs tx i hashtype
    head ← to_bytes 4 tx.version +> ser_uint256 prevouts +> ser_uint256 sequence
    x ← input_at tx.vin i
    tail ←
        ser_outpoint x.prevout
        +> ser_string script
        +> to_bytes_signed 8 amount
        +> to_bytes 4 x.n_sequence
        +> ser_uint256 outputs
        +> to_bytes 4 tx.n_lock_time
        +> to_bytes 4 hashtype
    ok (head ++ tail)
