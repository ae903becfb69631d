-- ===== src/Sighash/Legacy.antt =====
-- What a signature hash depends on.
use mutiny_net.Prelude.{
  ℕ, zero, suc, ◌%◌, ◌≤◌, ◌≡◌, refl, ap, arith, List, [], ◌∷◌, none, true, leb, length, get_elem?,
  Bool-cases, inl, inr,
}
use mutiny_net.Prelude.Int.{ℤ}
use mutiny_net.Prelude.Result.{ok}
use mutiny_net.Messages.{CTxIn, CTransaction}
use mutiny_net.Sighash.{
  sighash_none, sighash_single, anyone_can_pay, present, input_at, find_and_delete, chosen_outputs,
  signed_bytes, legacy_signature_msg, hash_one, hash_of_msg, legacy_signature_hash, hash_prevouts,
  hash_sequence, hash_outputs, segwit_v0_signature_msg,
}

module _ (hash256 : List ℕ → List ℕ) where
  -- Nothing but the input that is signed counts.
  hash_prevouts-open :
      (tx : CTransaction) (hashtype : ℕ)
      → anyone_can_pay hashtype ≡ true
      → hash_prevouts hash256 tx hashtype ≡ ok 0
  unfolding hash_prevouts
  hash_prevouts-open tx hashtype e = rw e refl

  hash_sequence-open :
      (tx : CTransaction) (hashtype : ℕ)
      → anyone_can_pay hashtype ≡ true
      → hash_sequence hash256 tx hashtype ≡ ok 0
  unfolding hash_sequence
  hash_sequence-open tx hashtype e = rw e refl

  hash_outputs-none :
      (tx : CTransaction) (i hashtype : ℕ)
      → hashtype % 32 ≡ sighash_none
      → hash_outputs hash256 tx i hashtype ≡ ok 0
  unfolding hash_outputs
  hash_outputs-none tx i hashtype e = rw e refl

input_at-same :
    (vin vin' : List CTxIn) (i j : ℕ)
    → get_elem? vin i ≡ get_elem? vin' j
    → input_at vin i ≡ input_at vin' j
unfolding input_at
input_at-same vin vin' i j e = ap present e

-- A signature of version 0 for anyone to pay, with no output signed, stays good in every other
-- transaction of the same version and lock time that has the signed input, at whatever place: the
-- signed message is the same, whatever the other inputs and the outputs are.
pub segwit_v0_signature_msg-open :
    (hash256 : List ℕ → List ℕ) (script : List ℕ) (tx tx' : CTransaction) (i j hashtype : ℕ)
    (amount : ℤ)
    → anyone_can_pay hashtype ≡ true
    → hashtype % 32 ≡ sighash_none
    → tx.version ≡ tx'.version
    → tx.n_lock_time ≡ tx'.n_lock_time
    → get_elem? tx.vin i ≡ get_elem? tx'.vin j
    → segwit_v0_signature_msg hash256 script tx i hashtype amount
      ≡ segwit_v0_signature_msg hash256 script tx' j hashtype amount
unfolding segwit_v0_signature_msg
segwit_v0_signature_msg-open hash256 script tx tx' i j hashtype amount open_to_all no_outputs v l
      x =
    rw
      (
        hash_prevouts-open hash256 tx hashtype open_to_all,
        hash_prevouts-open hash256 tx' hashtype open_to_all,
        hash_sequence-open hash256 tx hashtype open_to_all,
        hash_sequence-open hash256 tx' hashtype open_to_all,
        hash_outputs-none hash256 tx i hashtype no_outputs,
        hash_outputs-none hash256 tx' j hashtype no_outputs,
        v,
        l,
        input_at-same tx.vin tx'.vin i j x,
      )
      refl

-- The signature hash is the number one if no output stands at the place of an input that is signed
-- with SIGHASH_SINGLE, whatever the transaction pays, if the iterator goes through the script.
pub legacy_signature_hash-single :
    (hash256 : List ℕ → List ℕ) (script s : List ℕ) (tx : CTransaction) (i hashtype : ℕ)
    → find_and_delete script (0xab ∷ []) ≡ ok s
    → hashtype % 32 ≡ sighash_single
    → length tx.vout ≤ i
    → legacy_signature_hash hash256 script tx i hashtype ≡ ok hash_one
unfolding legacy_signature_hash legacy_signature_msg chosen_outputs signed_bytes hash_of_msg
legacy_signature_hash-single hash256 script s tx i hashtype e h l =
    elim (Bool-cases (leb (length tx.vin) i)) [
      | inl out ↦ rw out refl
      | inr inside ↦ rw (inside, e, h, beyond tx.vout i l) refl
    ]
  where
    beyond : {A : Type 0} (xs : List A) (k : ℕ) → length xs ≤ k → get_elem? xs k ≡ none
    beyond [] k g = refl
    beyond (x ∷ xs) zero g = absurd (omega arith)
    beyond (x ∷ xs) (suc k) g = beyond xs k (omega arith)
