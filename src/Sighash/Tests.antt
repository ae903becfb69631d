-- ===== src/Sighash/Tests.antt =====
-- Signature messages of a transaction with two inputs and one output.
use mutiny_net.Prelude.{ℕ, ◌≡◌, refl, arith, List, [], ◌∷◌, replicate}
use mutiny_net.Prelude.Int.{pos}
use mutiny_net.Prelude.Result.{ok}
use mutiny_net.Messages.{CTransaction, CTxIn}
use mutiny_net.Messages.Tests.{coin}
use mutiny_net.Script.Iter.{raw_iter}
use mutiny_net.Sighash.{
  hash_one, anyone_can_pay, stands_at, find_and_delete, legacy_signature_hash,
  segwit_v0_signature_msg,
}
use mutiny_net.Sighash.Legacy.{segwit_v0_signature_msg-open, legacy_signature_hash-single}
use mutiny_net.Sighash.Deletion.{find_and_delete-Absent}

abbrev zeros : List ℕ → List ℕ
zeros s = replicate 32 0

abbrev other_input : CTxIn
other_input = record { prevout = record { hash = 9; n = 1 }; script_sig = []; n_sequence = 0 }

abbrev two_inputs : CTransaction
two_inputs = record coin { vin = other_input ∷ coin.vin }

abbrev elsewhere : CTransaction
elsewhere = record two_inputs { vout = [] }

segwit_v0_signature_msg-open_example :
    segwit_v0_signature_msg zeros (0x51 ∷ []) coin 0 0x82 (pos 50)
    ≡ segwit_v0_signature_msg zeros (0x51 ∷ []) elsewhere 1 0x82 (pos 50)
unfolding anyone_can_pay
segwit_v0_signature_msg-open_example =
    segwit_v0_signature_msg-open zeros (0x51 ∷ []) coin elsewhere 0 1 0x82 (pos 50) refl refl refl
      refl refl

-- The separator is an operation, and is deleted.
separator_is_deleted : find_and_delete (0x51 ∷ 0xab ∷ []) (0xab ∷ []) ≡ ok (0x51 ∷ [])
unfolding find_and_delete
separator_is_deleted = refl

legacy_signature_hash-single_example :
    legacy_signature_hash zeros (0x51 ∷ 0xab ∷ []) two_inputs 1 3 ≡ ok hash_one
legacy_signature_hash-single_example =
    legacy_signature_hash-single zeros (0x51 ∷ 0xab ∷ []) (0x51 ∷ []) two_inputs 1 3
      separator_is_deleted refl (omega arith)

-- The bytes of the separator within pushed bytes are left.
find_and_delete-Absent_example :
    find_and_delete (2 ∷ 0xab ∷ 0xab ∷ 0x51 ∷ []) (0xab ∷ []) ≡ ok (2 ∷ 0xab ∷ 0xab ∷ 0x51 ∷ [])
unfolding raw_iter stands_at
find_and_delete-Absent_example =
    find_and_delete-Absent (2 ∷ 0xab ∷ 0xab ∷ 0x51 ∷ []) (0xab ∷ []) refl (refl, (refl, tt))
