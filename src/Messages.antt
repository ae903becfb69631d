-- ===== src/Messages.antt =====
-- The transaction and block formats of `miner_imports/test_framework/messages.py` that `miner` writes
-- and reads, under the names of their classes. A hash of 256 bits is a number. The cached texts
-- `hash` of a transaction and of a header are the cached numbers `sha256` in hexadecimal, and are not
-- kept apart.
pub mod Write
pub mod Read
pub mod Parts
pub mod RoundTrip
pub mod Vectors
pub mod Tests
use mutiny_net.Prelude.{ℕ, Option, none, some, List, [], ◌∷◌, Bool, true, false, ◌&&◌}
use mutiny_net.Prelude.Int.{ℤ, pos}

pub record COutPoint : Type 0 where
  pub hash : ℕ
  pub n : ℕ

pub record CTxIn : Type 0 where
  pub prevout : COutPoint
  pub script_sig : List ℕ
  pub n_sequence : ℕ

pub record CTxOut : Type 0 where
  pub n_value : ℤ
  pub script_pub_key : List ℕ

-- `CTxInWitness` holds a `CScriptWitness`, which holds `stack` alone.
pub record CTxInWitness : Type 0 where
  pub stack : List (List ℕ)

-- `wit` is the list `vtxinwit` of the transaction's `CTxWitness`.
pub record CTransaction : Type 0 where
  pub version : ℕ
  pub vin : List CTxIn
  pub vout : List CTxOut
  pub wit : List CTxInWitness
  pub n_lock_time : ℕ
  pub sha256 : Option ℕ

-- `CTransaction()`
abbrev pub new_tx : CTransaction
new_tx = record { version = 2; vin = []; vout = []; wit = []; n_lock_time = 0; sha256 = none }

pub record CBlockHeader : Type 0 where
  pub n_version : ℤ
  pub hash_prev_block : ℕ
  pub hash_merkle_root : ℕ
  pub n_time : ℕ
  pub n_bits : ℕ
  pub n_nonce : ℕ
  pub block_sha256 : Option ℕ

-- `CBlockHeader()`, as `set_null` makes it
abbrev pub set_null : CBlockHeader
set_null = record {
  n_version = pos 4;
  hash_prev_block = 0;
  hash_merkle_root = 0;
  n_time = 0;
  n_bits = 0;
  n_nonce = 0;
  block_sha256 = none;
}

-- A block is a header with the attribute `vtx`.
pub record CBlock : Type 0 where
  pub header : CBlockHeader
  pub vtx : List CTransaction

-- `CTxInWitness.is_null`
unfoldable pub stack_is_null : CTxInWitness → Bool
stack_is_null w = elim w.stack [ [] ↦ true | item ∷ items ↦ false ]

-- `CTxWitness.is_null`
unfoldable pub wit_is_null : List CTxInWitness → Bool
unfolding stack_is_null
wit_is_null [] = true
wit_is_null (w ∷ ws) = stack_is_null w && wit_is_null ws
