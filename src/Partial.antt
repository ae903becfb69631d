-- ===== src/Partial.antt =====
-- The classes `CPartialMerkleTree` and `CMerkleBlock` of
-- `miner_imports/test_framework/messages.py`.
pub mod Bits
pub mod RoundTrip
pub mod Tests
use mutiny_net.Prelude.{
  ℕ, zero, suc, ◌+◌, ◌*◌, ◌/◌, ◌%◌, ◌^◌, ◌==◌, List, [], ◌∷◌, Bool, true, false, not, bit_or,
  length, get_or, set, replicate, if◌then◌else◌,
}
use mutiny_net.Prelude.Result.{Result}
use mutiny_net.Bytes.{Reader, ◌>>=◌, give, read_int, to_bytes}
use mutiny_net.Bytes.Reads.{◌+>◌}
use mutiny_net.Messages.{CBlockHeader}
use mutiny_net.Messages.Write.{ser_string, ser_header}
use mutiny_net.Messages.Read.{deser_string, deser_header}
use mutiny_net.Messages.Vectors.{ser_uint256_vector, deser_uint256_vector}
use Prim.Native.Nat.{bit_and}

pub record CPartialMerkleTree : Type 0 where
  pub n_transactions : ℕ
  pub v_hash : List ℕ
  pub v_bits : List Bool

pub record CMerkleBlock : Type 0 where
  pub header : CBlockHeader
  pub txn : CPartialMerkleTree

-- `vBytesArray[i // 8] |= self.vBits[i] << (i % 8)`
unfoldable pub write_bit : List ℕ → ℕ → Bool → List ℕ
write_bit bytes i b =
    set bytes (i / 8) (bit_or (get_or bytes (i / 8) 0) ((if b then 1 else 0) * 2 ^ (i % 8)))

-- The loop over the bits, from position `i`
unfoldable pub write_bits : List ℕ → ℕ → List Bool → List ℕ
unfolding write_bit
write_bits bytes i [] = bytes
write_bits bytes i (b ∷ bits) = write_bits (write_bit bytes i b) (suc i) bits

unfoldable pub bytes_of_bits : List Bool → List ℕ
unfolding write_bits
bytes_of_bits bits = write_bits (replicate ((length bits + 7) / 8) 0) 0 bits

-- `vBytes[i//8] & (1 << (i % 8)) != 0`
unfoldable pub read_bit : List ℕ → ℕ → Bool
read_bit bytes i = not (bit_and (get_or bytes (i / 8) 0) (2 ^ (i % 8)) == 0)

-- `n` bits, from position `i`
unfoldable pub read_bits : List ℕ → ℕ → ℕ → List Bool
unfolding read_bit
read_bits bytes i zero = []
read_bits bytes i (suc n) = read_bit bytes i ∷ read_bits bytes (suc i) n

unfoldable pub ser_partial_merkle_tree : CPartialMerkleTree → Result (List ℕ)
unfolding to_bytes ser_uint256_vector ser_string bytes_of_bits
ser_partial_merkle_tree t =
    to_bytes 4 t.n_transactions
    +> ser_uint256_vector t.v_hash
    +> ser_string (bytes_of_bits t.v_bits)

unfoldable pub deser_partial_merkle_tree : Reader CPartialMerkleTree
unfolding read_int deser_uint256_vector deser_string read_bits
deser_partial_merkle_tree = do
  n_transactions ← read_int 4
  v_hash ← deser_uint256_vector
  v_bytes ← deser_string
  give (record {
    n_transactions = n_transactions;
    v_hash = v_hash;
    v_bits = read_bits v_bytes 0 (length v_bytes * 8);
  })

unfoldable pub ser_merkle_block : CMerkleBlock → Result (List ℕ)
unfolding ser_header ser_partial_merkle_tree
ser_merkle_block b = ser_header b.header +> ser_partial_merkle_tree b.txn

unfoldable pub deser_merkle_block : Reader CMerkleBlock
unfolding deser_header deser_partial_merkle_tree
deser_merkle_block =
    deser_header >>= λ h. deser_partial_merkle_tree >>= λ t. give (record { header = h; txn = t })
