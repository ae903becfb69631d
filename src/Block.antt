-- ===== src/Block.antt =====
-- The hashes of transactions and blocks in `messages.py`: cached transaction identifiers, Merkle
-- roots, and the search for a nonce. The hash `hash256` is a parameter.
pub mod Merkle
pub mod Solve
pub mod Tests
use mutiny_net.Prelude.{
  ℕ, zero, suc, ◌+◌, ◌-◌, ◌*◌, ◌/◌, ◌%◌, ◌^◌, ltb, drop, Option, none, some, List, [], ◌∷◌, ◌++◌,
  leb, length, take, map, if◌then◌else◌, true, false,
}
use mutiny_net.Prelude.Result.{Result, ok, err, index_error, overflow_error, value_error, ◌>>=◌}
use mutiny_net.Bytes.{to_bytes, le_value}
use mutiny_net.NBits.{Ratio, nbits_to_target}
use mutiny_net.Messages.{CTransaction, CBlockHeader, CBlock}
use mutiny_net.Messages.Write.{
  ser_uint256, serialize_without_witness, serialize_with_witness, ser_header,
}

unfoldable pub uint256_from_str : List ℕ → ℕ
unfolding le_value
uint256_from_str s = le_value (take 32 s)

-- More than the nonces of four bytes.
unfoldable pub nonces : ℕ
nonces = 2 ^ 32 + 1

-- `hashes[0]`
first_hash : List (List ℕ) → Result (List ℕ)
first_hash [] = err index_error
first_hash (h ∷ hashes) = ok h

-- The identifiers `id` of transactions, written.
unfoldable pub leaves : (CTransaction → Result ℕ) → List CTransaction → Result (List (List ℕ))
unfolding to_bytes
leaves id [] = ok []
leaves id (tx ∷ vtx) = do h ← id tx; s ← ser_uint256 h; rest ← leaves id vtx; ok (s ∷ rest)

-- A method on every transaction of a list
unfoldable pub on_each :
    (CTransaction → Result CTransaction) → List CTransaction → Result (List CTransaction)
on_each f [] = ok []
on_each f (tx ∷ vtx) = do tx' ← f tx; rest ← on_each f vtx; ok (tx' ∷ rest)

-- A shift by a negative number of bits raises.
unfoldable pub uint256_from_compact : ℕ → Result ℕ
uint256_from_compact c =
    let nbytes = c / 2 ^ 24 % 256 in
    if ltb nbytes 3 then err value_error else ok (c % 2 ^ 24 * 2 ^ (8 * (nbytes - 3)))

module _ (hash256 : List ℕ → List ℕ) where
  -- The identifier, without the witness.
  unfoldable pub txid : CTransaction → Result ℕ
  unfolding uint256_from_str serialize_without_witness
  txid tx = do s ← serialize_without_witness tx; ok (uint256_from_str (hash256 s))

  -- The identifier with the witness: `calc_sha256(True)`
  unfoldable pub wtxid : CTransaction → Result ℕ
  unfolding uint256_from_str serialize_with_witness
  wtxid tx = do s ← serialize_with_witness tx; ok (uint256_from_str (hash256 s))

  -- A cached identifier is kept.
  unfoldable pub known_sha256 : CTransaction → Result ℕ
  unfolding txid
  known_sha256 tx = elim tx.sha256 [ some h ↦ ok h | none ↦ txid tx ]

  -- `CTransaction.calc_sha256` and `rehash`
  unfoldable pub calc_sha256 : CTransaction → Result CTransaction
  unfolding known_sha256
  calc_sha256 tx = do h ← known_sha256 tx; ok (record tx { sha256 = some h })

  unfoldable pub rehash : CTransaction → Result CTransaction
  unfolding calc_sha256
  rehash tx = calc_sha256 (record tx { sha256 = none })

  -- `newhashes`: the last one is its own pair if it has no other.
  unfoldable pub pair_hashes : List (List ℕ) → List (List ℕ)
  pair_hashes [] = []
  pair_hashes (a ∷ []) = hash256 (a ++ a) ∷ []
  pair_hashes (a ∷ b ∷ hashes) = hash256 (a ++ b) ∷ pair_hashes hashes

  -- `while len(hashes) > 1`: each round leaves fewer hashes, so as many rounds as hashes are enough.
  unfoldable pub merkle_loop : ℕ → List (List ℕ) → List (List ℕ)
  unfolding pair_hashes
  merkle_loop zero hashes = hashes
  merkle_loop (suc fuel) [] = []
  merkle_loop (suc fuel) (a ∷ []) = a ∷ []
  merkle_loop (suc fuel) (a ∷ b ∷ hashes) = merkle_loop fuel (pair_hashes (a ∷ b ∷ hashes))

  unfoldable pub get_merkle_root : List (List ℕ) → Result ℕ
  unfolding merkle_loop first_hash uint256_from_str
  get_merkle_root hashes = do
    h ← first_hash (merkle_loop (length hashes) hashes)
    ok (uint256_from_str h)

  -- `calc_merkle_root`: the transactions keep the identifiers that it computes.
  unfoldable pub calc_merkle_root : List CTransaction → Result (List CTransaction × ℕ)
  unfolding on_each calc_sha256 leaves known_sha256 get_merkle_root
  calc_merkle_root vtx = do
    vtx' ← on_each calc_sha256 vtx
    hashes ← leaves known_sha256 vtx'
    root ← get_merkle_root hashes
    ok (vtx', root)

  -- The coinbase counts as zero.
  unfoldable pub calc_witness_merkle_root : List CTransaction → Result ℕ
  unfolding to_bytes leaves wtxid get_merkle_root
  calc_witness_merkle_root vtx = do
    zero_hash ← ser_uint256 0
    hashes ← leaves wtxid (drop 1 vtx)
    get_merkle_root (zero_hash ∷ hashes)

  unfoldable pub header_hash : CBlockHeader → Result ℕ
  unfolding ser_header uint256_from_str
  header_hash h = do s ← ser_header h; ok (uint256_from_str (hash256 s))

  -- `CBlockHeader.rehash`
  unfoldable pub rehash_header : CBlockHeader → Result CBlockHeader
  unfolding header_hash
  rehash_header h = do v ← header_hash h; ok (record h { block_sha256 = some v })

  -- `while self.sha256 > target: self.nNonce += 1; self.rehash()`. A nonce above four bytes cannot be
  -- written, so the search ends there at the latest.
  unfoldable pub solve_from : ℕ → ℕ → CBlockHeader → Result CBlockHeader
  unfolding header_hash
  solve_from zero target h = err overflow_error
  solve_from (suc fuel) target h = do
    v ← header_hash h
    elim (leb v target) [
      | true ↦ ok (record h { block_sha256 = some v })
      | false ↦ solve_from fuel target (record h { n_nonce = suc h.n_nonce })
    ]

  -- `CBlock.solve`
  unfoldable pub solve : CBlockHeader → Result CBlockHeader
  unfolding header_hash uint256_from_compact solve_from
  solve h = do _ ← header_hash h; target ← uint256_from_compact h.n_bits; solve_from nonces target h
