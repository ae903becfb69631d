-- ===== src/Partial/RoundTrip.antt =====
-- A partial Merkle tree and a block with it are read back as they were written.
use mutiny_net.Prelude.{subst, none, false, List, ◌++◌, length, replicate}
use mutiny_net.Bytes.Reads.{Reads, Reads-append, Reads-map, Reads-int}
use mutiny_net.Messages.Parts.{Reads-string, Reads-header}
use mutiny_net.Messages.Vectors.{Reads-uint256_vector}
use mutiny_net.Partial.{
  CPartialMerkleTree, CMerkleBlock, bytes_of_bits, ser_partial_merkle_tree,
  deser_partial_merkle_tree, ser_merkle_block, deser_merkle_block,
}
use mutiny_net.Partial.Bits.{filling, read_bits-bytes_of_bits}

-- What is read: the bits are filled up to whole bytes.
unfoldable pub filled : CPartialMerkleTree → CPartialMerkleTree
unfolding filling
filled t = record t { v_bits = t.v_bits ++ replicate (filling (length t.v_bits)) false }

Reads-partial_merkle_tree :
    (t : CPartialMerkleTree)
    → Reads (ser_partial_merkle_tree t) deser_partial_merkle_tree (filled t)
unfolding ser_partial_merkle_tree deser_partial_merkle_tree filled
Reads-partial_merkle_tree t =
    subst
      (λ (bits : List _).
        Reads (ser_partial_merkle_tree t) deser_partial_merkle_tree (record t { v_bits = bits }))
      (read_bits-bytes_of_bits t.v_bits)
      (Reads-append _ (Reads-int 4 t.n_transactions) (
        Reads-append _ (Reads-uint256_vector t.v_hash)
          (Reads-map _ (Reads-string (bytes_of_bits t.v_bits)))))

-- What is left of a block with a partial tree
abbrev pub received_merkle_block : CMerkleBlock → CMerkleBlock
received_merkle_block b = record b {
  header = record b.header { block_sha256 = none };
  txn = filled b.txn;
}

pub Reads-merkle_block :
    (b : CMerkleBlock) → Reads (ser_merkle_block b) deser_merkle_block (received_merkle_block b)
unfolding ser_merkle_block deser_merkle_block
Reads-merkle_block b =
    Reads-append _ (Reads-header b.header) (Reads-map _ (Reads-partial_merkle_tree b.txn))
