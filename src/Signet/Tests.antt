-- ===== src/Signet/Tests.antt =====
-- A block with a solution, and blocks with the same transactions to sign.
use mutiny_net.Prelude.{ℕ, ◌≡◌, ◌++◌, refl, none, some, List, [], ◌∷◌, replicate}
use mutiny_net.Prelude.Int.{pos}
use mutiny_net.Prelude.Result.{ok}
use mutiny_net.Messages.{CTransaction, CBlock, set_null}
use mutiny_net.Messages.Tests.{coin}
use mutiny_net.Block.{nonces, solve}
use mutiny_net.Block.Solve.{IsFirst, solve-IsFirst}
use mutiny_net.Block.{uint256_from_compact}
use mutiny_net.Signet.{signet_txs, finish_block, to_spend_tx, spend_tx}
use mutiny_net.Signet.Finish.{IsFinished, finish_block-IsFinished}
use mutiny_net.Signet.Commitment.{signet_txs-same}

-- A hash that is always zero
abbrev pub zero_hash : List ℕ → List ℕ
zero_hash s = replicate 32 0

abbrev block : CBlock
block = record { header = record set_null { n_time = 3; n_bits = 0x1e0377ae }; vtx = coin ∷ [] }

abbrev finished : CBlock
finished = record {
  header = record set_null { n_time = 3; n_bits = 0x1e0377ae; block_sha256 = some 0 };
  vtx =
      record coin {
        vout =
            record {
              n_value = pos 50;
              script_pub_key = 0x6a ∷ 5 ∷ 0xec ∷ 0xc7 ∷ 0xda ∷ 0xa2 ∷ 1 ∷ [];
            }
            ∷ [];
        sha256 = some 0;
      }
      ∷ [];
}

finishes : finish_block zero_hash block (1 ∷ []) none ≡ ok finished
unfolding finish_block nonces
finishes = refl

finish_block-IsFinished_example : IsFinished zero_hash block (1 ∷ []) none finished
finish_block-IsFinished_example =
    finish_block-IsFinished zero_hash block finished (1 ∷ []) none tt finishes

solves : solve zero_hash block.header ≡ ok finished.header
unfolding solve nonces
solves = refl

solve-IsFirst_example :
    (target : ℕ) × (uint256_from_compact 0x1e0377ae ≡ ok target)
    × IsFirst zero_hash target block.header finished.header
solve-IsFirst_example = solve-IsFirst zero_hash block.header finished.header solves

-- The block whose coinbase has another witness, with another nonce
abbrev other : CBlock
other = record {
  header = record set_null { n_time = 3; n_nonce = 7 };
  vtx = record coin { wit = []; sha256 = none } ∷ [];
}

-- The push of 72 bytes: version 4, no block before, root 0, time 3
abbrev to_spend : CTransaction
to_spend = record (to_spend_tx (72 ∷ 4 ∷ replicate 67 0 ++ 3 ∷ 0 ∷ 0 ∷ 0 ∷ []) (0x51 ∷ [])) {
  sha256 = some 0;
}

signs : signet_txs zero_hash block (0x51 ∷ []) ≡ ok (block, spend_tx 0, to_spend)
unfolding signet_txs
signs = refl

signet_txs-same_example :
    (b : CBlock) × (signet_txs zero_hash other (0x51 ∷ []) ≡ ok (b, spend_tx 0, to_spend))
signet_txs-same_example =
    signet_txs-same zero_hash block other block (0x51 ∷ []) (spend_tx 0) to_spend refl refl refl
      refl signs
