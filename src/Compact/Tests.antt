-- ===== src/Compact/Tests.antt =====
-- A compact block that is made of a block with two transactions, the second of which is not prefilled.
use mutiny_net.Prelude.{ℕ, ◌≡◌, refl, arith, none, some, false, List, [], ◌∷◌, ◌++◌, replicate}
use mutiny_net.Prelude.Int.{pos, ◌+ℤ◌, ◌-ℤ◌}
use mutiny_net.Prelude.Result.{ok}
use mutiny_net.Messages.{CBlock, set_null}
use mutiny_net.Messages.Tests.{coin}
use mutiny_net.Compact.{
  P2PHeaderAndShortIds, HeaderAndShortIds, BlockTransactionsRequest, to_absolute, to_p2p, of_p2p,
}
use mutiny_net.Compact.Write.{ser_header_and_shortids}
use mutiny_net.Compact.Read.{deser_header_and_shortids}
use mutiny_net.Compact.Make.{initialize_from_block}
use mutiny_net.Compact.Sent.{arrived, deser_header_and_shortids-made}

abbrev zeros : List ℕ → List ℕ
zeros s = replicate 32 0

abbrev block : CBlock
block = record {
  header = record set_null { block_sha256 = some 5 };
  vtx = coin ∷ record coin { sha256 = some 258 } ∷ [];
}

abbrev made : HeaderAndShortIds
made = record {
  header = block.header;
  nonce = 1;
  shortids = 64645699894146 ∷ [];
  prefilled_txn = record { index = pos 0; tx = coin } ∷ [];
  use_witness = false;
}

is_made : initialize_from_block zeros zeros block 1 none false ≡ ok made
unfolding initialize_from_block
is_made = refl

abbrev written : List ℕ
written =
    4 ∷ replicate 79 0
    ++ 1 ∷ replicate 7 0
    ++ 1 ∷ 130 ∷ 123 ∷ 250 ∷ 127 ∷ 203 ∷ 58 ∷ 1 ∷ 0 ∷ 2 ∷ 0 ∷ 0 ∷ 0 ∷ 1 ∷ replicate 32 0
    ++ 255 ∷ 255 ∷ 255 ∷ 255 ∷ 1 ∷ 0x51 ∷ 254 ∷ 255 ∷ 255 ∷ 255 ∷ 1 ∷ 50 ∷ replicate 7 0
    ++ 1 ∷ 0x6a ∷ 2 ∷ 1 ∷ 0 ∷ 0 ∷ []

is_written : ser_header_and_shortids false (to_p2p made) ≡ ok written
unfolding ser_header_and_shortids to_p2p ◌-ℤ◌
is_written = refl

deser_header_and_shortids-made_example :
    (p : P2PHeaderAndShortIds) × (deser_header_and_shortids (written ++ 3 ∷ []) ≡ (p, 3 ∷ []))
    × (of_p2p p ≡ arrived made)
deser_header_and_shortids-made_example =
    deser_header_and_shortids-made zeros zeros block 1 none false made written (3 ∷ [])
      (omega arith, (omega arith, tt)) is_made is_written

abbrev request : BlockTransactionsRequest
request = record { blockhash = 7; indexes = pos 2 ∷ pos 0 ∷ [] }

positions_of_request : to_absolute request ≡ pos 2 ∷ pos 3 ∷ []
unfolding to_absolute ◌+ℤ◌
positions_of_request = refl
