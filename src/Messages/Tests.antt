-- ===== src/Messages/Tests.antt =====
-- A coinbase transaction with a witness, and a block with it.
use mutiny_net.Prelude.{ℕ, ◌≡◌, refl, arith, none, some, List, [], ◌∷◌, ◌++◌, replicate}
use mutiny_net.Prelude.Int.{pos}
use mutiny_net.Prelude.Result.{ok}
use mutiny_net.Messages.{CTransaction, CBlock, set_null}
use mutiny_net.Messages.Write.{serialize_with_witness, ser_block}
use mutiny_net.Messages.Read.{deser_block}
use mutiny_net.Messages.RoundTrip.{as_read, deser_block-ser_block}

abbrev pub coin : CTransaction
coin = record {
  version = 2;
  vin =
      record {
        prevout = record { hash = 0; n = 0xffffffff };
        script_sig = 0x51 ∷ [];
        n_sequence = 0xfffffffe;
      }
      ∷ [];
  vout = record { n_value = pos 50; script_pub_key = 0x6a ∷ [] } ∷ [];
  wit = record { stack = (7 ∷ []) ∷ [] } ∷ [];
  n_lock_time = 258;
  sha256 = some 5;
}

abbrev pub coin_bytes : List ℕ
coin_bytes =
    2 ∷ 0 ∷ 0 ∷ 0 ∷ 0 ∷ 1 ∷ 1 ∷ replicate 32 0
    ++ 255 ∷ 255 ∷ 255 ∷ 255 ∷ 1 ∷ 0x51 ∷ 254 ∷ 255 ∷ 255 ∷ 255 ∷ 1 ∷ 50 ∷ replicate 7 0
    ++ 1 ∷ 0x6a ∷ 1 ∷ 1 ∷ 7 ∷ 2 ∷ 1 ∷ 0 ∷ 0 ∷ []

pub coin_is_written : serialize_with_witness coin ≡ ok coin_bytes
unfolding serialize_with_witness
coin_is_written = refl

abbrev pub block : CBlock
block = record { header = record set_null { n_time = 3 }; vtx = coin ∷ [] }

abbrev pub block_bytes : List ℕ
block_bytes = 4 ∷ replicate 67 0 ++ 3 ∷ replicate 11 0 ++ 1 ∷ coin_bytes

pub block_is_written : ser_block block ≡ ok block_bytes
unfolding ser_block
block_is_written = refl

deser_block-ser_block_example : deser_block (block_bytes ++ []) ≡ (
  record { header = record set_null { n_time = 3 }; vtx = record coin { sha256 = none } ∷ [] },
  [],
)
unfolding as_read
deser_block-ser_block_example =
    deser_block-ser_block block block_bytes [] (omega arith, tt) block_is_written
