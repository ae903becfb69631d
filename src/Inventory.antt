-- ===== src/Inventory.antt =====
-- The classes `CInv` and `CBlockLocator` of `miner_imports/test_framework/messages.py`.
use mutiny_net.Prelude.{ℕ, List}
use mutiny_net.Prelude.Int.{pos}
use mutiny_net.Prelude.Result.{Result}
use mutiny_net.Bytes.{Reader, ◌>>=◌, give, read_int, read_signed, to_bytes, to_bytes_signed}
use mutiny_net.Bytes.Reads.{Reads, ◌+>◌, Reads-append, Reads-map, Reads-int, Reads-signed}
use mutiny_net.Messages.Write.{ser_uint256}
use mutiny_net.Messages.Read.{deser_uint256}
use mutiny_net.Messages.Vectors.{ser_uint256_vector, deser_uint256_vector, Reads-uint256_vector}

pub record CInv : Type 0 where
  pub type : ℕ
  pub hash : ℕ

unfoldable pub ser_inv : CInv → Result (List ℕ)
unfolding to_bytes
ser_inv i = to_bytes 4 i.type +> ser_uint256 i.hash

unfoldable pub deser_inv : Reader CInv
unfolding read_int
deser_inv = read_int 4 >>= λ t. deser_uint256 >>= λ h. give (record { type = t; hash = h })

pub record CBlockLocator : Type 0 where
  pub v_have : List ℕ

-- The version is written as 0, and ignored by the reader.
unfoldable pub ser_locator : CBlockLocator → Result (List ℕ)
unfolding to_bytes_signed ser_uint256_vector
ser_locator l = to_bytes_signed 4 (pos 0) +> ser_uint256_vector l.v_have

unfoldable pub deser_locator : Reader CBlockLocator
unfolding read_signed deser_uint256_vector
deser_locator = read_signed 4 >>= λ version.
    deser_uint256_vector >>= λ hashes. give (record { v_have = hashes })

pub Reads-inv : (i : CInv) → Reads (ser_inv i) deser_inv i
unfolding ser_inv deser_inv
Reads-inv i = Reads-append _ (Reads-int 4 i.type) (Reads-map _ (Reads-int 32 i.hash))

pub Reads-locator : (l : CBlockLocator) → Reads (ser_locator l) deser_locator l
unfolding ser_locator deser_locator
Reads-locator l =
    Reads-append _ (Reads-signed 4 (pos 0)) (Reads-map _ (Reads-uint256_vector l.v_have))
