-- ===== src/Block/Tests.antt =====
-- A search that fails, with a hash that is always the greatest number.
use mutiny_net.Prelude.{ℕ, ◌^◌, ◌-◌, ◌≡◌, refl, List, replicate, ltb, lt→ltb, true}
use mutiny_net.Prelude.Result.{err, overflow_error}
use mutiny_net.Messages.{CBlockHeader, set_null}
use mutiny_net.Block.{header_hash, nonces, solve}
use mutiny_net.Block.Solve.{IsWritable}

abbrev ones : List ℕ → List ℕ
ones s = replicate 32 255

abbrev last_nonce : CBlockHeader
last_nonce = record set_null { n_bits = 0x1e0377ae; n_nonce = 0xffffffff }

last_nonce-IsWritable : IsWritable ones last_nonce
unfolding header_hash
last_nonce-IsWritable = record {
  hash_at = λ m l. let e : ltb m (2 ^ 32) ≡ true = lt→ltb m (2 ^ 32) l in (2 ^ 256 - 1, rw e refl);
}

fails : solve ones last_nonce ≡ err overflow_error
unfolding solve nonces
fails = refl
