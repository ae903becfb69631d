-- ===== src/Siphash.antt =====
-- SipHash-2-4 of `miner_imports/test_framework/crypto/siphash.py`. A word has 64 bits.
pub mod Words
pub mod Tests
use mutiny_net.Prelude.{
  ℕ, zero, suc, ◌+◌, ◌-◌, ◌*◌, ◌/◌, ◌%◌, ◌^◌, List, [], ◌∷◌, bit_or, ◌==◌, if◌then◌else◌,
}
use mutiny_net.Prelude.Result.{Result, ok, ◌>>=◌}
use mutiny_net.Bytes.{to_bytes}
use Prim.Native.Nat.{bit_xor}

unfoldable pub rotl64 : ℕ → ℕ → ℕ
rotl64 n b = bit_or (n / 2 ^ (64 - b)) (n % 2 ^ (64 - b) * 2 ^ b)

pub record State : Type 0 where
  pub v0 : ℕ
  pub v1 : ℕ
  pub v2 : ℕ
  pub v3 : ℕ

unfoldable pub siphash_round : State → State
unfolding rotl64
siphash_round s =
    let a0 = (s.v0 + s.v1) % 2 ^ 64 in
    let a1 = bit_xor (rotl64 s.v1 13) a0 in
    let b0 = rotl64 a0 32 in
    let a2 = (s.v2 + s.v3) % 2 ^ 64 in
    let a3 = bit_xor (rotl64 s.v3 16) a2 in
    let c0 = (b0 + a3) % 2 ^ 64 in
    let b3 = bit_xor (rotl64 a3 21) c0 in
    let b2 = (a2 + a1) % 2 ^ 64 in
    let b1 = bit_xor (rotl64 a1 17) b2 in record { v0 = c0; v1 = b1; v2 = rotl64 b2 32; v3 = b3 }

-- `v3 ^= t`, two rounds, and `v0 ^= t`
unfoldable pub compress : ℕ → State → State
unfolding siphash_round
compress t s =
    let s' = siphash_round (siphash_round (record s { v3 = bit_xor s.v3 t })) in
    record s' { v0 = bit_xor s'.v0 t }

-- The loop over the bytes: `c` counts them and `t` holds up to seven of them.
unfoldable pub absorb : List ℕ → ℕ → ℕ → State → ℕ × ℕ × State
unfolding compress
absorb [] c t s = (c, t, s)
absorb (d ∷ rest) c t s =
    let t' = bit_or t (d * 2 ^ (8 * (c % 8))) in
    let c' = (c + 1) % 256 in
    absorb rest c' (if c' % 8 == 0 then 0 else t') (if c' % 8 == 0 then compress t' s else s)

unfoldable pub initial : ℕ → ℕ → State
initial k0 k1 = record {
  v0 = bit_xor 0x736f6d6570736575 k0;
  v1 = bit_xor 0x646f72616e646f6d k1;
  v2 = bit_xor 0x6c7967656e657261 k0;
  v3 = bit_xor 0x7465646279746573 k1;
}

-- The last word has the count of the bytes in its highest byte.
unfoldable pub finish : ℕ × ℕ × State → ℕ
unfolding compress siphash_round
finish (c, t, s) =
    let s' = compress (bit_or t (c * 2 ^ 56)) s in
    let u = record s' { v2 = bit_xor s'.v2 0xff } in
    let w = siphash_round (siphash_round (siphash_round (siphash_round u))) in
    bit_xor (bit_xor (bit_xor w.v0 w.v1) w.v2) w.v3

unfoldable pub siphash : ℕ → ℕ → List ℕ → ℕ
unfolding initial absorb finish
siphash k0 k1 bytes = finish (absorb bytes 0 0 (initial k0 k1))

unfoldable pub siphash256 : ℕ → ℕ → ℕ → Result ℕ
unfolding siphash to_bytes
siphash256 k0 k1 num = do s ← to_bytes 32 num; ok (siphash k0 k1 s)
