-- ===== src/Siphash/Words.antt =====
-- All words of SipHash stay below 2 ^ 64.
use mutiny_net.Prelude.{
  ℕ, zero, suc, ◌+◌, ◌*◌, ◌%◌, ◌^◌, ◌<◌, arith, List, [], ◌∷◌, All, ◌==◌, if◌then◌else◌, Bool, true,
  false, bit_or,
}
use mutiny_net.Prelude.Bits.{bit_xor-lt, bit_or-lt}
use mutiny_net.Siphash.{State, rotl64, siphash_round, compress, absorb, initial, finish, siphash}
use Prim.Native.Nat.{bit_xor}

abbrev IsWord : ℕ → Type 0
IsWord n = n < 2 ^ 64

pub record AreWords (s : State) : Type 0 where
  pub w0 : s.v0 < 2 ^ 64
  pub w1 : s.v1 < 2 ^ 64
  pub w2 : s.v2 < 2 ^ 64
  pub w3 : s.v3 < 2 ^ 64

rotl64-lt13 : (n : ℕ) → n < 2 ^ 64 → rotl64 n 13 < 2 ^ 64
unfolding rotl64
rotl64-lt13 n h = bit_or-lt 64 _ _ (omega arith) (omega arith)

rotl64-lt16 : (n : ℕ) → n < 2 ^ 64 → rotl64 n 16 < 2 ^ 64
unfolding rotl64
rotl64-lt16 n h = bit_or-lt 64 _ _ (omega arith) (omega arith)

rotl64-lt17 : (n : ℕ) → n < 2 ^ 64 → rotl64 n 17 < 2 ^ 64
unfolding rotl64
rotl64-lt17 n h = bit_or-lt 64 _ _ (omega arith) (omega arith)

rotl64-lt21 : (n : ℕ) → n < 2 ^ 64 → rotl64 n 21 < 2 ^ 64
unfolding rotl64
rotl64-lt21 n h = bit_or-lt 64 _ _ (omega arith) (omega arith)

rotl64-lt32 : (n : ℕ) → n < 2 ^ 64 → rotl64 n 32 < 2 ^ 64
unfolding rotl64
rotl64-lt32 n h = bit_or-lt 64 _ _ (omega arith) (omega arith)

low_lt : (n : ℕ) → n % 2 ^ 64 < 2 ^ 64
low_lt n = omega arith

siphash_round-AreWords : (s : State) → AreWords s → AreWords (siphash_round s)
unfolding siphash_round
siphash_round-AreWords s h =
    let a1 = bit_xor-lt 64 _ _ (rotl64-lt13 s.v1 h.w1) (low_lt (s.v0 + s.v1)) in
    let a3 = bit_xor-lt 64 _ _ (rotl64-lt16 s.v3 h.w3) (low_lt (s.v2 + s.v3)) in
    record {
      w0 = low_lt _;
      w1 = bit_xor-lt 64 _ _ (rotl64-lt17 _ a1) (low_lt _);
      w2 = rotl64-lt32 _ (low_lt _);
      w3 = bit_xor-lt 64 _ _ (rotl64-lt21 _ a3) (low_lt _);
    }

compress-AreWords : (t : ℕ) (s : State) → t < 2 ^ 64 → AreWords s → AreWords (compress t s)
unfolding compress
compress-AreWords t s p h =
    let u : State = record s { v3 = bit_xor s.v3 t } in
    let s' = siphash_round (siphash_round u) in
    let r : AreWords u = record {
      w0 = h.w0;
      w1 = h.w1;
      w2 = h.w2;
      w3 = bit_xor-lt 64 s.v3 t h.w3 p;
    } in
    let g : AreWords s' = siphash_round-AreWords _ (siphash_round-AreWords u r) in
    record { w0 = bit_xor-lt 64 s'.v0 t g.w0 p; w1 = g.w1; w2 = g.w2; w3 = g.w3 }

shifted_lt : (d k : ℕ) → d < 256 → k < 8 → d * 2 ^ (8 * k) < 2 ^ 64
shifted_lt d zero h l = omega arith
shifted_lt d (suc zero) h l = omega arith
shifted_lt d (suc (suc zero)) h l = omega arith
shifted_lt d (suc (suc (suc zero))) h l = omega arith
shifted_lt d (suc (suc (suc (suc zero)))) h l = omega arith
shifted_lt d (suc (suc (suc (suc (suc zero))))) h l = omega arith
shifted_lt d (suc (suc (suc (suc (suc (suc zero)))))) h l = omega arith
shifted_lt d (suc (suc (suc (suc (suc (suc (suc zero))))))) h l = omega arith
shifted_lt d (suc (suc (suc (suc (suc (suc (suc (suc k)))))))) h l = absurd (omega arith)

-- What the loop passes on: a count of one byte, and words.
record AreKept (r : ℕ × ℕ × State) : Type 0 where
  count : r.0 < 256
  word : r.1 < 2 ^ 64
  words : AreWords r.2

absorb-AreKept :
    (l : List ℕ) (c t : ℕ) (s : State)
    → All (λ d. d < 256) l
    → c < 256
    → t < 2 ^ 64
    → AreWords s
    → AreKept (absorb l c t s)
unfolding absorb
absorb-AreKept [] c t s h p q w = record { count = p; word = q; words = w }
absorb-AreKept (d ∷ l) c t s (b, h) p q w =
    let t' = bit_or t (d * 2 ^ (8 * (c % 8))) in
    let low : t' < 2 ^ 64 = bit_or-lt 64 t _ q (shifted_lt d (c % 8) b (omega arith)) in
    absorb-AreKept l ((c + 1) % 256) _ _ h (omega arith)
      (chosen ((c + 1) % 256 % 8 == 0) (omega arith) low)
      (chosen_words ((c + 1) % 256 % 8 == 0) (compress-AreWords t' s low w) w)
  where
    chosen : {x y : ℕ} (test : Bool) → x < 2 ^ 64 → y < 2 ^ 64 → (if test then x else y) < 2 ^ 64
    chosen true a b = a
    chosen false a b = b

    chosen_words :
        {x y : State} (test : Bool) → AreWords x → AreWords y → AreWords (if test then x else y)
    chosen_words true a b = a
    chosen_words false a b = b

initial-AreWords : (k0 k1 : ℕ) → k0 < 2 ^ 64 → k1 < 2 ^ 64 → AreWords (initial k0 k1)
unfolding initial
initial-AreWords k0 k1 p q = record {
  w0 = bit_xor-lt 64 _ k0 (omega arith) p;
  w1 = bit_xor-lt 64 _ k1 (omega arith) q;
  w2 = bit_xor-lt 64 _ k0 (omega arith) p;
  w3 = bit_xor-lt 64 _ k1 (omega arith) q;
}

finish-lt : (r : ℕ × ℕ × State) → AreKept r → finish r < 2 ^ 64
unfolding finish
finish-lt (c, t, s) h =
    let s' = compress (bit_or t (c * 2 ^ 56)) s in
    let g : AreWords s' =
      compress-AreWords _ s (bit_or-lt 64 t _ h.word (omega (arith, h.count))) h.words in
    let u : State = record s' { v2 = bit_xor s'.v2 0xff } in
    let r : AreWords u = record {
      w0 = g.w0;
      w1 = g.w1;
      w2 = bit_xor-lt 64 s'.v2 0xff g.w2 (omega arith);
      w3 = g.w3;
    } in
    let w =
      siphash_round-AreWords _
        (siphash_round-AreWords _ (siphash_round-AreWords _ (siphash_round-AreWords u r))) in
    bit_xor-lt 64 _ _ (bit_xor-lt 64 _ _ (bit_xor-lt 64 _ _ w.w0 w.w1) w.w2) w.w3

-- The hash of bytes under two keys of 64 bits has 64 bits.
pub siphash-lt :
    (k0 k1 : ℕ) (l : List ℕ)
    → k0 < 2 ^ 64
    → k1 < 2 ^ 64
    → All (λ d. d < 256) l
    → siphash k0 k1 l < 2 ^ 64
unfolding siphash
siphash-lt k0 k1 l p q h = finish-lt _ (
    absorb-AreKept l 0 0 (initial k0 k1) h (omega arith) (omega arith) (initial-AreWords k0 k1 p q))
