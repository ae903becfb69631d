-- ===== src/Siphash/Tests.antt =====
-- A published test vector: the key 00 … 0f and the bytes 00 … 0e.
use mutiny_net.Prelude.{◌^◌, ◌<◌, ◌≡◌, refl, arith, [], ◌∷◌}
use mutiny_net.Siphash.{siphash}
use mutiny_net.Siphash.Words.{siphash-lt}

published :
    siphash 0x0706050403020100 0x0f0e0d0c0b0a0908
      (0 ∷ 1 ∷ 2 ∷ 3 ∷ 4 ∷ 5 ∷ 6 ∷ 7 ∷ 8 ∷ 9 ∷ 10 ∷ 11 ∷ 12 ∷ 13 ∷ 14 ∷ [])
    ≡ 0xa129ca6149be45e5
unfolding siphash
published = refl

siphash-lt_example : siphash 0x0706050403020100 0x0f0e0d0c0b0a0908 (0 ∷ 255 ∷ []) < 2 ^ 64
siphash-lt_example =
    siphash-lt 0x0706050403020100 0x0f0e0d0c0b0a0908 (0 ∷ 255 ∷ []) (omega arith) (omega arith)
      (omega arith, (omega arith, tt))
