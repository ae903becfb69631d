-- ===== src/Keygen/Tests.antt =====
-- Two points of small coordinates.
use mutiny_net.Prelude.{ℕ, ◌≡◌, ◌%◌, arith, length}
use mutiny_net.Keygen.{compressed}
use mutiny_net.Keygen.Compressed.{compressed-injective}

compressed-injective_example :
    (length (compressed 17 4) ≡ 66)
    × (compressed 17 4 ≡ compressed 17 6 → (◌≡◌ {A = ℕ} 17 17) × (4 % 2 ≡ 6 % 2))
compressed-injective_example = compressed-injective 17 4 17 6 (omega arith)
