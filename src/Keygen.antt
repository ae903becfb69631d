-- ===== src/Keygen.antt =====
-- `keygen.py`: the texts of a key pair, as lists of hexadecimal digits. The key comes from the package
-- `ecdsa`: its secret, and the coordinates of its public point.
pub mod Compressed
pub mod Tests
use mutiny_net.Prelude.{ℕ, ◌%◌, List, ◌∷◌, ◌==◌, if◌then◌else◌}
use mutiny_net.Hex.{hex_padded}

-- `f"02{x:064x}"` for an even `y`, and `f"03{x:064x}"` for an odd one
unfoldable pub compressed : ℕ → ℕ → List ℕ
unfolding hex_padded
compressed x y = if y % 2 == 0 then 0 ∷ 2 ∷ hex_padded 64 x else 0 ∷ 3 ∷ hex_padded 64 x
