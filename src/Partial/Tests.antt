-- ===== src/Partial/Tests.antt =====
-- Nine bits in two bytes.
use mutiny_net.Prelude.{◌≡◌, refl, List, [], ◌∷◌, ◌++◌, Bool, true, false, replicate}
use mutiny_net.Partial.{bytes_of_bits, read_bits}
use mutiny_net.Partial.Bits.{filling, read_bits-bytes_of_bits}

abbrev nine_bits : List Bool
nine_bits = true ∷ false ∷ false ∷ false ∷ false ∷ false ∷ false ∷ true ∷ true ∷ []

nine_bits_are_packed : bytes_of_bits nine_bits ≡ 129 ∷ 1 ∷ []
unfolding bytes_of_bits
nine_bits_are_packed = refl

read_bits-bytes_of_bits_example : read_bits (129 ∷ 1 ∷ []) 0 16 ≡ nine_bits ++ replicate 7 false
unfolding bytes_of_bits filling
read_bits-bytes_of_bits_example = read_bits-bytes_of_bits nine_bits
