-- ===== src/Messages/Vectors.antt =====
-- The vectors of hashes and of strings of `messages.py`.
use mutiny_net.Prelude.{ℕ, List}
use mutiny_net.Prelude.Result.{Result}
use mutiny_net.Bytes.{Reader, read_int, to_bytes}
use mutiny_net.Bytes.Reads.{Reads, Reads-int}
use mutiny_net.Messages.Write.{ser_uint256, ser_string, ser_vector}
use mutiny_net.Messages.Read.{deser_uint256, deser_string, deser_vector}
use mutiny_net.Messages.Parts.{Reads-vector_same, Reads-string}

unfoldable pub ser_uint256_vector : List ℕ → Result (List ℕ)
unfolding ser_vector to_bytes
ser_uint256_vector l = ser_vector (λ u. ser_uint256 u) l

unfoldable pub deser_uint256_vector : Reader (List ℕ)
unfolding deser_vector read_int
deser_uint256_vector = deser_vector deser_uint256

unfoldable pub ser_string_vector : List (List ℕ) → Result (List ℕ)
unfolding ser_vector ser_string
ser_string_vector l = ser_vector ser_string l

unfoldable pub deser_string_vector : Reader (List (List ℕ))
unfolding deser_vector deser_string
deser_string_vector = deser_vector deser_string

pub Reads-uint256_vector : (l : List ℕ) → Reads (ser_uint256_vector l) deser_uint256_vector l
unfolding ser_uint256_vector deser_uint256_vector
Reads-uint256_vector l = Reads-vector_same (Reads-int 32) l

pub Reads-string_vector : (l : List (List ℕ)) → Reads (ser_string_vector l) deser_string_vector l
unfolding ser_string_vector deser_string_vector
Reads-string_vector l = Reads-vector_same Reads-string l
