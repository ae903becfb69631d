-- ===== src/Bytes.antt =====
-- Python's `int.to_bytes`, `int.from_bytes` and `BytesIO.read`. A byte string is a list of numbers
-- below 256, and a stream is what is left of it: `read` gives fewer bytes at its end and does not
-- raise.
pub mod Values
pub mod Reads
pub mod Parser
use mutiny_net.Prelude.{
  ℕ, zero, suc, ◌+◌, ◌-◌, ◌*◌, ◌/◌, ◌%◌, ◌^◌, List, [], ◌∷◌, ◌++◌, Bool, ltb, leb, ◌&&◌,
  if◌then◌else◌, take, drop,
}
use mutiny_net.Prelude.Int.{ℤ, pos, negsuc}
use mutiny_net.Prelude.Result.{Result, ok, err, overflow_error}

-- `int.from_bytes(_, "little")`
unfoldable pub le_value : List ℕ → ℕ
le_value [] = 0
le_value (b ∷ s) = b + 256 * le_value s

unfoldable pub le_digits : ℕ → ℕ → List ℕ
le_digits zero k = []
le_digits (suc n) k = k % 256 ∷ le_digits n (k / 256)

-- `k.to_bytes(n, "little")`
unfoldable pub to_bytes : ℕ → ℕ → Result (List ℕ)
unfolding le_digits
to_bytes n k = if ltb k (256 ^ n) then ok (le_digits n k) else err overflow_error

-- `k.to_bytes(n, "little", signed=True)`: two's complement
unfoldable pub to_bytes_signed : ℕ → ℤ → Result (List ℕ)
unfolding le_digits
to_bytes_signed n (pos k) = if ltb (2 * k) (256 ^ n) then ok (le_digits n k) else err overflow_error
to_bytes_signed n (negsuc k) =
    if leb (2 * suc k) (256 ^ n) then ok (le_digits n (256 ^ n - suc k)) else err overflow_error

-- `int.from_bytes(s, "little", signed=True)` of `n` bytes
unfoldable pub le_value_signed : ℕ → List ℕ → ℤ
unfolding le_value
le_value_signed n s =
    let k = le_value s in if ltb (2 * k) (256 ^ n) then pos k else negsuc (256 ^ n - suc k)

-- A method that reads from a stream `f`.
abbrev pub Reader {ℓ} : Type ℓ → Type ℓ
Reader A = List ℕ → A × List ℕ

infixl 5 ◌>>=◌
unfoldable pub ◌>>=◌ {ℓ κ} : {A : Type ℓ} {B : Type κ} → Reader A → (A → Reader B) → Reader B
(first >>= rest) f = let (a, f') = first f in rest a f'

unfoldable pub give {ℓ} : {A : Type ℓ} → A → Reader A
give a f = (a, f)

-- `f.read(n)`
unfoldable pub read : ℕ → Reader (List ℕ)
read n f = (take n f, drop n f)

-- `int.from_bytes(f.read(n), "little")`, and the signed one
unfoldable pub read_int : ℕ → Reader ℕ
unfolding read le_value
read_int n f = (le_value (take n f), drop n f)

unfoldable pub read_signed : ℕ → Reader ℤ
unfolding le_value_signed
read_signed n f = (le_value_signed n (take n f), drop n f)
