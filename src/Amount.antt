-- ===== src/Amount.antt =====
-- The compression of amounts in `miner_imports/test_framework/compressor.py`.
pub mod Laws
pub mod Tests
use mutiny_net.Prelude.{
  ℕ, zero, suc, ◌+◌, ◌-◌, ◌*◌, ◌/◌, ◌%◌, ◌==◌, ltb, if◌then◌else◌, Bool, true, false,
}
use mutiny_net.Prelude.Result.{Result, ok, err, assertion_error}

-- `while ((n % 10) == 0) and (e < 9)`, of which at most `left` rounds are left
unfoldable pub strip : ℕ → ℕ → ℕ → ℕ × ℕ
strip zero n e = (n, e)
strip (suc left) n e =
    let rest = strip left (n / 10) (e + 1) in if n % 10 == 0 then rest else (n, e)

-- The code of what is left of an amount, with the exponent `e`
unfoldable pub code_of : ℕ × ℕ → Result ℕ
code_of (n, e) =
    if ltb e 9
    then (if n % 10 == 0 then err assertion_error else ok (1 + (n / 10 * 9 + n % 10 - 1) * 10 + e))
    else ok (1 + (n - 1) * 10 + 9)

unfoldable pub compress_amount : ℕ → Result ℕ
unfolding strip code_of
compress_amount n = if n == 0 then ok 0 else code_of (strip 9 n 0)

-- `while e > 0`
unfoldable pub scale : ℕ → ℕ → ℕ
scale zero n = n
scale (suc e) n = scale e (n * 10)

unfoldable pub decompress_amount : ℕ → ℕ
unfolding scale
decompress_amount zero = 0
decompress_amount (suc x) =
    let e = x % 10 in
    let y = x / 10 in scale e (if ltb e 9 then y / 9 * 10 + (y % 9 + 1) else y + 1)
