-- ===== src/Amount/Tests.antt =====
-- Codes of amounts.
use mutiny_net.Prelude.{ℕ, ◌≡◌, refl}
use mutiny_net.Prelude.Result.{ok}
use mutiny_net.Amount.{compress_amount, decompress_amount}
use mutiny_net.Amount.Laws.{decompress_amount-compress_amount}

fifty_coins : compress_amount 5000000000 ≡ ok 0x32
unfolding compress_amount
fifty_coins = refl

decompress_amount-compress_amount_example :
    (x : ℕ) × (compress_amount 123000 ≡ ok x) × (decompress_amount x ≡ 123000)
decompress_amount-compress_amount_example = decompress_amount-compress_amount 123000
