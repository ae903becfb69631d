-- ===== src/Psbt/Tests.antt =====
-- A signed PSBT of a small block: the input has a final script.
use mutiny_net.Prelude.{ℕ, ◌≡◌, ◌++◌, refl, arith, none, List, [], ◌∷◌, length}
use mutiny_net.Prelude.Result.{ok}
use mutiny_net.Bytes.{◌>>=◌, give}
use mutiny_net.Messages.{set_null}
use mutiny_net.Messages.RoundTrip.{as_read}
use mutiny_net.Messages.Tests.{
  coin, coin_bytes, coin_is_written, block, block_bytes, block_is_written,
}
use mutiny_net.Psbt.{
  PsbtMap, has_key, get_or_default, ser_psbt, decode_psbt, in_final_scriptsig, in_non_witness_utxo,
  magic, global_unsigned_tx, signet_block,
}
use mutiny_net.Psbt.Maps.{NewKeys}
use mutiny_net.Psbt.Decode.{globals, decode_psbt-signed}

abbrev input : PsbtMap
input = (in_non_witness_utxo, 1 ∷ []) ∷ (in_final_scriptsig, 0x51 ∷ 0x52 ∷ []) ∷ []

input-NewKeys : NewKeys [] input
unfolding has_key
input-NewKeys = (omega arith, refl, (omega arith, refl, tt))

abbrev psbt_bytes : List ℕ
psbt_bytes =
    magic
    ++ (1 ∷ global_unsigned_tx)
    ++ length coin_bytes ∷ coin_bytes
    ++ (9 ∷ signet_block)
    ++ length block_bytes ∷ block_bytes
    ++ 0 ∷ 1 ∷ 0 ∷ 1 ∷ 1 ∷ 1 ∷ 7 ∷ 2 ∷ 0x51 ∷ 0x52 ∷ 0 ∷ 0 ∷ []

psbt_is_written : ser_psbt (globals coin_bytes block_bytes) (input ∷ []) ([] ∷ []) ≡ ok psbt_bytes
unfolding ser_psbt ◌>>=◌ give
psbt_is_written = refl

decode_psbt-signed_example :
    decode_psbt psbt_bytes
    ≡ ok (
      record { header = record set_null { n_time = 3 }; vtx = record coin { sha256 = none } ∷ [] },
      2 ∷ 0x51 ∷ 0x52 ∷ 0 ∷ [],
    )
unfolding as_read get_or_default ser_psbt
decode_psbt-signed_example =
    decode_psbt-signed block coin input [] coin_bytes block_bytes (2 ∷ 0x51 ∷ 0x52 ∷ []) psbt_bytes
      (omega arith, tt) refl refl input-NewKeys tt coin_is_written block_is_written refl
      psbt_is_written
