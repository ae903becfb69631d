-- ===== src/Psbt.antt =====
-- The partially signed transactions of `miner_imports/test_framework/psbt.py`, in which `miner` has a
-- block signed, and `decode_psbt` of `miner`. A key is its byte string: the file keeps a key of one
-- byte as that number, and writes the byte. The base64 text is the byte string that it encodes.
pub mod Maps
pub mod Decode
pub mod Tests
use mutiny_net.Prelude.{
  ℕ, zero, suc, ◌+◌, List, [], ◌∷◌, ◌++◌, Option, none, some, Bool, true, false, ◌==◌,
  if◌then◌else◌, length, take, drop,
}
use mutiny_net.Prelude.Result.{Result, ok, err, assertion_error, index_error, ◌>>=◌, ◌>>◌, guard}
use mutiny_net.Bytes.{Reader}
use mutiny_net.Bytes.Reads.{◌+>◌}
use mutiny_net.NBits.{eq_digits}
use mutiny_net.Messages.{CTransaction, CBlock}
use mutiny_net.Messages.Write.{ser_string, serialize_with_witness, ser_block}
use mutiny_net.Messages.Read.{deser_string, deser_tx, deser_block}

-- A map in the order of its entries.
abbrev pub PsbtMap : Type 0
PsbtMap = List (List ℕ × List ℕ)

unfoldable pub get : List ℕ → PsbtMap → Option (List ℕ)
unfolding eq_digits
get k [] = none
get k ((j, v) ∷ m) = if eq_digits j k then some v else get k m

-- `k in m`
unfoldable pub has_key : List ℕ → PsbtMap → Bool
unfolding eq_digits
has_key k [] = false
has_key k ((j, v) ∷ m) = if eq_digits j k then true else has_key k m

unfoldable pub ser_map : PsbtMap → Result (List ℕ)
unfolding ser_string
ser_map [] = ok (0 ∷ [])
ser_map ((k, v) ∷ m) = ser_string k +> ser_string v +> ser_map m

-- A new key gets its value, and `go` reads the rest; `assert k not in m` otherwise.
unfoldable pub new_entry :
    (PsbtMap → List ℕ → Result (PsbtMap × List ℕ))
    → PsbtMap
    → List ℕ
    → List ℕ × List ℕ
    → Bool
    → Result (PsbtMap × List ℕ)
new_entry go m k (v, f) true = err assertion_error
new_entry go m k (v, f) false = go (m ++ (k, v) ∷ []) f

unfoldable pub after_key :
    (PsbtMap → List ℕ → Result (PsbtMap × List ℕ))
    → PsbtMap
    → List ℕ × List ℕ
    → Result (PsbtMap × List ℕ)
unfolding deser_string has_key new_entry
after_key go m ([], f) = ok (m, f)
after_key go m (b ∷ k, f) = new_entry go m (b ∷ k) (deser_string f) (has_key (b ∷ k) m)

-- `PSBTMap.deserialize`: an empty key ends the map. An entry takes a byte of the stream at least, and
-- at the end of the stream a key is empty, so there are fewer rounds than bytes, but for one.
unfoldable pub deser_entries_of : ℕ → PsbtMap → List ℕ → Result (PsbtMap × List ℕ)
unfolding deser_string after_key
deser_entries_of zero m f = err assertion_error
deser_entries_of (suc fuel) m f = after_key (deser_entries_of fuel) m (deser_string f)

unfoldable pub deser_map : List ℕ → Result (PsbtMap × List ℕ)
unfolding deser_entries_of
deser_map f = deser_entries_of (suc (length f)) [] f

-- `[from_binary(PSBTMap, f) for _ in …]`
unfoldable pub deser_maps : ℕ → List ℕ → Result (List PsbtMap × List ℕ)
unfolding deser_map
deser_maps zero f = ok ([], f)
deser_maps (suc n) f = do (m, f') ← deser_map f; (ms, f'') ← deser_maps n f'; ok (m ∷ ms, f'')

-- `from_binary` of a byte string: nothing may be left.
unfoldable pub from_binary {ℓ} : {A : Type ℓ} → Reader A → List ℕ → Result A
from_binary deser s =
    let (a, rest) = deser s in if length rest == 0 then ok a else err assertion_error

pub record Psbt : Type 0 where
  pub g : PsbtMap
  pub i : List PsbtMap
  pub o : List PsbtMap
  pub tx : CTransaction

abbrev pub magic : List ℕ
magic = b'p' ∷ b's' ∷ b'b' ∷ b't' ∷ 0xff ∷ []

unfoldable pub found : Option (List ℕ) → Result (List ℕ)
found none = err assertion_error
found (some v) = ok v

-- PSBT_GLOBAL_UNSIGNED_TX, PSBT_SIGNET_BLOCK, PSBT_IN_FINAL_SCRIPTSIG, PSBT_IN_FINAL_SCRIPTWITNESS
-- and PSBT_IN_NON_WITNESS_UTXO
abbrev pub global_unsigned_tx : List ℕ
global_unsigned_tx = 0 ∷ []

abbrev pub signet_block : List ℕ
signet_block = 0xfc ∷ 6 ∷ b's' ∷ b'i' ∷ b'g' ∷ b'n' ∷ b'e' ∷ b't' ∷ b'b' ∷ []

abbrev pub in_final_scriptsig : List ℕ
in_final_scriptsig = 7 ∷ []

abbrev pub in_final_scriptwitness : List ℕ
in_final_scriptwitness = 8 ∷ []

abbrev pub in_non_witness_utxo : List ℕ
in_non_witness_utxo = 0 ∷ []

unfoldable pub ser_maps : List PsbtMap → Result (List ℕ)
unfolding ser_map
ser_maps [] = ok []
ser_maps (m ∷ ms) = ser_map m +> ser_maps ms

-- `PSBT.serialize`
unfoldable pub ser_psbt : PsbtMap → List PsbtMap → List PsbtMap → Result (List ℕ)
unfolding found get from_binary deser_tx ser_map ser_maps
ser_psbt g i o = do
  raw ← found (get global_unsigned_tx g)
  tx ← from_binary deser_tx raw
  guard (length tx.vin == length i) assertion_error
  guard (length tx.vout == length o) assertion_error
  ok magic +> ser_map g +> ser_maps i +> ser_maps o

-- `PSBT.deserialize`, and the test of `from_binary` that nothing is left
unfoldable pub deser_psbt : List ℕ → Result Psbt
unfolding found get from_binary deser_tx deser_map deser_maps eq_digits
deser_psbt s = do
  guard (eq_digits (take 5 s) magic) assertion_error
  (g, f) ← deser_map (drop 5 s)
  raw ← found (get global_unsigned_tx g)
  tx ← from_binary deser_tx raw
  (i, f') ← deser_maps (length tx.vin) f
  (o, f'') ← deser_maps (length tx.vout) f'
  guard (length f'' == 0) assertion_error
  ok (record { g = g; i = i; o = o; tx = tx })

unfoldable pub get_or_default : List ℕ → PsbtMap → List ℕ → List ℕ
unfolding get
get_or_default k m d = elim (get k m) [ none ↦ d | some v ↦ v ]

-- `psbt.i[0].map`
unfoldable pub first_input : List PsbtMap → Result PsbtMap
first_input [] = err index_error
first_input (m ∷ ms) = ok m

-- The block that was signed, and its solution
unfoldable pub decode_psbt : List ℕ → Result (CBlock × List ℕ)
unfolding deser_psbt found get get_or_default first_input from_binary deser_block ser_string
decode_psbt s = do
  psbt ← deser_psbt s
  guard (length psbt.tx.vin == 1) assertion_error
  guard (length psbt.tx.vout == 1) assertion_error
  raw ← found (get signet_block psbt.g)
  input ← first_input psbt.i
  block ← from_binary deser_block raw
  script_sig ← ser_string (get_or_default in_final_scriptsig input [])
  ok (block, script_sig ++ get_or_default in_final_scriptwitness input (0 ∷ []))

-- The end of `generate_psbt`: what is sent to be signed
unfoldable pub psbt_to_sign : CBlock → CTransaction → CTransaction → Result (List ℕ)
unfolding serialize_with_witness ser_block ser_psbt
psbt_to_sign block signme spendme = do
  unsigned ← serialize_with_witness signme
  raw ← ser_block block
  utxo ← serialize_with_witness spendme
  ser_psbt ((global_unsigned_tx, unsigned) ∷ (signet_block, raw) ∷ [])
      (((in_non_witness_utxo, utxo) ∷ []) ∷ []) ([] ∷ [])
