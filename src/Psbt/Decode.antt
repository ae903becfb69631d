-- ===== src/Psbt/Decode.antt =====
-- What is decoded of a signed PSBT.
use mutiny_net.Prelude.{
  ℕ, ◌≡◌, refl, ap, sym, ◌∙◌, subst, arith, map, none, List, [], ◌∷◌, ◌++◌, Bool, true, false,
  length, ◌==◌, if◌then◌else◌,
}
use mutiny_net.Prelude.Result.{
  Exception, Result, ok, err, ok-injective, ◌>>=◌, ◌>>◌, guard, assertion_error, >>=-eq-ok,
}
use mutiny_net.Bytes.{Reader}
use mutiny_net.Bytes.Reads.{◌+>◌}
use mutiny_net.Messages.{CTransaction, CBlock}
use mutiny_net.Messages.Write.{ser_string, serialize_with_witness, ser_block}
use mutiny_net.Messages.Read.{deser_tx, deser_block}
use mutiny_net.Messages.RoundTrip.{
  as_read, deser_tx-serialize_with_witness, HaveInputs, deser_block-ser_block,
}
use mutiny_net.Psbt.{
  PsbtMap, get, has_key, from_binary, found, magic, global_unsigned_tx, signet_block,
  in_final_scriptsig, in_final_scriptwitness, ser_map, ser_maps, ser_psbt, deser_map, deser_maps,
  deser_psbt, get_or_default, first_input, decode_psbt,
}
use mutiny_net.Psbt.Maps.{+>-eq-ok, NewKeys, EachNewKeys, deser_map-ser_map, deser_maps-ser_maps}
use mathlib.Core.List.{append-nil}

guard-eq-ok {ℓ} :
    {A : Type ℓ} (b : Bool) (x : Exception) (rest : Result A) {r : A}
    → (guard b x >> rest) ≡ ok r
    → (b ≡ true) × (rest ≡ ok r)
guard-eq-ok true x rest e = (refl, e)
guard-eq-ok false x rest e = cc

from_binary-back {ℓ} :
    {A : Type ℓ} (deser : Reader A) (s : List ℕ) (a : A)
    → deser (s ++ []) ≡ (a, [])
    → from_binary deser s ≡ ok a
unfolding from_binary
from_binary-back deser s a e =
    ap (λ (p : _ × List ℕ). if length p.1 == 0 then ok p.0 else err assertion_error)
      (ap deser (sym (append-nil s)) ∙ e)

-- A chain whose first call returns.
pub step {ℓ κ} :
    {A : Type ℓ} {B : Type κ} (m : Result A) (f : A → Result B) {a : A} {r : Result B}
    → m ≡ ok a
    → f a ≡ r
    → (m >>= f) ≡ r
step m f e h = ap (λ x. x >>= f) e ∙ h

same_length :
    {A : Type 0} {B : Type 0} (l : List A) (k : List B)
    → (length l == length k) ≡ true
    → length k ≡ length l
same_length l k e = ground arith

-- The bytes of a PSBT without the five of the magic
psbt_bytes :
    (g : PsbtMap) (i o : List PsbtMap) (s : List ℕ)
    → (ok magic +> ser_map g +> ser_maps i +> ser_maps o) ≡ ok s
    → (x : List ℕ) × (y : List ℕ) × (z : List ℕ) × (ser_map g ≡ ok x)
      × (ser_maps i ≡ ok y)
      × (ser_maps o ≡ ok z)
      × (magic ++ (x ++ (y ++ (z ++ []))) ≡ s)
psbt_bytes g i o s e =
    let (x₀, y₀, e₀, f₀, g₀) = +>-eq-ok (ok magic) (ser_map g +> ser_maps i +> ser_maps o) e in
    let (x, y₁, e₁, f₁, g₁) = +>-eq-ok (ser_map g) (ser_maps i +> ser_maps o) f₀ in
    let (y, z, e₂, e₃, g₂) = +>-eq-ok (ser_maps i) (ser_maps o) f₁ in
    (
      x,
      y,
      z,
      e₁,
      e₂,
      e₃,
      ap (λ (t : List ℕ). magic ++ (x ++ (y ++ t))) (append-nil z)
          ∙ ap (λ (t : List ℕ). magic ++ (x ++ t)) g₂
          ∙ ap (λ (t : List ℕ). magic ++ t) g₁
          ∙ ap (λ (t : List ℕ). t ++ y₀) (ok-injective e₀)
          ∙ g₀,
    )

-- A PSBT whose maps have distinct keys, none empty, is read back as it was written.
deser_psbt-ser_psbt :
    (g : PsbtMap) (i o : List PsbtMap) (s : List ℕ)
    → NewKeys [] g
    → EachNewKeys i
    → EachNewKeys o
    → ser_psbt g i o ≡ ok s
    → (raw : List ℕ) × (tx : CTransaction) × (found (get global_unsigned_tx g) ≡ ok raw)
      × (from_binary deser_tx raw ≡ ok tx)
      × (deser_psbt s ≡ ok (record { g = g; i = i; o = o; tx = tx }))
unfolding ser_psbt deser_psbt
deser_psbt-ser_psbt g i o s wg wi wo e =
    let (raw, e₁, f₁) = >>=-eq-ok (found (get global_unsigned_tx g)) _ e in
    let (tx, e₂, f₂) = >>=-eq-ok (from_binary deser_tx raw) _ f₁ in
    let (l, f₃) = guard-eq-ok (length tx.vin == length i) _ _ f₂ in
    let (k, f₄) = guard-eq-ok (length tx.vout == length o) _ _ f₃ in
    let (x, y, z, e₃, e₄, e₅, whole) = psbt_bytes g i o s f₄ in
    let ins =
      subst (λ (n : ℕ). deser_maps n (y ++ (z ++ [])) ≡ ok (i, z ++ [])) (same_length tx.vin i l)
        (deser_maps-ser_maps i y (z ++ []) wi e₄) in
    let outs =
      subst (λ (n : ℕ). deser_maps n (z ++ []) ≡ ok (o, [])) (same_length tx.vout o k)
        (deser_maps-ser_maps o z [] wo e₅) in
    (
      raw,
      tx,
      e₁,
      e₂,
      subst (λ (t : List ℕ). deser_psbt t ≡ ok (record { g = g; i = i; o = o; tx = tx })) whole
          (step (deser_map (x ++ (y ++ (z ++ [])))) _ (deser_map-ser_map g x (y ++ (z ++ [])) wg e₃)
            (step (found (get global_unsigned_tx g)) _ e₁ (
              step (from_binary deser_tx raw) _ e₂ (
                step (deser_maps (length tx.vin) (y ++ (z ++ []))) _ ins
                  (step (deser_maps (length tx.vout) (z ++ [])) _ outs refl))))),
    )

-- The globals that `generate_psbt` writes
abbrev pub globals : List ℕ → List ℕ → PsbtMap
globals unsigned raw = (global_unsigned_tx, unsigned) ∷ (signet_block, raw) ∷ []

pub globals-NewKeys : (unsigned raw : List ℕ) → NewKeys [] (globals unsigned raw)
unfolding has_key
globals-NewKeys unsigned raw = (omega arith, refl, (omega arith, refl, tt))

-- The unsigned transaction is the one that was written.
unsigned_tx :
    (signme tx : CTransaction) (u raw raw' : List ℕ)
    → length signme.vin ≡ 1
    → serialize_with_witness signme ≡ ok u
    → found (get global_unsigned_tx (globals u raw)) ≡ ok raw'
    → from_binary deser_tx raw' ≡ ok tx
    → as_read signme ≡ tx
unfolding found get
unsigned_tx signme tx u raw raw' n w e f =
    let back =
      from_binary-back deser_tx u (as_read signme)
        (deser_tx-serialize_with_witness signme u [] (omega arith) w) in
    ok-injective (sym back ∙ ap (from_binary deser_tx) (ok-injective e) ∙ f)

-- Whatever is added to the maps of the input and the output of a PSBT that `generate_psbt` made, as
-- long as their keys are distinct and not empty, decoding it gives the block that was to be signed, as
-- it is read, and as the solution the final script and witness of the input, or the empty ones.
pub decode_psbt-signed :
    (block : CBlock) (signme : CTransaction) (input output : PsbtMap) (u raw sig s : List ℕ)
    → HaveInputs block.vtx
    → length signme.vin ≡ 1
    → length signme.vout ≡ 1
    → NewKeys [] input
    → NewKeys [] output
    → serialize_with_witness signme ≡ ok u
    → ser_block block ≡ ok raw
    → ser_string (get_or_default in_final_scriptsig input []) ≡ ok sig
    → ser_psbt (globals u raw) (input ∷ []) (output ∷ []) ≡ ok s
    → decode_psbt s
      ≡ ok (
        record {
          header = record block.header { block_sha256 = none };
          vtx = map as_read block.vtx;
        },
        sig ++ get_or_default in_final_scriptwitness input (0 ∷ []),
      )
unfolding decode_psbt first_input found get as_read
decode_psbt-signed block signme input output u raw sig s hi n₁ n₂ wi wo eu er es e =
    let (raw', tx, e₁, e₂, d) =
      deser_psbt-ser_psbt (globals u raw) (input ∷ []) (output ∷ []) s (globals-NewKeys u raw)
        (wi, tt) (wo, tt) e in
    let same = unsigned_tx signme tx u raw raw' n₁ eu e₁ e₂ in
    let one_in : length tx.vin ≡ 1 = ap (λ (t : CTransaction). length t.vin) (sym same) ∙ n₁ in
    let one_out : length tx.vout ≡ 1 = ap (λ (t : CTransaction). length t.vout) (sym same) ∙ n₂ in
    step (deser_psbt s) _ d (
      step (guard (length tx.vin == 1) assertion_error) _
        (ap (λ (k : ℕ). guard (k == 1) assertion_error) one_in)
        (step (guard (length tx.vout == 1) assertion_error) _
          (ap (λ (k : ℕ). guard (k == 1) assertion_error) one_out)
          (step (from_binary deser_block raw) _
            (from_binary-back deser_block raw _ (deser_block-ser_block block raw [] hi er))
            (step (ser_string (get_or_default in_final_scriptsig input [])) _ es refl))))
