-- ===== src/Psbt/Maps.antt =====
-- Maps are read back as they were written.
use mutiny_net.Prelude.{
  ℕ, zero, suc, ◌≡◌, ◌<◌, ◌≤◌, refl, ap, sym, ◌∙◌, arith, List, [], ◌∷◌, ◌++◌, false, length,
  length-append,
}
use mutiny_net.Prelude.Result.{Result, ok, err, ok-injective, ◌>>=◌}
use mutiny_net.Bytes.Reads.{◌+>◌}
use mutiny_net.Messages.Write.{ser_compact_size, ser_string}
use mutiny_net.Messages.Read.{deser_string}
use mutiny_net.Messages.Parts.{Reads-string}
use mutiny_net.Psbt.{
  PsbtMap, has_key, ser_map, new_entry, after_key, deser_entries_of, deser_map, ser_maps,
  deser_maps,
}
use mathlib.Core.List.{append_assoc, append-nil}

pub +>-eq-ok :
    (m n : Result (List ℕ)) {s : List ℕ}
    → (m +> n) ≡ ok s
    → (x : List ℕ) × (y : List ℕ) × (m ≡ ok x) × (n ≡ ok y) × (x ++ y ≡ s)
+>-eq-ok (ok x) (ok y) h = (x, y, refl, refl, ok-injective h)
+>-eq-ok (ok x) (err e) h = cc
+>-eq-ok (err e) n h = cc

length-ser_string : (k s : List ℕ) → ser_string k ≡ ok s → length k ≤ length s
unfolding ser_string
length-ser_string k s e =
    let (x, y, _, f, g) = +>-eq-ok (ser_compact_size (length k)) (ok k) e in
    let l = ap length (ok-injective f) in omega (arith, length-append x y, l, ap length g)

-- The keys of a map that is written behind the entries `acc`: none is empty, none is there already.
abbrev pub NewKeys : PsbtMap → PsbtMap → Type 0
NewKeys acc [] = Unit
NewKeys acc ((k, v) ∷ m) = (0 < length k) × (has_key k acc ≡ false) × NewKeys (acc ++ (k, v) ∷ []) m

deser_entries_of-entry :
    (fuel : ℕ) (k v f' f'' f : List ℕ) (acc : PsbtMap)
    → 0 < length k
    → has_key k acc ≡ false
    → deser_string f ≡ (k, f')
    → deser_string f' ≡ (v, f'')
    → deser_entries_of (suc fuel) acc f ≡ deser_entries_of fuel (acc ++ (k, v) ∷ []) f''
unfolding deser_entries_of after_key new_entry
deser_entries_of-entry fuel [] v f' f'' f acc h n a b = absurd (omega arith)
deser_entries_of-entry fuel (c ∷ k) v f' f'' f acc h n a b =
    ap (after_key (deser_entries_of fuel) acc) a
    ∙ ap
        (λ (x : List ℕ × List ℕ).
          new_entry (deser_entries_of fuel) acc (c ∷ k) x (has_key (c ∷ k) acc))
        b
    ∙ ap (new_entry (deser_entries_of fuel) acc (c ∷ k) (v, f'')) n

deser_entries_of-end :
    (fuel : ℕ) (f' f : List ℕ) (acc : PsbtMap)
    → deser_string f ≡ ([], f')
    → deser_entries_of (suc fuel) acc f ≡ ok (acc, f')
unfolding deser_entries_of after_key new_entry
deser_entries_of-end fuel f' f acc a = ap (after_key (deser_entries_of fuel) acc) a

-- The byte 0 is an empty key.
empty_key : (rest : List ℕ) → deser_string (0 ∷ rest) ≡ ([], rest)
unfolding deser_string ser_string
empty_key rest = (Reads-string []).back (0 ∷ []) rest refl

deser_entries_of-ser_map :
    (m acc : PsbtMap) (fuel : ℕ) (s rest : List ℕ)
    → NewKeys acc m
    → ser_map m ≡ ok s
    → length s < fuel
    → deser_entries_of fuel acc (s ++ rest) ≡ ok (acc ++ m, rest)
unfolding ser_map
deser_entries_of-ser_map m acc zero s rest w e l = absurd (omega arith)
deser_entries_of-ser_map [] acc (suc fuel) s rest w e l =
    ap (λ (t : List ℕ). deser_entries_of (suc fuel) acc (t ++ rest)) (sym (ok-injective e))
    ∙ deser_entries_of-end fuel rest (0 ∷ rest) acc (empty_key rest)
    ∙ ap (λ (t : PsbtMap). ok (t, rest)) (sym (append-nil acc))
deser_entries_of-ser_map ((k, v) ∷ m) acc (suc fuel) s rest (h, n, w) e l =
    let (x, yz, e₁, f, g) = +>-eq-ok (ser_string k) (ser_string v +> ser_map m) e in
    let (y, z, e₂, e₃, g₂) = +>-eq-ok (ser_string v) (ser_map m) f in
    let whole : s ++ rest ≡ x ++ (y ++ (z ++ rest)) =
      ap (λ (t : List ℕ). t ++ rest) (sym g ∙ ap (λ (t : List ℕ). x ++ t) (sym g₂))
      ∙ append_assoc x (y ++ z) rest
      ∙ ap (λ (t : List ℕ). x ++ t) (append_assoc y z rest) in
    let short : length z < fuel = omega (
      arith,
      length-append x yz,
      length-append y z,
      ap length g,
      ap length g₂,
      length-ser_string k x e₁,
    ) in
    ap (deser_entries_of (suc fuel) acc) whole
    ∙ deser_entries_of-entry fuel k v (y ++ (z ++ rest)) (z ++ rest) _ acc h n
        ((Reads-string k).back x (y ++ (z ++ rest)) e₁) ((Reads-string v).back y (z ++ rest) e₂)
    ∙ deser_entries_of-ser_map m (acc ++ (k, v) ∷ []) fuel z rest w e₃ short
    ∙ ap (λ (t : PsbtMap). ok (t, rest)) (append_assoc acc ((k, v) ∷ []) m)

pub deser_map-ser_map :
    (m : PsbtMap) (s rest : List ℕ)
    → NewKeys [] m
    → ser_map m ≡ ok s
    → deser_map (s ++ rest) ≡ ok (m, rest)
unfolding deser_map
deser_map-ser_map m s rest w e =
    deser_entries_of-ser_map m [] (suc (length (s ++ rest))) s rest w e
      (omega (arith, length-append s rest))

abbrev pub EachNewKeys : List PsbtMap → Type 0
EachNewKeys [] = Unit
EachNewKeys (m ∷ ms) = NewKeys [] m × EachNewKeys ms

pub deser_maps-ser_maps :
    (ms : List PsbtMap) (s rest : List ℕ)
    → EachNewKeys ms
    → ser_maps ms ≡ ok s
    → deser_maps (length ms) (s ++ rest) ≡ ok (ms, rest)
unfolding deser_maps ser_maps
deser_maps-ser_maps [] s rest w e = ap (λ (t : List ℕ). ok ([], t ++ rest)) (sym (ok-injective e))
deser_maps-ser_maps (m ∷ ms) s rest (w, ws) e =
    let (x, y, e₁, e₂, g) = +>-eq-ok (ser_map m) (ser_maps ms) e in
    let whole : s ++ rest ≡ x ++ (y ++ rest) =
      ap (λ (t : List ℕ). t ++ rest) (sym g) ∙ append_assoc x y rest in
    ap (deser_maps (suc (length ms))) whole
    ∙ ap
        (λ (r : Result (PsbtMap × List ℕ)).
          r >>= λ p. deser_maps (length ms) p.1 >>= λ q. ok (p.0 ∷ q.0, q.1))
        (deser_map-ser_map m x (y ++ rest) w e₁)
    ∙ ap (λ (r : Result (List PsbtMap × List ℕ)). r >>= λ q. ok (m ∷ q.0, q.1))
        (deser_maps-ser_maps ms y rest ws e₂)
