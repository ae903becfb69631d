-- ===== src/Messages/Parts.antt =====
-- The parts of a message are read back as they were written.
use mutiny_net.Prelude.{
  ℕ, ◌≡◌, refl, ap, sym, subst, arith, map, none, List, [], ◌∷◌, All, length, ltb, true, false,
  if◌then◌else◌, Bool,
}
use mutiny_net.Prelude.Result.{Result}
use mutiny_net.Bytes.{Reader, give, read, read_int, to_bytes}
use mutiny_net.Bytes.Reads.{
  Reads, ◌+>◌, Reads-bytes, Reads-int, Reads-signed, Reads-append, Reads-map, Reads-give,
  Reads-nothing,
}
use mutiny_net.Messages.{COutPoint, CTxIn, CTxOut, CTxInWitness, CBlockHeader}
use mutiny_net.Messages.Write.{
  ser_compact_size, ser_string, ser_entries, ser_vector, ser_outpoint, ser_tx_in, ser_tx_out,
  ser_tx_in_witness, ser_header,
}
use mutiny_net.Messages.Read.{
  size_after, deser_compact_size, deser_string, deser_entries, deser_vector, deser_outpoint,
  deser_tx_in, deser_tx_out, deser_tx_in_witness, deser_header,
}

-- A size behind the byte that announces its width.
Reads-wide :
    (mark n l : ℕ)
    → size_after mark ≡ read_int n
    → Reads (to_bytes 1 mark +> to_bytes n l) deser_compact_size l
unfolding deser_compact_size
Reads-wide mark n l e =
    Reads-append size_after (Reads-int 1 mark)
      (subst (λ (d : Reader ℕ). Reads (to_bytes n l) d l) (sym e) (Reads-int n l))

size_after-narrow : (l : ℕ) → ltb l 253 ≡ true → size_after l ≡ give l
unfolding size_after
size_after-narrow l h = ground arith

Reads-if {ℓ} :
    {A : Type ℓ} {m n : Result (List ℕ)} {d : Reader A} {a : A} (b : Bool)
    → (b ≡ true → Reads m d a)
    → Reads n d a
    → Reads (if b then m else n) d a
Reads-if true f g = f refl
Reads-if false f g = g

pub Reads-compact_size : (l : ℕ) → Reads (ser_compact_size l) deser_compact_size l
unfolding ser_compact_size size_after deser_compact_size
Reads-compact_size l =
    Reads-if (ltb l 253) (λ e. Reads-give size_after (Reads-int 1 l) (size_after-narrow l e))
      (Reads-if (ltb l 0x10000) (λ e. Reads-wide 253 2 l refl)
        (Reads-if (ltb l 0x100000000) (λ e. Reads-wide 254 4 l refl) (Reads-wide 255 8 l refl)))

pub Reads-string : (s : List ℕ) → Reads (ser_string s) deser_string s
unfolding ser_string deser_string
Reads-string s = Reads-append read (Reads-compact_size (length s)) (Reads-bytes s)

pub Reads-outpoint : (o : COutPoint) → Reads (ser_outpoint o) deser_outpoint o
unfolding ser_outpoint deser_outpoint
Reads-outpoint o = Reads-append _ (Reads-int 32 o.hash) (Reads-map _ (Reads-int 4 o.n))

pub Reads-tx_in : (i : CTxIn) → Reads (ser_tx_in i) deser_tx_in i
unfolding ser_tx_in deser_tx_in
Reads-tx_in i =
    Reads-append _ (Reads-outpoint i.prevout)
      (Reads-append _ (Reads-string i.script_sig) (Reads-map _ (Reads-int 4 i.n_sequence)))

pub Reads-tx_out : (o : CTxOut) → Reads (ser_tx_out o) deser_tx_out o
unfolding ser_tx_out deser_tx_out
Reads-tx_out o =
    Reads-append _ (Reads-signed 8 o.n_value) (Reads-map _ (Reads-string o.script_pub_key))

module _ {A : Type 0} {ser : A → Result (List ℕ)} {deser : Reader A} {kept : A → A} where
  -- The entries come back if each of them does, with what is kept of it.
  pub Reads-entries :
      ((a : A) → Reads (ser a) deser (kept a))
      → (l : List A) → Reads (ser_entries ser l) (deser_entries deser (length l)) (map kept l)
  unfolding ser_entries deser_entries
  Reads-entries r [] = Reads-nothing []
  Reads-entries r (a ∷ l) = Reads-append _ (r a) (Reads-map _ (Reads-entries r l))

  pub Reads-vector :
      ((a : A) → Reads (ser a) deser (kept a))
      → (l : List A) → Reads (ser_vector ser l) (deser_vector deser) (map kept l)
  unfolding ser_vector deser_vector
  Reads-vector r l = Reads-append _ (Reads-compact_size (length l)) (Reads-entries r l)

-- The entries come back if each of them has the property that it comes back by.
module _ {A : Type 0} {ser : A → Result (List ℕ)} {deser : Reader A} {kept : A → A} where
  pub Reads-entries-All :
      {P : A → Type 0}
      → ((a : A) → P a → Reads (ser a) deser (kept a))
      → (l : List A) → All P l
      → Reads (ser_entries ser l) (deser_entries deser (length l)) (map kept l)
  unfolding ser_entries deser_entries
  Reads-entries-All r [] h = Reads-nothing []
  Reads-entries-All r (a ∷ l) (h, hs) =
      Reads-append _ (r a h) (Reads-map _ (Reads-entries-All r l hs))

  pub Reads-vector-All :
      {P : A → Type 0}
      → ((a : A) → P a → Reads (ser a) deser (kept a))
      → (l : List A) → All P l
      → Reads (ser_vector ser l) (deser_vector deser) (map kept l)
  unfolding ser_vector deser_vector
  Reads-vector-All r l h = Reads-append _ (Reads-compact_size (length l)) (Reads-entries-All r l h)

pub map-same : {A : Type 0} (l : List A) → map (λ a. a) l ≡ l
map-same [] = refl
map-same (a ∷ l) = ap (λ (m : List _). a ∷ m) (map-same l)

pub Reads-entries_same :
    {A : Type 0} {ser : A → Result (List ℕ)} {deser : Reader A}
    → ((a : A) → Reads (ser a) deser a)
    → (l : List A) → Reads (ser_entries ser l) (deser_entries deser (length l)) l
Reads-entries_same {ser} {deser} r l =
    subst (Reads (ser_entries ser l) (deser_entries deser (length l))) (map-same l)
      (Reads-entries r l)

-- A vector whose entries come back unchanged.
pub Reads-vector_same :
    {A : Type 0} {ser : A → Result (List ℕ)} {deser : Reader A}
    → ((a : A) → Reads (ser a) deser a)
    → (l : List A) → Reads (ser_vector ser l) (deser_vector deser) l
Reads-vector_same {ser} {deser} r l =
    subst (Reads (ser_vector ser l) (deser_vector deser)) (map-same l) (Reads-vector r l)

pub Reads-tx_in_witness : (w : CTxInWitness) → Reads (ser_tx_in_witness w) deser_tx_in_witness w
unfolding ser_tx_in_witness deser_tx_in_witness
Reads-tx_in_witness w = Reads-map _ (Reads-vector_same Reads-string w.stack)

pub Reads-header :
    (h : CBlockHeader) → Reads (ser_header h) deser_header (record h { block_sha256 = none })
unfolding ser_header deser_header
Reads-header h = Reads-append _ (Reads-signed 4 h.n_version) (
    Reads-append _ (Reads-int 32 h.hash_prev_block) (
      Reads-append _ (Reads-int 32 h.hash_merkle_root) (
        Reads-append _ (Reads-int 4 h.n_time)
          (Reads-append _ (Reads-int 4 h.n_bits) (Reads-map _ (Reads-int 4 h.n_nonce))))))
