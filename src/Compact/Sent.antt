-- ===== src/Compact/Sent.antt =====
-- A compact block that was made of a block can be sent, and arrives.
use mutiny_net.Prelude.{
  ℕ, zero, suc, ◌%◌, ◌^◌, ◌<◌, ◌≡◌, refl, ap, sym, subst, arith, List, [], ◌∷◌, ◌++◌, map, All,
  Bool, true, false, Option, none, length, if◌then◌else◌,
}
use mutiny_net.Prelude.Int.{ℤ, negsuc}
use mutiny_net.Prelude.Result.{Result, ok, ◌>>=◌, >>=-eq-ok, ok-injective}
use mutiny_net.Messages.{CTransaction, CBlock}
use mutiny_net.Siphash.{siphash256}
use mutiny_net.Compact.{
  PrefilledTransaction, P2PHeaderAndShortIds, HeaderAndShortIds, differential, to_p2p, absolute,
  of_p2p,
}
use mutiny_net.Compact.Write.{ser_header_and_shortids}
use mutiny_net.Compact.Read.{deser_header_and_shortids}
use mutiny_net.Compact.Indexes.{add-sub}
use mutiny_net.Compact.Parts.{
  HasInput, IsSendable, received_prefilled, received_ids, Reads-header_and_shortids,
}
use mutiny_net.Compact.Make.{
  calculate_shortid, is_in, item, prefill, tx_hash_of, shortids_from, positions_or, copy_header,
  get_siphash_keys, initialize_from_block,
}

low_lt : (v : ℕ) → v % 2 ^ 48 < 2 ^ 48
low_lt v = omega arith

calculate_shortid-lt : (k0 k1 h x : ℕ) → calculate_shortid k0 k1 h ≡ ok x → x < 2 ^ 48
unfolding calculate_shortid
calculate_shortid-lt k0 k1 h x e =
    let (v, _, f) = >>=-eq-ok (siphash256 k0 k1 h) (λ v. ok (v % 2 ^ 48)) e in
    subst (λ (n : ℕ). n < 2 ^ 48) (ok-injective f) (low_lt v)

item-All :
    (P : CTransaction → Type 0) (vtx : List CTransaction) (i : ℕ) (tx : CTransaction)
    → All P vtx
    → item vtx i ≡ ok tx
    → P tx
unfolding item
item-All P [] i tx h e = cc
item-All P (t ∷ vtx) zero tx h e = subst P (ok-injective e) h.0
item-All P (t ∷ vtx) (suc i) tx h e = item-All P vtx i tx h.1 e

prefill-All :
    (vtx : List CTransaction) (l : List ℕ) (ps : List PrefilledTransaction)
    → All HasInput vtx
    → prefill vtx l ≡ ok ps
    → All (λ p. HasInput p.tx) ps
unfolding prefill
prefill-All vtx [] ps h e = subst (All (λ p. HasInput p.tx)) (ok-injective e) tt
prefill-All vtx (i ∷ l) ps h e =
    let (tx, a, e1) = >>=-eq-ok (item vtx i) _ e in
    let (rest, b, c) = >>=-eq-ok (prefill vtx l) _ e1 in
    subst (All (λ p. HasInput p.tx)) (ok-injective c)
      (item-All HasInput vtx i tx h a, prefill-All vtx l rest h b)

module _ (sha256 hash256 : List ℕ → List ℕ) where
  shortids-All :
      (w : Bool) (k0 k1 : ℕ) (l : List ℕ) (i : ℕ) (vtx : List CTransaction) (xs : List ℕ)
      → shortids_from sha256 hash256 w k0 k1 l i vtx ≡ ok xs
      → All (λ x. x < 2 ^ 48) xs
  unfolding shortids_from
  shortids-All w k0 k1 l i [] xs e = subst (All (λ x. x < 2 ^ 48)) (ok-injective e) tt
  shortids-All w k0 k1 l i (tx ∷ vtx) xs e =
      split (is_in i l) (λ ys f. shortids-All w k0 k1 l (suc i) vtx ys f) e
    where
      rest : Result (List ℕ)
      rest = shortids_from sha256 hash256 w k0 k1 l (suc i) vtx

      split :
          (b : Bool)
          → ((ys : List ℕ) → rest ≡ ok ys → All (λ x. x < 2 ^ 48) ys)
          → (if b then rest else (do
            tx_hash ← tx_hash_of sha256 hash256 w tx
            x ← calculate_shortid k0 k1 tx_hash
            ys ← rest
            ok (x ∷ ys)))
            ≡ ok xs
          → All (λ x. x < 2 ^ 48) xs
      split true ih f = ih xs f
      split false ih f =
          let (h, _, f1) = >>=-eq-ok (tx_hash_of sha256 hash256 w tx) _ f in
          let (x, a, f2) = >>=-eq-ok (calculate_shortid k0 k1 h) _ f1 in
          let (ys, b, c) = >>=-eq-ok rest _ f2 in
          subst (All (λ x. x < 2 ^ 48)) (ok-injective c) (calculate_shortid-lt k0 k1 h x a, ih ys b)

  differential-All :
      (last : ℤ) (l : List PrefilledTransaction)
      → All (λ p. HasInput p.tx) l
      → All (λ p. HasInput p.tx) (differential last l)
  unfolding differential
  differential-All last [] h = tt
  differential-All last (p ∷ l) (h, hs) = (h, differential-All p.index l hs)

  length-differential :
      (last : ℤ) (l : List PrefilledTransaction) → length (differential last l) ≡ length l
  unfolding differential
  length-differential last [] = refl
  length-differential last (p ∷ l) = ap suc (length-differential p.index l)

  made-IsSendable :
      (block : CBlock) (nonce : ℕ) (l : Option (List ℕ)) (w : Bool) (h : HeaderAndShortIds)
      → All HasInput block.vtx
      → initialize_from_block sha256 hash256 block nonce l w ≡ ok h
      → IsSendable (to_p2p h)
  unfolding initialize_from_block to_p2p
  made-IsSendable block nonce l w h inputs e =
      let (hdr, _, e1) = >>=-eq-ok (copy_header hash256 block.header) _ e in
      let (ps, a, e2) = >>=-eq-ok (prefill block.vtx (positions_or l)) _ e1 in
      let (ks, _, e3) = >>=-eq-ok (get_siphash_keys sha256 hash256 hdr nonce) _ e2 in
      let (xs, b, e4) =
        >>=-eq-ok (shortids_from sha256 hash256 w ks.0 ks.1 (positions_or l) 0 block.vtx) _ e3 in
      subst (λ (g : HeaderAndShortIds). IsSendable (to_p2p g)) (ok-injective e4)
        (record {
          counted = refl;
          prefilled_counted = sym (length-differential (negsuc 0) ps);
          short = shortids-All w ks.0 ks.1 (positions_or l) 0 block.vtx xs b;
          have_inputs =
              differential-All (negsuc 0) ps (prefill-All block.vtx (positions_or l) ps inputs a);
        })

absolute-map :
    (w : Bool) (last : ℤ) (l : List PrefilledTransaction)
    → absolute last (map (received_prefilled w) (differential last l))
      ≡ map (received_prefilled w) l
unfolding absolute differential
absolute-map w last [] = refl
absolute-map w last (p ∷ l) =
    rw (add-sub p.index last) (
      ap (λ (m : List PrefilledTransaction). received_prefilled w p ∷ m) (absolute-map w p.index l))

-- What is left of a compact block that was sent: the prefilled transactions as they are read, and no
-- cached hash of the header.
unfoldable pub arrived : HeaderAndShortIds → HeaderAndShortIds
arrived h = record h {
  header = record h.header { block_sha256 = none };
  prefilled_txn = map (received_prefilled h.use_witness) h.prefilled_txn;
  use_witness = false;
}

of_p2p-received :
    (h : HeaderAndShortIds) → of_p2p (received_ids h.use_witness (to_p2p h)) ≡ arrived h
unfolding of_p2p to_p2p arrived
of_p2p-received h =
    ap (λ (l : List PrefilledTransaction). record (arrived h) { prefilled_txn = l })
      (absolute-map h.use_witness (negsuc 0) h.prefilled_txn)

-- A compact block that was made of a block whose transactions have inputs is read from the wire, and
-- gives the same nonce, the same short identifiers and the prefilled transactions at the same
-- positions; whatever follows it is left.
pub deser_header_and_shortids-made :
    (sha256 hash256 : List ℕ → List ℕ) (block : CBlock) (nonce : ℕ) (l : Option (List ℕ)) (w : Bool)
    (h : HeaderAndShortIds) (s rest : List ℕ)
    → All HasInput block.vtx
    → initialize_from_block sha256 hash256 block nonce l w ≡ ok h
    → ser_header_and_shortids h.use_witness (to_p2p h) ≡ ok s
    → (p : P2PHeaderAndShortIds) × (deser_header_and_shortids (s ++ rest) ≡ (p, rest))
      × (of_p2p p ≡ arrived h)
deser_header_and_shortids-made sha256 hash256 block nonce l w h s rest inputs made written = (
  received_ids h.use_witness (to_p2p h),
  (Reads-header_and_shortids h.use_witness (to_p2p h)
        (made-IsSendable sha256 hash256 block nonce l w h inputs made)).back
      s rest written,
  of_p2p-received h,
)
