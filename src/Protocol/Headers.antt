-- ===== src/Protocol/Headers.antt =====
-- A list of headers is read back: the reader computes the hash of each.
use mutiny_net.Prelude.{
  ℕ, ◌≡◌, refl, sym, ap, ◌∙◌, subst, none, some, Option-cases, inl, inr, List, [], ◌∷◌, ◌++◌, map,
  All, length,
}
use mutiny_net.Prelude.Result.{Result, ok, err, >>=-eq-ok, ok-injective}
use mutiny_net.Bytes.Reads.{◌+>◌}
use mutiny_net.Bytes.Parser.{always, call, Parses, >>=-of, call-of}
use mutiny_net.Messages.{CBlockHeader, CBlock}
use mutiny_net.Messages.Write.{ser_compact_size, ser_entries, ser_vector, ser_header, ser_block}
use mutiny_net.Messages.Read.{deser_vector, deser_block}
use mutiny_net.Messages.Parts.{Reads-vector-All}
use mutiny_net.Messages.RoundTrip.{as_read, HaveInputs, Reads-block}
use mutiny_net.Block.{uint256_from_str, header_hash, rehash_header}
use mutiny_net.Compact.Make.{copy_header}
use mutiny_net.Protocol
use mutiny_net.Protocol.Write.{blocks_of, ser_headers}
use mutiny_net.Protocol.Map.{headers_of, deser_headers}

abbrev pub cleared : CBlockHeader → CBlockHeader
cleared h = record h { block_sha256 = none }

abbrev received_block : CBlock → CBlock
received_block b = record { header = cleared b.header; vtx = map as_read b.vtx }

-- Both parts of what was written
+>-eq-ok :
    (m n : Result (List ℕ)) (s : List ℕ)
    → (m +> n) ≡ ok s
    → ((x : List ℕ) × (m ≡ ok x)) × ((y : List ℕ) × (n ≡ ok y))
+>-eq-ok (ok x) (ok y) s e = ((x, refl), (y, refl))
+>-eq-ok (ok x) (err z) s e = cc
+>-eq-ok (err z) n s e = cc

-- A header with its hash, if it has one
unfoldable pub with_hash : CBlockHeader → Result ℕ → CBlockHeader
with_hash h (ok v) = record h { block_sha256 = some v }
with_hash h (err e) = h

module _ (hash256 : List ℕ → List ℕ) where
  unfoldable pub hashed : CBlockHeader → CBlockHeader
  unfolding header_hash with_hash
  hashed h = with_hash (cleared h) (header_hash hash256 (cleared h))

  abbrev HasHash : CBlockHeader → Type 0
  HasHash h = (v : ℕ) × (header_hash hash256 (cleared h) ≡ ok v)

  copy_header-cleared :
      (h : CBlockHeader) → HasHash h → copy_header hash256 (cleared h) ≡ ok (hashed h)
  unfolding copy_header rehash_header hashed
  copy_header-cleared h (v, e) = rw e refl

  -- The copy differs in the cached hash alone.
  cleared-rehash_header :
      (h h' : CBlockHeader) → rehash_header hash256 h ≡ ok h' → cleared h' ≡ cleared h
  unfolding rehash_header
  cleared-rehash_header h h' e =
      let (v, _, f) = >>=-eq-ok (header_hash hash256 h) _ e in ap cleared (sym (ok-injective f))

  cleared-copy_header :
      (h h' : CBlockHeader) → copy_header hash256 h ≡ ok h' → cleared h' ≡ cleared h
  unfolding copy_header
  cleared-copy_header h h' e = elim (Option-cases h.block_sha256) [
    | inl n ↦ cleared-rehash_header h h' (rw n at e)
    | inr (v, n) ↦ ap cleared (sym (ok-injective (rw n at e)))
  ]

  ser_block-HasHash : (b : CBlock) (s : List ℕ) → ser_block b ≡ ok s → HasHash b.header
  unfolding ser_block header_hash ser_header
  ser_block-HasHash b s e =
      let ((x, written), _) = +>-eq-ok (ser_header b.header) _ s e in
      (uint256_from_str (hash256 x), rw written refl)

  entries-HaveHash :
      (bs : List CBlock) (s : List ℕ)
      → ser_entries ser_block bs ≡ ok s
      → All (λ b. HasHash b.header) bs
  unfolding ser_entries
  entries-HaveHash [] s e = tt
  entries-HaveHash (b ∷ bs) s e =
      let ((x, first), (y, rest)) = +>-eq-ok (ser_block b) (ser_entries ser_block bs) s e in
      (ser_block-HasHash b x first, entries-HaveHash bs y rest)

  headers_of-received :
      (bs : List CBlock) (rest : List ℕ)
      → All (λ b. HasHash b.header) bs
      → headers_of (copy_header hash256) (map received_block bs) rest
        ≡ ok (map (λ b. hashed b.header) bs, rest)
  unfolding headers_of call
  headers_of-received [] rest h = refl
  headers_of-received (b ∷ bs) rest (h, hs) =
      >>=-of (call (copy_header hash256 (cleared b.header))) _ rest
        (call-of _ rest (copy_header-cleared b.header h))
      ∙ >>=-of (headers_of (copy_header hash256) (map received_block bs)) _ rest
          (headers_of-received bs rest hs)

  hashed-copy_header : (h h' : CBlockHeader) → copy_header hash256 h ≡ ok h' → hashed h' ≡ hashed h
  unfolding hashed
  hashed-copy_header h h' e =
      ap (λ (c : CBlockHeader). with_hash c (header_hash hash256 c)) (cleared-copy_header h h' e)

  -- The headers of the blocks are those that they were made of, and the blocks are empty.
  headers_of_blocks :
      (hs : List CBlockHeader) (bs : List CBlock)
      → blocks_of (copy_header hash256) hs ≡ ok bs
      → map (λ b. hashed b.header) bs ≡ map hashed hs
  unfolding blocks_of
  headers_of_blocks [] bs e = ap (map (λ b. hashed b.header)) (sym (ok-injective e))
  headers_of_blocks (h ∷ hs) bs e =
      let (h', a, f) = >>=-eq-ok (copy_header hash256 h) _ e in
      let (rest, b, g) = >>=-eq-ok (blocks_of (copy_header hash256) hs) _ f in
      ap (map (λ b. hashed b.header)) (sym (ok-injective g))
      ∙ (λ i. ◌∷◌ (hashed-copy_header h h' a i) (headers_of_blocks hs rest b i))

  blocks_of-empty :
      (hs : List CBlockHeader) (bs : List CBlock)
      → blocks_of (copy_header hash256) hs ≡ ok bs
      → All (λ b. HaveInputs b.vtx) bs
  unfolding blocks_of
  blocks_of-empty [] bs e = subst (All (λ b. HaveInputs b.vtx)) (ok-injective e) tt
  blocks_of-empty (h ∷ hs) bs e =
      let (h', a, f) = >>=-eq-ok (copy_header hash256 h) _ e in
      let (rest, b, g) = >>=-eq-ok (blocks_of (copy_header hash256) hs) _ f in
      subst (All (λ b. HaveInputs b.vtx)) (ok-injective g) (tt, blocks_of-empty hs rest b)

  -- The headers that are received have their hashes.
  pub Parses-headers :
      (m : Protocol.MsgHeaders)
      → Parses
          (ser_headers (copy_header hash256) m)
          (deser_headers (copy_header hash256))
          (record { headers = map hashed m.headers })
  unfolding ser_headers deser_headers ser_vector call
  Parses-headers m = record {
    back = λ s rest e.
        let (bs, made, written) = >>=-eq-ok (blocks_of (copy_header hash256) m.headers) _ e in
        let (_, (y, entries)) =
          +>-eq-ok (ser_compact_size (length bs)) (ser_entries ser_block bs) s written in
        let read =
          (Reads-vector-All Reads-block bs (blocks_of-empty m.headers bs made)).back s rest
            written in
        >>=-of (always (deser_vector deser_block)) _ (s ++ rest) (unfold always in ap ok read)
        ∙ >>=-of (headers_of (copy_header hash256) (map received_block bs)) _ rest
            (headers_of-received bs rest (entries-HaveHash bs y entries))
        ∙ ap
            (λ (l : List CBlockHeader).
              let r : Result (Protocol.MsgHeaders × List ℕ) = ok (record { headers = l }, rest) in
              r)
            (headers_of_blocks m.headers bs made);
  }
