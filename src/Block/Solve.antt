-- ===== src/Block/Solve.antt =====
-- The search for a nonce.
use mutiny_net.Prelude.{
  ℕ, zero, suc, ◌+◌, ◌^◌, ◌≡◌, ◌<◌, ◌≤◌, refl, subst, arith, some, List, Bool, true, false, leb,
  ◌==◌, Bool-cases, inl, inr,
}
use mutiny_net.Prelude.Result.{Exception, Result, ok, err, ok-injective}
use mutiny_net.Messages.{CBlockHeader}
use mutiny_net.Block.{header_hash, uint256_from_compact, nonces, solve_from, solve}

nonces-gt : 2 ^ 32 < nonces
unfolding nonces
nonces-gt = omega arith

module _ (hash256 : List ℕ → List ℕ) where
  -- The header `h'` is `h` with the first nonce, from that of `h` on, whose hash meets the target;
  -- the hash is cached.
  pub record IsFirst (target : ℕ) (h h' : CBlockHeader) : Type 0 where
    pub value : ℕ
    pub header : h' ≡ record h { n_nonce = h'.n_nonce; block_sha256 = some value }
    pub hashed : header_hash hash256 h' ≡ ok value
    pub meets : value ≤ target
    pub beyond :
        (m : ℕ)
        → h.n_nonce ≤ m
        → m < h'.n_nonce
        → (w : ℕ) × (header_hash hash256 (record h { n_nonce = m }) ≡ ok w) × (target < w)

  found :
      (target : ℕ) (h h' : CBlockHeader) (v : ℕ)
      → header_hash hash256 h ≡ ok v
      → v ≤ target
      → record h { block_sha256 = some v } ≡ h'
      → IsFirst target h h'
  unfolding header_hash
  found target h h' v q l e = subst (IsFirst target h) e (record {
    value = v;
    header = refl;
    hashed = q;
    meets = l;
    beyond = λ m lo hi. absurd (omega arith);
  })

  later :
      (target : ℕ) (h h' : CBlockHeader) (v : ℕ)
      → header_hash hash256 h ≡ ok v
      → target < v
      → IsFirst target (record h { n_nonce = suc h.n_nonce }) h'
      → IsFirst target h h'
  later target h h' v q l r = record {
    value = r.value;
    header = r.header;
    hashed = r.hashed;
    meets = r.meets;
    beyond = before;
  }
    where
      before :
          (m : ℕ)
          → h.n_nonce ≤ m
          → m < h'.n_nonce
          → (w : ℕ) × (header_hash hash256 (record h { n_nonce = m }) ≡ ok w) × (target < w)
      before m lo hi = elim (Bool-cases (h.n_nonce == m)) [
        | inl e ↦
            let i : h.n_nonce ≡ m = ground arith in
            (v, subst (λ (k : ℕ). header_hash hash256 (record h { n_nonce = k }) ≡ ok v) i q, l)
        | inr e ↦ r.beyond m (ground arith) hi
      ]

  solve_from-IsFirst :
      (fuel target : ℕ) (h h' : CBlockHeader)
      → solve_from hash256 fuel target h ≡ ok h'
      → IsFirst target h h'
  unfolding solve_from
  solve_from-IsFirst zero target h h' e = absurd (cc e)
  solve_from-IsFirst (suc fuel) target h h' e =
      hashed (header_hash hash256 h) refl
        (solve_from-IsFirst fuel target (record h { n_nonce = suc h.n_nonce }) h')
    where
      go :
          (v : ℕ)
          → header_hash hash256 h ≡ ok v
          → (solve_from hash256 fuel target (record h { n_nonce = suc h.n_nonce }) ≡ ok h'
              → IsFirst target (record h { n_nonce = suc h.n_nonce }) h')
          → (b : Bool) → leb v target ≡ b
          → elim b as (λ c. Result CBlockHeader) [
            | true ↦ ok (record h { block_sha256 = some v })
            | false ↦ solve_from hash256 fuel target (record h { n_nonce = suc h.n_nonce })
          ]
            ≡ ok h'
          → IsFirst target h h'
      go v q ih true l k = found target h h' v q (ground arith) (ok-injective k)
      go v q ih false l k = later target h h' v q (ground arith) (ih k)

      hashed :
          (r : Result ℕ)
          → header_hash hash256 h ≡ r
          → (solve_from hash256 fuel target (record h { n_nonce = suc h.n_nonce }) ≡ ok h'
              → IsFirst target (record h { n_nonce = suc h.n_nonce }) h')
          → IsFirst target h h'
      hashed (err x) q ih = absurd (cc (rw (q, solve_from) at e))
      hashed (ok v) q ih = go v q ih (leb v target) refl (rw (q, solve_from) at e)

  -- If `solve` gives a header, it is the given one with the first nonce, from the given one on, whose
  -- hash meets the target of the header's compact form, and the hash of the result is cached.
  pub solve-IsFirst :
      (h h' : CBlockHeader)
      → solve hash256 h ≡ ok h'
      → (target : ℕ) × (uint256_from_compact h.n_bits ≡ ok target) × IsFirst target h h'
  unfolding solve
  solve-IsFirst h h' e = hashed (header_hash hash256 h) refl (uint256_from_compact h.n_bits) refl
    where
      hashed :
          (r : Result ℕ)
          → header_hash hash256 h ≡ r
          → (t : Result ℕ) → uint256_from_compact h.n_bits ≡ t
          → (target : ℕ) × (uint256_from_compact h.n_bits ≡ ok target) × IsFirst target h h'
      hashed (err x) q t u = absurd (cc (rw (q, solve) at e))
      hashed (ok v) q (err x) u = absurd (cc (rw u at (rw (q, solve) at e)))
      hashed (ok v) q (ok target) u =
          (target, u, solve_from-IsFirst nonces target h h' (rw u at (rw (q, solve) at e)))

  -- The header can be written with every nonce of four bytes.
  pub record IsWritable (h : CBlockHeader) : Type 0 where
    pub hash_at :
        (m : ℕ) → m < 2 ^ 32 → (w : ℕ) × (header_hash hash256 (record h { n_nonce = m }) ≡ ok w)

  abbrev Misses : ℕ → CBlockHeader → ℕ → Type 0
  Misses target h m =
      (w : ℕ) × (header_hash hash256 (record h { n_nonce = m }) ≡ ok w) × (target < w)

  solve_from-miss :
      (fuel target : ℕ) (h : CBlockHeader) (x : Exception) (w : ℕ)
      → header_hash hash256 h ≡ ok w
      → solve_from hash256 (suc fuel) target h ≡ err x
      → (target < w)
        × (solve_from hash256 fuel target (record h { n_nonce = suc h.n_nonce }) ≡ err x)
  unfolding solve_from
  solve_from-miss fuel target h x w q e = go (leb w target) refl (rw (q, solve_from) at e)
    where
      go :
          (b : Bool)
          → leb w target ≡ b
          → elim b as (λ c. Result CBlockHeader) [
            | true ↦ ok (record h { block_sha256 = some w })
            | false ↦ solve_from hash256 fuel target (record h { n_nonce = suc h.n_nonce })
          ]
            ≡ err x
          → (target < w)
            × (solve_from hash256 fuel target (record h { n_nonce = suc h.n_nonce }) ≡ err x)
      go true l k = absurd (cc k)
      go false l k = (ground arith, k)

  solve_from-err :
      (fuel target : ℕ) (h : CBlockHeader) (x : Exception)
      → IsWritable h
      → 2 ^ 32 < h.n_nonce + fuel
      → solve_from hash256 fuel target h ≡ err x
      → (m : ℕ) → h.n_nonce ≤ m
      → m < 2 ^ 32
      → Misses target h m
  solve_from-err zero target h x wr l e m lo hi = absurd (omega arith)
  solve_from-err (suc fuel) target h x wr l e m lo hi =
      let (w, q) = wr.hash_at h.n_nonce (omega arith) in
      let (miss, rest) = solve_from-miss fuel target h x w q e in
      elim (Bool-cases (h.n_nonce == m)) [
        | inl s ↦ let i : h.n_nonce ≡ m = ground arith in subst (Misses target h) i (w, q, miss)
        | inr s ↦
            solve_from-err fuel target (record h { n_nonce = suc h.n_nonce }) x
              (record { hash_at = wr.hash_at }) (omega arith) rest m (ground arith) hi
      ]

  -- If a header can be written with every nonce of four bytes and its compact form has a target, and
  -- `solve` raises, then no nonce of four bytes, from the given one on, meets the target.
  pub solve-err :
      (h : CBlockHeader) (target : ℕ) (x : Exception)
      → IsWritable h
      → uint256_from_compact h.n_bits ≡ ok target
      → solve hash256 h ≡ err x
      → (m : ℕ) → h.n_nonce ≤ m
      → m < 2 ^ 32
      → (w : ℕ) × (header_hash hash256 (record h { n_nonce = m }) ≡ ok w) × (target < w)
  unfolding solve
  solve-err h target x wr t e m lo hi =
      let (v, q) = wr.hash_at h.n_nonce (omega arith) in
      solve_from-err nonces target h x wr (omega (arith, nonces-gt)) (rw t at (rw (q, solve) at e))
        m lo hi
