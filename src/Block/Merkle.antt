-- ===== src/Block/Merkle.antt =====
-- Cached identifiers and the Merkle root.
use mutiny_net.Prelude.{ℕ, ◌≡◌, refl, ap, ◌∙◌, subst, Option, none, some, List, [], ◌∷◌}
use mutiny_net.Prelude.Result.{ok, >>=-eq-ok, ok-injective}
use mutiny_net.Messages.{CTransaction}
use mutiny_net.Block.{txid, known_sha256, calc_sha256, leaves, on_each}

module _ (hash256 : List ℕ → List ℕ) where
  -- A cached identifier is that of the transaction.
  pub record IsRight (tx : CTransaction) : Type 0 where
    pub cached : (h : ℕ) → tx.sha256 ≡ some h → txid hash256 tx ≡ ok h

  abbrev pub EachRight : List CTransaction → Type 0
  EachRight [] = Unit
  EachRight (tx ∷ vtx) = IsRight tx × EachRight vtx

  -- The same transactions, each with its identifier cached.
  pub data Hashed : List CTransaction → List CTransaction → Type 0 where
    done : Hashed [] []
    next :
        (tx : CTransaction) (h : ℕ) (vtx vtx' : List CTransaction)
        → txid hash256 tx ≡ ok h
        → Hashed vtx vtx'
        → Hashed (tx ∷ vtx) (record tx { sha256 = some h } ∷ vtx')

  known_sha256-IsRight :
      (tx : CTransaction) (h : ℕ)
      → IsRight tx
      → known_sha256 hash256 tx ≡ ok h
      → txid hash256 tx ≡ ok h
  unfolding txid known_sha256
  known_sha256-IsRight tx h r e = cases tx.sha256 refl
    where
      cases : (o : Option ℕ) → tx.sha256 ≡ o → txid hash256 tx ≡ ok h
      cases none q = rw (q, known_sha256) at e
      cases (some k) q = r.cached k q ∙ rw (q, known_sha256) at e

  pub on_each-Hashed :
      (vtx vtx' : List CTransaction)
      → EachRight vtx
      → on_each (calc_sha256 hash256) vtx ≡ ok vtx'
      → Hashed vtx vtx'
  unfolding on_each calc_sha256
  on_each-Hashed [] vtx' r e = subst (Hashed []) (ok-injective e) done
  on_each-Hashed (tx ∷ vtx) vtx' (r, rs) e =
      let (tx', e₁, e₂) = >>=-eq-ok (calc_sha256 hash256 tx) _ e in
      let (rest, e₃, e₄) = >>=-eq-ok (on_each (calc_sha256 hash256) vtx) _ e₂ in
      let (h, k, e₅) = >>=-eq-ok (known_sha256 hash256 tx) _ e₁ in
      let made =
        next tx h vtx rest (known_sha256-IsRight tx h r k) (on_each-Hashed vtx rest rs e₃) in
      let same : record tx { sha256 = some h } ∷ rest ≡ vtx' =
        ap (λ (t : CTransaction). t ∷ rest) (ok-injective e₅) ∙ ok-injective e₄ in
      subst (Hashed (tx ∷ vtx)) same made

  -- The identifiers that are found cached are those that would be computed.
  pub leaves-Hashed :
      (vtx vtx' : List CTransaction)
      → Hashed vtx vtx'
      → leaves (known_sha256 hash256) vtx' ≡ leaves (txid hash256) vtx
  unfolding leaves known_sha256
  leaves-Hashed _ _ done = refl
  leaves-Hashed _ _ (next t h v v' e r) = rw (e, leaves-Hashed v v' r) refl
