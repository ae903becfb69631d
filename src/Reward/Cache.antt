-- ===== src/Reward/Cache.antt =====
-- The caches of the reward address change no result.
use mutiny_net.Prelude.{
  ℕ, zero, suc, ◌+◌, ◌≡◌, refl, ap, ◌∙◌, arith, none, some, List, [], ◌∷◌, true, false, leb, ◌==◌,
  if◌then◌else◌, Option-cases, inl, inr, Bool-cases, ◌⊎◌,
}
use mutiny_net.Prelude.Result.{Result, ok}
use mutiny_net.Reward.{
  Derived, lookup, insert, Payto, evict, store_all, has_star, found, refill, reward_addr,
  get_reward_addr_spk, is_some, keep_script,
}

lookup-insert :
    (k j : ℕ) (a : List ℕ) (m : Derived)
    → lookup j (insert k a m) ≡ (if k == j then some a else lookup j m)
unfolding lookup insert
lookup-insert k j a [] = refl
lookup-insert k j a ((i, b) ∷ m) = ground (arith, lookup-insert k j a m)

lookup-evict :
    (h j : ℕ) (m : Derived) → lookup j (evict h m) ≡ (if leb (j + 20) h then none else lookup j m)
unfolding lookup evict
lookup-evict h j [] = ground arith
lookup-evict h j ((i, b) ∷ m) = ground (arith, lookup-evict h j m)

module _ (addr_at : ℕ → List ℕ) where
  -- The addresses of `n` heights from `k` on.
  unfoldable pub range_of : ℕ → ℕ → List (List ℕ)
  range_of k zero = []
  range_of k (suc n) = addr_at k ∷ range_of (suc k) n

  -- What is cached for a height is its address.
  pub record IsConsistent (m : Derived) : Type 0 where
    pub at_height : (k : ℕ) (a : List ℕ) → lookup k m ≡ some a → a ≡ addr_at k

  evict-IsConsistent : (h : ℕ) (m : Derived) → IsConsistent m → IsConsistent (evict h m)
  evict-IsConsistent h m c = record {
    at_height = λ k a e. c.at_height k a (ground (arith, lookup-evict h k m));
  }

  insert-IsConsistent :
      (k : ℕ) (m : Derived) → IsConsistent m → IsConsistent (insert k (addr_at k) m)
  insert-IsConsistent k m c = record { at_height = at_key }
    where
      at_key : (j : ℕ) (a : List ℕ) → lookup j (insert k (addr_at k) m) ≡ some a → a ≡ addr_at j
      at_key j a e = elim (Bool-cases (k == j)) [
        | inl same ↦
            let i : k ≡ j = ground arith in
            let first : a ≡ addr_at k = ground (arith, lookup-insert k j (addr_at k) m) in
            first ∙ ap addr_at i
        | inr other ↦ c.at_height j a (ground (arith, lookup-insert k j (addr_at k) m))
      ]

  store_all-IsConsistent :
      (n k : ℕ) (m : Derived) → IsConsistent m → IsConsistent (store_all k (range_of k n) m)
  unfolding store_all range_of
  store_all-IsConsistent zero k m c = c
  store_all-IsConsistent (suc n) k m c =
      store_all-IsConsistent n (suc k) (insert k (addr_at k) m) (insert-IsConsistent k m c)

  store_all-lookup :
      (n k h : ℕ) (m : Derived)
      → lookup h m ≡ some (addr_at h)
      → lookup h (store_all k (range_of k n) m) ≡ some (addr_at h)
  unfolding store_all range_of
  store_all-lookup zero k h m e = e
  store_all-lookup (suc n) k h m e =
      store_all-lookup n (suc k) h (insert k (addr_at k) m) (kept (Bool-cases (k == h)))
    where
      kept :
          ((k == h) ≡ true) ⊎ ((k == h) ≡ false)
          → lookup h (insert k (addr_at k) m) ≡ some (addr_at h)
      kept (inl same) =
          let i : k ≡ h = ground arith in
          let first : lookup h (insert k (addr_at k) m) ≡ some (addr_at k) =
            ground (arith, lookup-insert k h (addr_at k) m) in
          first ∙ ap (λ (t : ℕ). some (addr_at t)) i
      kept (inr other) = ground (arith, lookup-insert k h (addr_at k) m)

  store_all-first :
      (n h : ℕ) (m : Derived) → lookup h (store_all h (range_of h (suc n)) m) ≡ some (addr_at h)
  unfolding store_all range_of
  store_all-first n h m =
      store_all-lookup n (suc h) h (insert h (addr_at h) m)
        (ground (arith, lookup-insert h h (addr_at h) m))

module _ (derive : List ℕ → Result (List (List ℕ)))
    (derive_range : List ℕ → ℕ → ℕ → Result (List (List ℕ))) (script : List ℕ → Result (List ℕ))
    (descriptor : List ℕ) (addr_at spk_of : ℕ → List ℕ) where
  -- What a node documents of a ranged descriptor: `deriveaddresses` lists the addresses of all
  -- indices of the range, both ends included, and `getaddressinfo` gives the script of an address.
  pub record IsRanged : Type 0 where
    pub starred : has_star descriptor ≡ true
    pub replies : (lo : ℕ) → derive_range descriptor lo (lo + 20) ≡ ok (range_of addr_at lo 21)
    pub scripts : (k : ℕ) → script (addr_at k) ≡ ok (spk_of k)

  refill_lem :
      (height : ℕ) (m : Derived)
      → IsRanged
      → IsConsistent addr_at m
      → (m' : Derived) × (refill derive derive_range script descriptor height m ≡ ok m')
        × IsConsistent addr_at m'
        × (lookup height m' ≡ some (addr_at height))
  unfolding refill
  refill_lem height m r c =
      let kept : Derived = evict height m in
      let ck = evict-IsConsistent addr_at height m c in
      elim (Option-cases (lookup height kept)) [
        | inr (a, e) ↦ (kept, rw (e, refill) refl, ck, e ∙ ap some (ck.at_height height a e))
        | inl e ↦ (
          store_all height (range_of addr_at height 21) kept,
          rw (e, r.replies height, refill) refl,
          store_all-IsConsistent addr_at 21 height kept ck,
          store_all-first addr_at 20 height kept,
        )
      ]

  -- The state when the arguments name the ranged descriptor and no address.
  abbrev pub ranged_payto : Derived → Payto
  ranged_payto m = record {
    address = none;
    descriptor = some descriptor;
    reward_spk = none;
    derived = m;
  }

  reward_addr-ranged :
      (m : Derived) (height : ℕ)
      → IsRanged
      → IsConsistent addr_at m
      → (m' : Derived) × (reward_addr derive derive_range script (ranged_payto m) height
          ≡ ok (ranged_payto m', addr_at height))
        × IsConsistent addr_at m'
  unfolding reward_addr found
  reward_addr-ranged m height r c =
      let (m', e, k, l) = refill_lem height m r c in (m', rw (r.starred, e, l) refl, k)

  -- With a ranged descriptor and no address, if the node replies as documented and the cached
  -- addresses are right, the method gives the address with the index of the height and its script, and
  -- what it caches stays right.
  pub get_reward_addr_spk-ranged :
      (m : Derived) (height : ℕ)
      → IsRanged
      → IsConsistent addr_at m
      → (m' : Derived) × (get_reward_addr_spk derive derive_range script (ranged_payto m) height
          ≡ ok (ranged_payto m', some (addr_at height), spk_of height))
        × IsConsistent addr_at m'
  unfolding get_reward_addr_spk is_some keep_script
  get_reward_addr_spk-ranged m height r c =
      let (m', e, k) = reward_addr-ranged m height r c in (m', rw (e, r.scripts height) refl, k)
