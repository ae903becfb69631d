-- ===== src/Reward.antt =====
-- `get_reward_addr_spk` of `miner`: the address of the block reward and its script, with the caches
-- that the arguments keep. The node's replies to `deriveaddresses` and `getaddressinfo` are
-- parameters. An address, a descriptor and a script are lists of code points or bytes.
pub mod Cache
pub mod Fixed
pub mod Tests
use mutiny_net.Prelude.{
  ℕ, zero, suc, ◌+◌, Option, none, some, List, [], ◌∷◌, ◌++◌, Bool, true, false, leb, ◌==◌, ◌||◌,
  if◌then◌else◌,
}
use mutiny_net.Prelude.Result.{
  Result, ok, err, assertion_error, key_error, index_error, ◌>>=◌, ◌>>◌, guard,
}

-- `args.derived_addresses`
abbrev pub Derived : Type 0
Derived = List (ℕ × List ℕ)

unfoldable pub lookup : ℕ → Derived → Option (List ℕ)
lookup k [] = none
lookup k ((j, a) ∷ m) = if j == k then some a else lookup k m

unfoldable pub insert : ℕ → List ℕ → Derived → Derived
insert k a [] = (k, a) ∷ []
insert k a ((j, b) ∷ m) = if j == k then (k, a) ∷ m else (j, b) ∷ insert k a m

-- The state of the method: the arguments `address` and `descriptor`, and what it caches.
pub record Payto : Type 0 where
  pub address : Option (List ℕ)
  pub descriptor : Option (List ℕ)
  pub reward_spk : Option (List ℕ)
  pub derived : Derived

-- `remove = [k for k in keys if k+20 <= height]`, and their deletion
unfoldable pub evict : ℕ → Derived → Derived
evict height [] = []
evict height ((k, a) ∷ m) =
    let rest = evict height m in if leb (k + 20) height then rest else (k, a) ∷ rest

-- `for k, a in enumerate(addrs): args.derived_addresses[height+k] = a`
unfoldable pub store_all : ℕ → List (List ℕ) → Derived → Derived
unfolding insert
store_all k [] m = m
store_all k (a ∷ addrs) m = store_all (suc k) addrs (insert k a m)

-- `'*' in descriptor`
unfoldable pub has_star : List ℕ → Bool
has_star [] = false
has_star (c ∷ s) = c == b'*' || has_star s

-- `addrs[0]`
unfoldable pub first_of_list : List (List ℕ) → Result (List ℕ)
first_of_list [] = err index_error
first_of_list (a ∷ addrs) = ok a

unfoldable pub found : Option (List ℕ) → Result (List ℕ)
found none = err key_error
found (some a) = ok a

unfoldable pub is_some {ℓ} : {A : Type ℓ} → Option A → Bool
is_some none = false
is_some (some a) = true

-- `if args.address is not None: args.reward_spk = reward_spk`: the script of one address for good
unfoldable pub keep_script : Payto → List ℕ → Payto
unfolding is_some
keep_script p spk = if is_some p.address then record p { reward_spk = some spk } else p

-- `derive d` and `derive_range d lo hi` are the replies for a descriptor without and with a range;
-- `script` is the script of an address.
module _ (derive : List ℕ → Result (List (List ℕ)))
    (derive_range : List ℕ → ℕ → ℕ → Result (List (List ℕ)))
    (script : List ℕ → Result (List ℕ)) where
  -- The cache of a ranged descriptor for a height: old heights go, and a missing height brings the
  -- addresses of the next twenty-one.
  unfoldable pub refill : List ℕ → ℕ → Derived → Result Derived
  unfolding evict lookup store_all
  refill descriptor height m =
      let kept = evict height m in
      elim (lookup height kept) [
        | some a ↦ ok kept
        | none ↦ do
          addrs ← derive_range descriptor height (height + 20)
          ok (store_all height addrs kept)
      ]

  -- `if args.address is not None: … elif '*' not in args.descriptor: … else: …`
  unfoldable pub reward_addr : Payto → ℕ → Result (Payto × List ℕ)
  unfolding has_star first_of_list refill found
  reward_addr p height = elim p.address [
    | some a ↦ ok (p, a)
    | none ↦ elim p.descriptor [
      | none ↦ err assertion_error
      | some d ↦
          if has_star d
          then (do
            m ← refill d height p.derived
            a ← found (lookup height m)
            ok (record p { derived = m }, a))
          else (do addrs ← derive d; a ← first_of_list addrs; ok (record p { address = some a }, a))
    ]
  ]

  -- The whole method.
  unfoldable pub get_reward_addr_spk : Payto → ℕ → Result (Payto × Option (List ℕ) × List ℕ)
  unfolding reward_addr is_some keep_script
  get_reward_addr_spk p height = do
    guard (is_some p.address || is_some p.descriptor) assertion_error
    elim p.reward_spk [
      | some spk ↦ ok (p, p.address, spk)
      | none ↦ do
        (p', a) ← reward_addr p height
        spk ← script a
        ok (keep_script p' spk, some a, spk)
    ]
