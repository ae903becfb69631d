-- ===== src/Reward/Fixed.antt =====
-- An address that is fixed: its script is asked for once.
use mutiny_net.Prelude.{ℕ, ◌≡◌, refl, ap, Option, none, some, List, ◌∷◌, false}
use mutiny_net.Prelude.Result.{Result, ok}
use mutiny_net.Reward.{
  Payto, has_star, reward_addr, get_reward_addr_spk, is_some, keep_script, first_of_list,
}

module _ (derive : List ℕ → Result (List (List ℕ)))
    (derive_range : List ℕ → ℕ → ℕ → Result (List (List ℕ)))
    (script : List ℕ → Result (List ℕ)) where
  -- The arguments fix the address `a`: they name it, or a descriptor without a range whose first
  -- address it is.
  pub data Fixes (p : Payto) (a : List ℕ) : Type 0 where
    named : p.address ≡ some a → Fixes p a
    first_of :
        (d : List ℕ) (rest : List (List ℕ))
        → p.address ≡ none
        → p.descriptor ≡ some d
        → has_star d ≡ false
        → derive d ≡ ok (a ∷ rest)
        → Fixes p a

  abbrev pub kept : Payto → List ℕ → List ℕ → Payto
  kept p a spk = record p { address = some a; reward_spk = some spk }

  reward_addr-fixed :
      (p : Payto) (a : List ℕ) (height : ℕ)
      → Fixes p a
      → reward_addr derive derive_range script p height ≡ ok (record p { address = some a }, a)
  unfolding reward_addr first_of_list
  reward_addr-fixed p a height (named e) = rw e refl
  reward_addr-fixed p a height (first_of d rest e q s r) =
      rw (e, q, s, r)
        (ap (λ (x : Option (List ℕ)). ok (record p { address = some a; descriptor = x }, a)) q)

  -- If the arguments fix an address and its script is known to the node, a first call gives the two
  -- and keeps them; every later call gives them again, for every height and whatever the node would
  -- reply by then, and changes nothing.
  pub get_reward_addr_spk-fixed :
      (p : Payto) (a spk : List ℕ) (height : ℕ)
      → Fixes p a
      → p.reward_spk ≡ none
      → script a ≡ ok spk
      → (get_reward_addr_spk derive derive_range script p height ≡ ok (kept p a spk, some a, spk))
        × ((derive' : List ℕ → Result (List (List ℕ)))
              (derive_range' : List ℕ → ℕ → ℕ → Result (List (List ℕ)))
              (script' : List ℕ → Result (List ℕ)) (height' : ℕ)
            → get_reward_addr_spk derive' derive_range' script' (kept p a spk) height'
              ≡ ok (kept p a spk, some a, spk))
  unfolding get_reward_addr_spk keep_script is_some
  get_reward_addr_spk-fixed p a spk height f n s =
      (first f, λ derive' derive_range' script' height'. refl)
    where
      first :
          Fixes p a
          → get_reward_addr_spk derive derive_range script p height ≡ ok (kept p a spk, some a, spk)
      first (named e) = rw (n, reward_addr-fixed p a height (named e), s, e) refl
      first (first_of d rest e q st r) =
          rw (n, reward_addr-fixed p a height (first_of d rest e q st r), s, e, q) refl
