-- ===== src/Reward/Tests.antt =====
-- The reward address with a ranged and with a fixed descriptor.
use mutiny_net.Prelude.{ℕ, ◌≡◌, refl, none, some, List, [], ◌∷◌}
use mutiny_net.Prelude.Result.{Result, ok}
use mutiny_net.Reward.{Derived, Payto, lookup, has_star, get_reward_addr_spk}
use mutiny_net.Reward.Cache.{
  range_of, IsConsistent, IsRanged, ranged_payto, get_reward_addr_spk-ranged,
}
use mutiny_net.Reward.Fixed.{first_of, kept, get_reward_addr_spk-fixed}

-- A node whose addresses are their indices and whose scripts prefix an address.
abbrev addr_at : ℕ → List ℕ
addr_at k = k ∷ []

abbrev derive : List ℕ → Result (List (List ℕ))
derive d = ok (addr_at 5 ∷ [])

unfoldable derive_range : List ℕ → ℕ → ℕ → Result (List (List ℕ))
unfolding range_of
derive_range d lo hi = ok (range_of addr_at lo 21)

abbrev script : List ℕ → Result (List ℕ)
script a = ok (0x51 ∷ a)

abbrev star : List ℕ
star = b'w' ∷ b'*' ∷ []

node-IsRanged : IsRanged derive derive_range script star addr_at (λ k. 0x51 ∷ addr_at k)
unfolding derive_range has_star
node-IsRanged = record { starred = refl; replies = λ lo. refl; scripts = λ k. refl }

nothing-IsConsistent : IsConsistent addr_at []
unfolding lookup
nothing-IsConsistent = record { at_height = λ k a e. absurd (cc e) }

get_reward_addr_spk-ranged_example :
    (m : Derived) × (get_reward_addr_spk derive derive_range script
        (ranged_payto derive derive_range script star addr_at (λ k. 0x51 ∷ addr_at k) [])
        7
      ≡ ok (
        ranged_payto derive derive_range script star addr_at (λ k. 0x51 ∷ addr_at k) m,
        some (7 ∷ []),
        0x51 ∷ 7 ∷ [],
      ))
    × IsConsistent addr_at m
get_reward_addr_spk-ranged_example =
    get_reward_addr_spk-ranged derive derive_range script star addr_at (λ k. 0x51 ∷ addr_at k) [] 7
      node-IsRanged nothing-IsConsistent

abbrev plain : Payto
plain = record { address = none; descriptor = some (b'w' ∷ []); reward_spk = none; derived = [] }

get_reward_addr_spk-fixed_example :
    (get_reward_addr_spk derive derive_range script plain 9
      ≡ ok (
        kept derive derive_range script plain (5 ∷ []) (0x51 ∷ 5 ∷ []),
        some (5 ∷ []),
        0x51 ∷ 5 ∷ [],
      ))
    × ((derive' : List ℕ → Result (List (List ℕ)))
          (derive_range' : List ℕ → ℕ → ℕ → Result (List (List ℕ)))
          (script' : List ℕ → Result (List ℕ)) (height' : ℕ)
        → get_reward_addr_spk derive' derive_range' script'
            (kept derive derive_range script plain (5 ∷ []) (0x51 ∷ 5 ∷ []))
            height'
          ≡ ok (
            kept derive derive_range script plain (5 ∷ []) (0x51 ∷ 5 ∷ []),
            some (5 ∷ []),
            0x51 ∷ 5 ∷ [],
          ))
unfolding has_star
get_reward_addr_spk-fixed_example =
    get_reward_addr_spk-fixed derive derive_range script plain (5 ∷ []) (0x51 ∷ 5 ∷ []) 9
      (first_of (b'w' ∷ []) [] refl refl refl refl) refl refl
