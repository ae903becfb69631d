-- ===== src/Multiminer/Shares.antt =====
-- How a group of miners divides the blocks: each block has a slot of the period.
use mutiny_net.Prelude.{ℕ, suc, ◌%◌, ◌≤◌, ◌<◌, ◌≡◌, refl, ap, arith, List, [], ◌∷◌, if◌then◌else◌}
use mutiny_net.Multiminer.{Share, miner_draw, next_block_is_mine}
use native.Mathlib.Decide.{dec_lt}
use native.Mathlib.Nat.{mod-lt}

-- The shares lie side by side from slot `at` to the end of the period.
abbrev pub Tiles : ℕ → ℕ → List Share → Type 0
Tiles period at [] = at ≡ period
Tiles period at (m ∷ ms) =
    (m.period ≡ period) × (m.low ≡ at) × (m.low < m.high) × Tiles period m.high ms

-- The number of miners of a group that take a block as theirs.
unfoldable pub claims_of : List Share → List ℕ → ℕ
claims_of [] last_hash = 0
claims_of (m ∷ ms) last_hash =
    let rest = claims_of ms last_hash in if next_block_is_mine m last_hash then suc rest else rest

Tiles-le : (period at : ℕ) (ms : List Share) → Tiles period at ms → at ≤ period
Tiles-le period at [] h = omega arith
Tiles-le period at (m ∷ ms) (p, l, w, h) = omega (arith, Tiles-le period m.high ms h)

module _ (last_hash : List ℕ) where
  claims_before :
      (period at : ℕ) (ms : List Share)
      → Tiles period at ms
      → miner_draw last_hash % period < at
      → claims_of ms last_hash ≡ 0
  unfolding claims_of next_block_is_mine
  claims_before period at [] h lt = refl
  claims_before period at (m ∷ ms) (p, l, w, h) lt =
      let slot : miner_draw last_hash % m.period ≡ miner_draw last_hash % period =
        ap (λ (n : ℕ). miner_draw last_hash % n) p in
      ground (arith, slot, claims_before period m.high ms h (omega arith))

  claims_from :
      (period at : ℕ) (ms : List Share)
      → Tiles period at ms
      → at ≤ miner_draw last_hash % period
      → miner_draw last_hash % period < period
      → claims_of ms last_hash ≡ 1
  unfolding claims_of next_block_is_mine
  claims_from period at [] h le lt = absurd (omega arith)
  claims_from period at (m ∷ ms) (p, l, w, h) le lt =
      let slot : miner_draw last_hash % m.period ≡ miner_draw last_hash % period =
        ap (λ (n : ℕ). miner_draw last_hash % n) p in
      elim (dec_lt (miner_draw last_hash % period) m.high) [
        | yes here ↦ ground (arith, slot, claims_before period m.high ms h here)
        | no later ↦ ground (arith, slot, claims_from period m.high ms h (omega arith) lt)
      ]

  -- If the shares of a group tile a period that is not zero, every block belongs to exactly one of its
  -- miners.
  pub one_miner :
      (period : ℕ) (ms : List Share) → 0 < period → Tiles period 0 ms → claims_of ms last_hash ≡ 1
  one_miner period ms h t =
      claims_from period 0 ms t (omega arith) (mod-lt (miner_draw last_hash) h)
