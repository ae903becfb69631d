-- ===== src/Binana/Fields.antt =====
-- The three fields of an identifier do not overlap, and the two signals keep it apart from the
-- version bits on top.
use mutiny_net.Prelude.{ℕ, ◌+◌, ◌*◌, ◌/◌, ◌%◌, ◌^◌, ◌<◌, ◌≡◌, ◌≢◌, ap, ◌∙◌, arith, bit_or}
use mutiny_net.Prelude.Int.{ℤ, pos, mod_ℕ, mod_ℕ-lt}
use mutiny_net.Prelude.Bits.{bit_or-disjoint}
use mutiny_net.Binana.{binana_id, signal_activate, signal_abandon}

binana_id-sum :
    (year number revision : ℤ)
    → binana_id year number revision
      ≡ (mod_ℕ year 32 * 2 ^ 14 + mod_ℕ number 16384) * 2 ^ 8 + mod_ℕ revision 256
unfolding binana_id
binana_id-sum year number revision =
    let y : ℕ = mod_ℕ year 32 in
    let n : ℕ = mod_ℕ number 16384 in
    let inner : bit_or (y * 2 ^ 22) (n * 2 ^ 8) ≡ (y * 2 ^ 14 + n) * 2 ^ 8 =
      bit_or-disjoint 22 y (n * 2 ^ 8) (omega (arith, mod_ℕ-lt number 16384 (omega arith)))
      ∙ omega arith in
    ap (λ (t : ℕ). bit_or t (mod_ℕ revision 256)) inner
    ∙ bit_or-disjoint 8 (y * 2 ^ 14 + n) (mod_ℕ revision 256) (mod_ℕ-lt revision 256 (omega arith))

-- The identifier holds the year in five bits, the number in fourteen and the revision in eight,
-- each reduced to its width, and nothing else.
pub binana_id-fields :
    (year number revision : ℤ)
    → (binana_id year number revision / 2 ^ 22 ≡ mod_ℕ year 32)
      × (binana_id year number revision / 2 ^ 8 % 2 ^ 14 ≡ mod_ℕ number 16384)
      × (binana_id year number revision % 2 ^ 8 ≡ mod_ℕ revision 256)
binana_id-fields year number revision =
    let n = mod_ℕ-lt number 16384 (omega arith) in
    let r = mod_ℕ-lt revision 256 (omega arith) in
    let e = binana_id-sum year number revision in (omega arith, omega arith, omega arith)

pub binana_id-lt : (year number revision : ℤ) → binana_id year number revision < 2 ^ 27
binana_id-lt year number revision = omega (
  arith,
  mod_ℕ-lt year 32 (omega arith),
  mod_ℕ-lt number 16384 (omega arith),
  mod_ℕ-lt revision 256 (omega arith),
  binana_id-sum year number revision,
)

-- A signal is its version bits and the identifier, side by side: below bit 29 stands the
-- identifier, above it 3 to activate and 2 to abandon. Both fit a positive `int32_t`.
signals-fields :
    (bid : ℕ)
    → bid < 2 ^ 27
    → (signal_activate bid ≡ 3 * 2 ^ 29 + bid)
      × (signal_abandon bid ≡ 2 * 2 ^ 29 + bid)
      × (signal_activate bid < 2 ^ 31)
      × (signal_abandon bid < 2 ^ 31)
unfolding signal_activate signal_abandon
signals-fields bid h =
    let a = bit_or-disjoint 29 3 bid (omega arith) in
    let b = bit_or-disjoint 29 2 bid (omega arith) in
    (omega arith, omega arith, omega arith, omega arith)

-- Two deployments whose fields are in range activate by the same version only if they are the same.
signal_activate-injective :
    (y n r y' n' r' : ℕ)
    → y < 32
    → n < 16384
    → r < 256
    → y' < 32
    → n' < 16384
    → r' < 256
    → signal_activate (binana_id (pos y) (pos n) (pos r))
      ≡ signal_activate (binana_id (pos y') (pos n') (pos r'))
    → (y ≡ y') × (n ≡ n') × (r ≡ r')
signal_activate-injective y n r y' n' r' hy hn hr hy' hn' hr' e =
    let s = (signals-fields _ (binana_id-lt (pos y) (pos n) (pos r))).0 in
    let s' = (signals-fields _ (binana_id-lt (pos y') (pos n') (pos r'))).0 in
    let i = binana_id-sum (pos y) (pos n) (pos r) in
    let i' = binana_id-sum (pos y') (pos n') (pos r') in (omega arith, omega arith, omega arith)

-- No version activates one deployment and abandons another.
activate-ne-abandon :
    (y n r y' n' r' : ℤ) → signal_activate (binana_id y n r) ≢ signal_abandon (binana_id y' n' r')
activate-ne-abandon y n r y' n' r' e =
    let lt = binana_id-lt y n r in
    let lt' = binana_id-lt y' n' r' in
    omega (arith, (signals-fields _ lt).0, (signals-fields _ lt').1)
