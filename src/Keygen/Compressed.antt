-- ===== src/Keygen/Compressed.antt =====
-- The compressed form tells points of the curve apart.
use mutiny_net.Prelude.{
  ℕ, suc, ◌+◌, ◌%◌, ◌^◌, ◌<◌, ◌≡◌, refl, ap, sym, ◌∙◌, arith, List, Bool-cases, inl, inr, ◌==◌,
  length, drop, get_or,
}
use mutiny_net.Hex.{hex_padded, hex_value}
use mutiny_net.Hex.Print.{hex_value-hex_padded, length-hex_padded}
use mutiny_net.Keygen.{compressed}

drop-compressed : (x y : ℕ) → drop 2 (compressed x y) ≡ hex_padded 64 x
unfolding compressed
drop-compressed x y = elim (Bool-cases (y % 2 == 0)) [
  | inl e ↦ rw (e, compressed) refl
  | inr e ↦ rw (e, compressed) refl
]

get_or-compressed : (x y : ℕ) → get_or (compressed x y) 1 0 ≡ 2 + y % 2
unfolding compressed
get_or-compressed x y = elim (Bool-cases (y % 2 == 0)) [
  | inl e ↦ rw (e, compressed) (ground arith)
  | inr e ↦ rw (e, compressed) (ground arith)
]

length-compressed : (x y : ℕ) → length (compressed x y) ≡ suc (suc (length (hex_padded 64 x)))
unfolding compressed
length-compressed x y = elim (Bool-cases (y % 2 == 0)) [
  | inl e ↦ rw (e, compressed) refl
  | inr e ↦ rw (e, compressed) refl
]

-- A compressed key has 66 digits if `x` is below 2^256, and keys are the same only for points with the
-- same `x` and with coordinates `y` of the same parity.
pub compressed-injective :
    (x y x' y' : ℕ)
    → x < 16 ^ 64
    → (length (compressed x y) ≡ 66)
      × (compressed x y ≡ compressed x' y' → (x ≡ x') × (y % 2 ≡ y' % 2))
compressed-injective x y x' y' h = (
  length-compressed x y ∙ ap (λ (n : ℕ). suc (suc n)) (length-hex_padded 64 x (omega arith) h),
  λ e. (
    sym (hex_value-hex_padded 64 x)
        ∙ ap hex_value (sym (drop-compressed x y) ∙ ap (drop 2) e ∙ drop-compressed x' y')
        ∙ hex_value-hex_padded 64 x',
    omega (
      arith,
      get_or-compressed x y,
      get_or-compressed x' y',
      ap (λ (l : List ℕ). get_or l 1 0) e,
    ),
  ),
)
