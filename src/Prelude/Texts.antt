-- ===== src/Prelude/Texts.antt =====
-- Texts and byte strings, as lists of code points and of bytes: Python's `==`, `endswith` and
-- slices from the end.
use Prim.Native.Nat.{ℕ, ◌-◌}
use mathlib.Core.Path.{◌≡◌, refl, ap}
use mathlib.Core.Bool.{Bool, true, false, ◌&&◌}
use mathlib.Core.List.{List, [], ◌∷◌, ◌++◌}
use native.Mathlib.Omega.{arith}
use mutiny_net.Prelude.Tests.{◌==◌}
use mutiny_net.Prelude.Lists.{length, length-append, take, drop}

unfoldable pub eq_text : List ℕ → List ℕ → Bool
eq_text [] [] = true
eq_text [] (d ∷ t) = false
eq_text (c ∷ s) [] = false
eq_text (c ∷ s) (d ∷ t) = (c == d) && eq_text s t

pub eq_text_refl : (s : List ℕ) → eq_text s s ≡ true
unfolding eq_text
eq_text_refl [] = refl
eq_text_refl (c ∷ s) = ground (arith, eq_text_refl s)

pub eq_of_eq_text : (s t : List ℕ) → eq_text s t ≡ true → s ≡ t
unfolding eq_text
eq_of_eq_text [] [] h = refl
eq_of_eq_text [] (d ∷ t) h = cc
eq_of_eq_text (c ∷ s) [] h = cc
eq_of_eq_text (c ∷ s) (d ∷ t) h = ground (arith, eq_of_eq_text s t)

-- `s.endswith(suffix)`
unfoldable pub ends_with : List ℕ → List ℕ → Bool
unfolding eq_text
ends_with s suffix = eq_text (drop (length s - length suffix) s) suffix

-- `s[0:-n]`, for a positive `n`
unfoldable pub but_last {ℓ} : {A : Type ℓ} → ℕ → List A → List A
but_last n s = take (length s - n) s

module _ {ℓ} {A : Type ℓ} where
  pub take-append : (s t : List A) → take (length s) (s ++ t) ≡ s
  take-append [] t = refl
  take-append (c ∷ s) t = ap (λ (r : List A). c ∷ r) (take-append s t)

  pub drop-append : (s t : List A) → drop (length s) (s ++ t) ≡ t
  drop-append [] t = refl
  drop-append (c ∷ s) t = drop-append s t

length-append-sub : {A : Type 0} (s t : List A) → length (s ++ t) - length t ≡ length s
length-append-sub s t = omega (arith, length-append s t)

pub ends_with-append : (s suffix : List ℕ) → ends_with (s ++ suffix) suffix ≡ true
unfolding ends_with
ends_with-append s suffix =
    rw (length-append-sub s suffix, drop-append s suffix) (eq_text_refl suffix)

pub but_last-append : (s suffix : List ℕ) → but_last (length suffix) (s ++ suffix) ≡ s
unfolding but_last
but_last-append s suffix = rw (length-append-sub s suffix) (take-append s suffix)
