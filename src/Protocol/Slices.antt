-- ===== src/Protocol/Slices.antt =====
-- The slices of a buffer that starts with a frame.
use mutiny_net.Prelude.{
  ℕ, zero, suc, ◌+◌, ◌≡◌, refl, sym, ap, ◌∙◌, subst, arith, List, [], ◌∷◌, ◌++◌, length,
  length-append, take, drop,
}
use mutiny_net.Prelude.Texts.{take-append, drop-append}
use native.Mathlib.Nat.{zero-add, suc-add}

take_front : (n : ℕ) (s t : List ℕ) → length s ≡ n → take n (s ++ t) ≡ s
take_front n s t l = subst (λ (k : ℕ). take k (s ++ t) ≡ s) l (take-append s t)

drop_front : (n : ℕ) (s t : List ℕ) → length s ≡ n → drop n (s ++ t) ≡ t
drop_front n s t l = subst (λ (k : ℕ). drop k (s ++ t) ≡ t) l (drop-append s t)

drop-nil : (n : ℕ) → drop {A = ℕ} n [] ≡ []
drop-nil zero = refl
drop-nil (suc n) = refl

take-nil : (n : ℕ) → take {A = ℕ} n [] ≡ []
take-nil zero = refl
take-nil (suc n) = refl

pub drop-add : (m n : ℕ) (s : List ℕ) → drop (m + n) s ≡ drop n (drop m s)
drop-add zero n s = rw zero-add refl
drop-add (suc m) n [] = rw suc-add (sym (drop-nil n))
drop-add (suc m) n (x ∷ s) = rw suc-add (drop-add m n s)

drop-take : (m n : ℕ) (s : List ℕ) → drop m (take (m + n) s) ≡ take n (drop m s)
drop-take zero n s = rw zero-add refl
drop-take (suc m) n [] = rw suc-add (sym (take-nil n))
drop-take (suc m) n (x ∷ s) = rw suc-add (drop-take m n s)

-- Magic bytes, a name, a length, a checksum and the bytes of a message, before the rest of the buffer
module _ (a b c d p rest : List ℕ) (la : length a ≡ 4) (lb : length b ≡ 12) (lc : length c ≡ 4)
    (ld : length d ≡ 4) where
  abbrev buffer : List ℕ
  buffer = a ++ (b ++ (c ++ (d ++ (p ++ rest))))

  magic_of : take 4 buffer ≡ a
  magic_of = take_front 4 a _ la

  after_magic : drop 4 buffer ≡ b ++ (c ++ (d ++ (p ++ rest)))
  after_magic = drop_front 4 a _ la

  name_of : take 12 (drop 4 buffer) ≡ b
  name_of = ap (take 12) after_magic ∙ take_front 12 b _ lb

  after_name : drop 16 buffer ≡ c ++ (d ++ (p ++ rest))
  after_name = drop-add 4 12 buffer ∙ ap (drop 12) after_magic ∙ drop_front 12 b _ lb

  length_at : take 4 (drop 16 buffer) ≡ c
  length_at = ap (take 4) after_name ∙ take_front 4 c _ lc

  after_length : drop 20 buffer ≡ d ++ (p ++ rest)
  after_length = drop-add 16 4 buffer ∙ ap (drop 4) after_name ∙ drop_front 4 c _ lc

  checksum_of : take 4 (drop 20 buffer) ≡ d
  checksum_of = ap (take 4) after_length ∙ take_front 4 d _ ld

  after_checksum : drop 24 buffer ≡ p ++ rest
  after_checksum = drop-add 20 4 buffer ∙ ap (drop 4) after_length ∙ drop_front 4 d _ ld

  message_of : drop 24 (take (24 + length p) buffer) ≡ p
  message_of =
      drop-take 24 (length p) buffer ∙ ap (take (length p)) after_checksum ∙ take-append p rest

  rest_of : drop (24 + length p) buffer ≡ rest
  rest_of = drop-add 24 (length p) buffer ∙ ap (drop (length p)) after_checksum ∙ drop-append p rest

  length-buffer : length buffer ≡ 24 + length p + length rest
  length-buffer = omega (
    arith,
    la,
    lb,
    lc,
    ld,
    length-append a (b ++ (c ++ (d ++ (p ++ rest)))),
    length-append b (c ++ (d ++ (p ++ rest))),
    length-append c (d ++ (p ++ rest)),
    length-append d (p ++ rest),
    length-append p rest,
  )

-- What the reader of a frame finds in a buffer
pub record HasSlices (buf a b c d p rest : List ℕ) : Type 0 where
  pub magic_found : take 4 buf ≡ a
  pub name_found : take 12 (drop 4 buf) ≡ b
  pub length_found : take 4 (drop 16 buf) ≡ c
  pub checksum_found : take 4 (drop 20 buf) ≡ d
  pub message_found : drop 24 (take (24 + length p) buf) ≡ p
  pub rest_found : drop (24 + length p) buf ≡ rest
  pub has_length : length buf ≡ 24 + length p + length rest

pub buffer-HasSlices :
    (a b c d p rest : List ℕ)
    → length a ≡ 4
    → length b ≡ 12
    → length c ≡ 4
    → length d ≡ 4
    → HasSlices (a ++ (b ++ (c ++ (d ++ (p ++ rest))))) a b c d p rest
buffer-HasSlices a b c d p rest la lb lc ld = record {
  magic_found = magic_of a b c d p rest la lb lc ld;
  name_found = name_of a b c d p rest la lb lc ld;
  length_found = length_at a b c d p rest la lb lc ld;
  checksum_found = checksum_of a b c d p rest la lb lc ld;
  message_found = message_of a b c d p rest la lb lc ld;
  rest_found = rest_of a b c d p rest la lb lc ld;
  has_length = length-buffer a b c d p rest la lb lc ld;
}
