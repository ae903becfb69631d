-- ===== src/Protocol/Waiting.antt =====
-- The loop of `_on_data` waits as long as a frame is not complete.
use mutiny_net.Prelude.{
  ℕ, zero, suc, ◌+◌, ◌^◌, ◌≤◌, ◌<◌, ◌≡◌, ◌⊎◌, inl, inr, refl, sym, ap, ◌∙◌, subst, arith, List, [],
  ◌∷◌, ◌++◌, All, true, false, ltb, Bool-cases, length, length-append, take, drop,
}
use mutiny_net.Prelude.Int.{ℤ, pos, ltb_ℤ}
use mutiny_net.Prelude.Texts.{eq_text_refl}
use mutiny_net.Bytes.{le_value_signed}
use mutiny_net.Protocol.{Message, Library}
use mutiny_net.Protocol.Frame.{name_field, waiting, waits, on_length, read_frame, on_data}
use mutiny_net.Protocol.Stream.{
  checksum, IsFrame, pos-add, signed_length, read_frame_lem, IsFrame-HasSlices,
}
use mutiny_net.Protocol.Slices.{HasSlices}
use mathlib.Core.List.{append-nil}

-- One of two beginnings of a list is a beginning of the other.
pub overlap :
    (b r f s : List ℕ)
    → b ++ r ≡ f ++ s
    → ((y : List ℕ) × (0 < length y) × (f ≡ b ++ y))
      ⊎ ((b' : List ℕ) × (b ≡ f ++ b') × (b' ++ r ≡ s))
overlap b r [] s e = inr (b, refl, e)
overlap [] r (c ∷ f) s e = inl (c ∷ f, omega arith, refl)
overlap (x ∷ b) r (c ∷ f) s e = elim (overlap b r f s (cc e)) [
  | inl (y, l, g) ↦ inl (y, l, cc (ap (λ (t : List ℕ). c ∷ t) g))
  | inr (b', g, h) ↦ inr (b', cc (ap (λ (t : List ℕ). x ∷ t) g), h)
]

take-before : (n : ℕ) (x y : List ℕ) → n ≤ length x → take n (x ++ y) ≡ take n x
take-before zero x y h = refl
take-before (suc n) [] y h = absurd (omega arith)
take-before (suc n) (c ∷ x) y h = ap (λ (t : List ℕ). c ∷ t) (take-before n x y (omega arith))

take-drop-before :
    (m n : ℕ) (x y : List ℕ) → m + n ≤ length x → take n (drop m (x ++ y)) ≡ take n (drop m x)
take-drop-before zero n x y h = take-before n x y (omega arith)
take-drop-before (suc m) n [] y h = absurd (omega arith)
take-drop-before (suc m) n (c ∷ x) y h = take-drop-before m n x y (omega arith)

pub left_nil : (b r : List ℕ) → b ++ r ≡ [] → b ≡ []
left_nil [] r e = refl
left_nil (x ∷ b) r e = cc

ltb-false→le : (a b : ℕ) → ltb a b ≡ false → b ≤ a
ltb-false→le a b h = ground arith

pub All-right : (P : Message → Type 0) (xs ys : List Message) → All P (xs ++ ys) → All P ys
All-right P [] ys h = h
All-right P (x ∷ xs) ys h = All-right P xs ys h.1

module _ (lib : Library) (magic : List ℕ) (lm : length magic ≡ 4)
    (lh : (s : List ℕ) → 4 ≤ length (lib.hash256 s)) where
  on_length-waiting :
      (k : ℕ) (buf : List ℕ) → length buf < 24 + k → on_length lib magic (pos k) buf ≡ waiting
  unfolding on_length
  on_length-waiting k buf h = rw (pos-add 24 k, more h) refl
    where
      more : length buf < 24 + k → ltb_ℤ (pos (length buf)) (pos (24 + k)) ≡ true
      more g = ground arith

  -- Nothing is read of a part of a frame.
  pub read_frame-part :
      (m : Message) (x y : List ℕ)
      → IsFrame lib magic m (x ++ y)
      → 0 < length y
      → length (x ++ y) < 2 ^ 31
      → read_frame lib magic x ≡ waiting
  read_frame-part m x y t l short =
      let k = length t.payload in
      let h : HasSlices (x ++ y) magic (name_field m) t.counted (checksum lib magic lm lh t.payload)
          t.payload [] =
        subst
          (λ (b : List ℕ).
            HasSlices b magic (name_field m) t.counted (checksum lib magic lm lh t.payload)
              t.payload [])
          (append-nil (x ++ y)) (IsFrame-HasSlices lib magic lm lh m (x ++ y) [] t) in
      elim (Bool-cases (ltb (length x) 4)) [
        | inl short4 ↦ unfold read_frame in rw short4 refl
        | inr long4 ↦
            let found = sym (take-before 4 x y (ltb-false→le _ _ long4)) ∙ h.magic_found in
            elim (Bool-cases (ltb (length x) 24)) [
              | inl short24 ↦
                  unfold read_frame in rw (long4, found, eq_text_refl magic, short24) refl
              | inr long24 ↦
                  read_frame_lem lib magic x found (ltb-false→le _ _ long24)
                  ∙ ap (λ (n : ℤ). on_length lib magic n x)
                      (ap (le_value_signed 4) (
                          sym (take-drop-before 16 4 x y (omega (arith, ltb-false→le _ _ long24)))
                          ∙ h.length_found)
                        ∙ signed_length k t.counted t.has_length (omega (arith, h.has_length)))
                  ∙ on_length-waiting k x (omega (arith, h.has_length, length-append x y))
            ]
      ]

  pub on_data-waiting :
      (fuel : ℕ) (buf : List ℕ)
      → read_frame lib magic buf ≡ waiting
      → on_data lib magic (suc fuel) buf ≡ ([], waits buf)
  unfolding on_data
  on_data-waiting fuel buf e = rw (e, on_data) refl
