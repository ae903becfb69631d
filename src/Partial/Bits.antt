-- ===== src/Partial/Bits.antt =====
-- The bits of a partial Merkle tree are read as they were packed into bytes.
use mutiny_net.Prelude.{
  ℕ, zero, suc, ◌+◌, ◌-◌, ◌*◌, ◌/◌, ◌%◌, ◌^◌, ◌≤◌, ◌<◌, ◌==◌, ==_iff, ltb→lt, ◌≡◌, refl, sym, ap,
  ◌∙◌, subst, arith, List, [], ◌∷◌, ◌++◌, All, Bool, true, false, not, ◌&&◌, ◌||◌, bit_or, length,
  get_or, set, length-set, replicate, length-replicate, if◌then◌else◌, ltb, Bool-cases, inl, inr,
}
use mutiny_net.Partial.{write_bit, write_bits, bytes_of_bits, read_bit, read_bits}
use Prim.Native.Nat.{bit_and}
use native.Mathlib.Nat.{zero-add, suc-add}

-- A test of every number under a bound, for tables of bytes
holds_to : (ℕ → Bool) → ℕ → Bool
holds_to test zero = true
holds_to test (suc bound) = holds_to test bound && test bound

holds_to_at :
    (test : ℕ → Bool) (bound k : ℕ) → k < bound → holds_to test bound ≡ true → test k ≡ true
unfolding holds_to
holds_to_at test zero k l every = absurd (omega arith)
holds_to_at test (suc bound) k l every = ground (arith, holds_to_at test bound k)

abbrev bit_of : ℕ → ℕ → Bool
bit_of v k = not (bit_and v (2 ^ k) == 0)

abbrev same : Bool → Bool → Bool
same true b = b
same false b = not b

same-eq : (a b : Bool) → same a b ≡ true → a ≡ b
same-eq true b h = sym h
same-eq false true h = h
same-eq false false h = refl

-- A bit is written into a byte: it is set if it was set before or is set now, and the others stay.
abbrev bit : Bool → ℕ
bit b = if b then 1 else 0

abbrev written : Bool → ℕ → ℕ → ℕ → Bool
written b v k j = same (bit_of (bit_or v (bit b * 2 ^ k)) j) (((k == j) && b) || bit_of v j)

abbrev fits : Bool → ℕ → ℕ → Bool
fits b v k = ltb (bit_or v (bit b * 2 ^ k)) 256

written_table :
    (b : Bool)
    → holds_to (λ v. holds_to (λ k. fits b v k && holds_to (λ j. written b v k j) 8) 8) 256 ≡ true
unfolding holds_to
written_table true = refl
written_table false = refl

clear_table : holds_to (λ k. not (bit_of 0 k)) 8 ≡ true
unfolding holds_to
clear_table = refl

and_left : (a b : Bool) → (a && b) ≡ true → a ≡ true
and_left true b h = refl
and_left false b h = h

and_right : (a b : Bool) → (a && b) ≡ true → b ≡ true
and_right true b h = h
and_right false b h = cc

table_at :
    (b : Bool) (v k : ℕ)
    → v < 256
    → k < 8
    → (fits b v k && holds_to (λ j. written b v k j) 8) ≡ true
table_at b v k p q =
    holds_to_at (λ l. fits b v l && holds_to (λ j. written b v l j) 8) 8 k q
      (holds_to_at (λ u. holds_to (λ l. fits b u l && holds_to (λ j. written b u l j) 8) 8) 256 v p
        (written_table b))

bit_of-written :
    (b : Bool) (v k j : ℕ)
    → v < 256
    → k < 8
    → j < 8
    → bit_of (bit_or v (bit b * 2 ^ k)) j ≡ (((k == j) && b) || bit_of v j)
bit_of-written b v k j p q r =
    same-eq _ _
      (holds_to_at (λ l. written b v k l) 8 j r (and_right (fits b v k) _ (table_at b v k p q)))

written-lt : (b : Bool) (v k : ℕ) → v < 256 → k < 8 → bit_or v (bit b * 2 ^ k) < 256
written-lt b v k p q = ltb→lt _ _ (and_left (fits b v k) _ (table_at b v k p q))

abbrev AreBytes : List ℕ → Type 0
AreBytes bytes = All (λ v. v < 256) bytes

get_or-lt : (bytes : List ℕ) (k : ℕ) → AreBytes bytes → get_or bytes k 0 < 256
get_or-lt [] k h = omega arith
get_or-lt (v ∷ bytes) zero h = h.0
get_or-lt (v ∷ bytes) (suc k) h = get_or-lt bytes k h.1

set-AreBytes : (bytes : List ℕ) (k v : ℕ) → v < 256 → AreBytes bytes → AreBytes (set bytes k v)
set-AreBytes [] k v p h = tt
set-AreBytes (u ∷ bytes) zero v p h = (p, h.1)
set-AreBytes (u ∷ bytes) (suc k) v p h = (h.0, set-AreBytes bytes k v p h.1)

get_or-set :
    (bytes : List ℕ) (k v j : ℕ)
    → k < length bytes
    → get_or (set bytes k v) j 0 ≡ (if k == j then v else get_or bytes j 0)
get_or-set [] k v j h = absurd (omega arith)
get_or-set (u ∷ bytes) zero v zero h = refl
get_or-set (u ∷ bytes) zero v (suc j) h = ground arith
get_or-set (u ∷ bytes) (suc k) v zero h = ground arith
get_or-set (u ∷ bytes) (suc k) v (suc j) h = ground (arith, get_or-set bytes k v j (omega arith))

write_bit-AreBytes :
    (bytes : List ℕ) (i : ℕ) (b : Bool) → AreBytes bytes → AreBytes (write_bit bytes i b)
unfolding write_bit
write_bit-AreBytes bytes i b h =
    set-AreBytes bytes (i / 8) _ (written-lt b _ (i % 8) (get_or-lt bytes (i / 8) h) (omega arith))
      h

position_eq : (i j : ℕ) → i / 8 ≡ j / 8 → (i % 8 == j % 8) ≡ (i == j)
position_eq i j e = ground arith

position_ne : (i j : ℕ) → (i / 8 == j / 8) ≡ false → (i == j) ≡ false
position_ne i j e = ground arith

read_bit-write_bit :
    (bytes : List ℕ) (i j : ℕ) (b : Bool)
    → AreBytes bytes
    → i / 8 < length bytes
    → read_bit (write_bit bytes i b) j ≡ (((i == j) && b) || read_bit bytes j)
unfolding read_bit write_bit
read_bit-write_bit bytes i j b h l = elim (Bool-cases (i / 8 == j / 8)) [
  | inl e ↦
      rw
        (
          get_or-set bytes (i / 8) _ (j / 8) l,
          e,
          bit_of-written b (get_or bytes (i / 8) 0) (i % 8) (j % 8) (get_or-lt bytes (i / 8) h)
              (omega arith) (omega arith),
          position_eq i j ((==_iff (i / 8) (j / 8)).0 e),
          (==_iff (i / 8) (j / 8)).0 e,
        )
        refl
  | inr e ↦ rw (get_or-set bytes (i / 8) _ (j / 8) l, e, position_ne i j e) refl
]

-- Every bit from position `i` on is clear.
abbrev IsClear : List ℕ → ℕ → Type 0
IsClear bytes i = (j : ℕ) → i ≤ j → read_bit bytes j ≡ false

module _ (bytes : List ℕ) (i : ℕ) (b : Bool) (h : AreBytes bytes) (l : i / 8 < length bytes) where
  write_bit-IsClear : IsClear bytes i → IsClear (write_bit bytes i b) (suc i)
  write_bit-IsClear c j le =
      read_bit-write_bit bytes i j b h l ∙ rw (c j (omega arith)) (other (omega arith))
    where
      other : suc i ≤ j → ((i == j) && b || false) ≡ false
      other g = ground arith

  read_written : IsClear bytes i → read_bit (write_bit bytes i b) i ≡ b
  read_written c = read_bit-write_bit bytes i i b h l ∙ rw (c i (omega arith)) self
    where
      self : ((i == i) && b || false) ≡ b
      self = ground arith

  read_below : (j : ℕ) → j < i → read_bit (write_bit bytes i b) j ≡ read_bit bytes j
  read_below j g = read_bit-write_bit bytes i j b h l ∙ below
    where
      below : ((i == j) && b || read_bit bytes j) ≡ read_bit bytes j
      below = ground arith

length-write_bit : (bytes : List ℕ) (i : ℕ) (b : Bool) → length (write_bit bytes i b) ≡ length bytes
unfolding write_bit
length-write_bit bytes i b = length-set bytes (i / 8) _

-- Later bits leave the earlier ones.
read_bit-write_bits :
    (bits : List Bool) (bytes : List ℕ) (i j : ℕ)
    → AreBytes bytes
    → i + length bits ≤ 8 * length bytes
    → j < i
    → read_bit (write_bits bytes i bits) j ≡ read_bit bytes j
unfolding write_bits
read_bit-write_bits [] bytes i j h l g = refl
read_bit-write_bits (b ∷ bits) bytes i j h l g =
    read_bit-write_bits bits (write_bit bytes i b) (suc i) j (write_bit-AreBytes bytes i b h)
      (omega (arith, length-write_bit bytes i b)) (omega arith)
    ∙ read_below bytes i b h (omega arith) j g

length-write_bits :
    (bits : List Bool) (bytes : List ℕ) (i : ℕ) → length (write_bits bytes i bits) ≡ length bytes
unfolding write_bits
length-write_bits [] bytes i = refl
length-write_bits (b ∷ bits) bytes i =
    length-write_bits bits (write_bit bytes i b) (suc i) ∙ length-write_bit bytes i b

read_clear : (bytes : List ℕ) (i n : ℕ) → IsClear bytes i → read_bits bytes i n ≡ replicate n false
unfolding read_bits
read_clear bytes i zero c = refl
read_clear bytes i (suc n) c =
    rw (c i (omega arith))
      (ap (λ (r : List Bool). false ∷ r) (read_clear bytes (suc i) n (λ j le. c j (omega arith))))

read_bits-write_bits :
    (bits : List Bool) (bytes : List ℕ) (i n : ℕ)
    → AreBytes bytes
    → i + length bits ≤ 8 * length bytes
    → IsClear bytes i
    → read_bits (write_bits bytes i bits) i (length bits + n) ≡ bits ++ replicate n false
unfolding write_bits read_bits
read_bits-write_bits [] bytes i n h l c = rw zero-add (read_clear bytes i n c)
read_bits-write_bits (b ∷ bits) bytes i n h l c =
    let bytes' = write_bit bytes i b in
    let h' : AreBytes bytes' = write_bit-AreBytes bytes i b h in
    let in_range : i / 8 < length bytes = omega arith in
    let fits : suc i + length bits ≤ 8 * length bytes' =
      omega (arith, length-write_bit bytes i b) in
    rw (suc-add (length bits) n) (λ k.
      ◌∷◌
        ((read_bit-write_bits bits bytes' (suc i) i h' fits (omega arith)
            ∙ read_written bytes i b h in_range c)
          k)
        (read_bits-write_bits bits bytes' (suc i) n h' fits
          (write_bit-IsClear bytes i b h in_range c) k))

read_bit-replicate : (n j : ℕ) → get_or {A = ℕ} (replicate n 0) j 0 ≡ 0
read_bit-replicate zero j = refl
read_bit-replicate (suc n) zero = refl
read_bit-replicate (suc n) (suc j) = read_bit-replicate n j

replicate-IsClear : (n : ℕ) → IsClear (replicate n 0) 0
unfolding read_bit
replicate-IsClear n j le =
    rw (read_bit-replicate n (j / 8))
      (not-true (holds_to_at (λ k. not (bit_of 0 k)) 8 (j % 8) (omega arith) clear_table))
  where
    not-true : {b : Bool} → not b ≡ true → b ≡ false
    not-true {b = true} h = cc
    not-true {b = false} h = refl

replicate-AreBytes : (n : ℕ) → AreBytes (replicate n 0)
replicate-AreBytes zero = tt
replicate-AreBytes (suc n) = (omega arith, replicate-AreBytes n)

-- The bits that fill the last byte up
unfoldable pub filling : ℕ → ℕ
filling n = (n + 7) / 8 * 8 - n

-- All bits that are read back: those that were packed, and clear ones up to the end of a byte.
pub read_bits-bytes_of_bits :
    (bits : List Bool)
    → read_bits (bytes_of_bits bits) 0 (length (bytes_of_bits bits) * 8)
      ≡ bits ++ replicate (filling (length bits)) false
unfolding bytes_of_bits filling
read_bits-bytes_of_bits bits =
    let n = (length bits + 7) / 8 in
    rw (length-write_bits bits (replicate n 0) 0, length-replicate {A = ℕ} n 0)
      (subst
        (λ (m : ℕ).
          read_bits (write_bits (replicate n 0) 0 bits) 0 m
          ≡ bits ++ replicate (n * 8 - length bits) false)
        (sym total)
        (read_bits-write_bits bits (replicate n 0) 0 (n * 8 - length bits) (replicate-AreBytes n)
          (omega (arith, length-replicate {A = ℕ} n 0)) (replicate-IsClear n)))
  where
    total : (length bits + 7) / 8 * 8 ≡ length bits + ((length bits + 7) / 8 * 8 - length bits)
    total = omega arith
