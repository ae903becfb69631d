-- ===== src/Bytes/Parser.antt =====
-- Methods that read from a stream and may raise, and numbers in big-endian order.
use mutiny_net.Prelude.{
  ℕ, zero, suc, ◌+◌, ◌*◌, ◌/◌, ◌%◌, ◌^◌, ◌<◌, ◌≡◌, refl, sym, ap, ◌∙◌, subst, arith, Bool, true,
  List, [], ◌∷◌, ◌++◌, ltb, if◌then◌else◌, length, length-append, take, drop,
}
use mutiny_net.Prelude.Result.{Exception, Result, ok, err, overflow_error, ok-injective, guard}
use mutiny_net.Bytes.{Reader}
use mutiny_net.Bytes.Reads.{Reads, ◌+>◌, take-append, drop-append}
use mathlib.Core.List.{append_assoc}
use native.Mathlib.Nat.{pow-suc}

-- A method that reads from a stream, and raises or gives the object and the rest.
abbrev pub Parser {ℓ} : Type ℓ → Type ℓ
Parser A = List ℕ → Result (A × List ℕ)

infixl 5 ◌>>=◌ ◌>>◌
unfoldable pub ◌>>=◌ {ℓ κ} : {A : Type ℓ} {B : Type κ} → Parser A → (A → Parser B) → Parser B
(first >>= rest) f = elim (first f) [ err e ↦ err e | ok (a, f') ↦ rest a f' ]

unfoldable pub ◌>>◌ {κ} : {B : Type κ} → Parser (Unit {0}) → Parser B → Parser B
unfolding ◌>>=◌
first >> rest = first >>= λ done. rest

-- A method that does not raise
unfoldable pub always {ℓ} : {A : Type ℓ} → Reader A → Parser A
always read f = ok (read f)

-- A call that does not read
unfoldable pub call {ℓ} : {A : Type ℓ} → Result A → Parser A
call r f = elim r [ err e ↦ err e | ok a ↦ ok (a, f) ]

unfoldable pub assert : Bool → Exception → Parser (Unit {0})
unfolding call
assert test e = call (guard test e)

-- `int.from_bytes(_, "big")`
be_from : ℕ → List ℕ → ℕ
be_from k [] = k
be_from k (b ∷ s) = be_from (k * 256 + b) s

be_digits : ℕ → ℕ → List ℕ
be_digits zero k = []
be_digits (suc n) k = be_digits n (k / 256) ++ (k % 256) ∷ []

-- `k.to_bytes(n, "big")`
unfoldable pub to_bytes_big : ℕ → ℕ → Result (List ℕ)
unfolding be_digits
to_bytes_big n k = if ltb k (256 ^ n) then ok (be_digits n k) else err overflow_error

-- `int.from_bytes(f.read(n), "big")`
unfoldable pub read_big : ℕ → Reader ℕ
unfolding be_from
read_big n f = (be_from 0 (take n f), drop n f)

length-be_digits : (n k : ℕ) → length (be_digits n k) ≡ n
unfolding be_digits
length-be_digits zero k = refl
length-be_digits (suc n) k =
    omega
      (arith, length-append (be_digits n (k / 256)) ((k % 256) ∷ []), length-be_digits n (k / 256))

be_from-append : (k : ℕ) (s : List ℕ) (b : ℕ) → be_from k (s ++ b ∷ []) ≡ be_from k s * 256 + b
unfolding be_from
be_from-append k [] b = refl
be_from-append k (c ∷ s) b = be_from-append (k * 256 + c) s b

be_from-be_digits : (n k : ℕ) → k < 256 ^ n → be_from 0 (be_digits n k) ≡ k
unfolding be_from be_digits
be_from-be_digits zero k h = omega arith
be_from-be_digits (suc n) k h = omega (
  arith,
  be_from-append 0 (be_digits n (k / 256)) (k % 256),
  be_from-be_digits n (k / 256) (omega (arith, pow-suc 256 n)),
)

to_bytes_big-eq-ok :
    (n k : ℕ) (s : List ℕ) → to_bytes_big n k ≡ ok s → (length s ≡ n) × (be_from 0 s ≡ k)
unfolding to_bytes_big
to_bytes_big-eq-ok n k s h =
    let (l, e) = fits h in
    (ap length (sym e) ∙ length-be_digits n k, ap (be_from 0) (sym e) ∙ be_from-be_digits n k l)
  where
    fits : to_bytes_big n k ≡ ok s → (k < 256 ^ n) × (be_digits n k ≡ s)
    fits g = ground arith

pub Reads-big : (n k : ℕ) → Reads (to_bytes_big n k) (read_big n) k
unfolding read_big
Reads-big n k = record {
  back = λ s rest e.
      let (l, v) = to_bytes_big-eq-ok n k s e in
      subst
        (λ (i : ℕ).
          ◌≡◌ {A = ℕ × List ℕ} (be_from 0 (take i (s ++ rest)), drop i (s ++ rest)) (k, rest))
        l (rw (take-append s rest, drop-append s rest, v) refl);
}

-- What the writer gives, if it gives anything, is read as `a`, and the rest of the stream is left.
pub record Parses {ℓ} {A : Type ℓ} (writer : Result (List ℕ)) (parser : Parser A) (a : A)
    : Type ℓ where
  pub back : (s rest : List ℕ) → writer ≡ ok s → parser (s ++ rest) ≡ ok (a, rest)

pub Parses-always {ℓ} :
    {A : Type ℓ} {m : Result (List ℕ)} {d : Reader A} {a : A} → Reads m d a → Parses m (always d) a
unfolding always
Parses-always r = record { back = λ s rest e. ap ok (r.back s rest e) }

module _ {ℓ κ} {A : Type ℓ} {B : Type κ} where
  pub Parses-append :
      {m n : Result (List ℕ)} {d : Parser A} (k : A → Parser B) {a : A} {b : B}
      → Parses m d a
      → Parses n (k a) b
      → Parses (m +> n) (d >>= k) b
  unfolding ◌>>=◌
  Parses-append {m} {n} {d} k {a} {b} p q = record { back = back m n p q }
    where
      back :
          (m n : Result (List ℕ))
          → Parses m d a
          → Parses n (k a) b
          → (s rest : List ℕ) → (m +> n) ≡ ok s
          → (d >>= k) (s ++ rest) ≡ ok (b, rest)
      back (ok x) (ok y) p q s rest e =
          subst (λ (u : List ℕ). (d >>= k) (u ++ rest) ≡ ok (b, rest)) (ok-injective e)
            (rw (append_assoc x y rest, p.back x (y ++ rest) refl, ◌>>=◌) (q.back y rest refl))
      back (ok x) (err z) p q s rest e = cc
      back (err z) n p q s rest e = cc

  -- A continuation that reads nothing.
  pub Parses-give :
      {m : Result (List ℕ)} {d : Parser A} (k : A → Parser B) {a : A} {b : B}
      → Parses m d a
      → ((rest : List ℕ) → k a rest ≡ ok (b, rest))
      → Parses m (d >>= k) b
  unfolding ◌>>=◌
  Parses-give k p e = record { back = λ s rest h. rw (p.back s rest h, ◌>>=◌) (e rest) }

  -- A call that succeeds
  pub Parses-call :
      {n : Result (List ℕ)} {r : Result A} (k : A → Parser B) {a : A} {b : B}
      → r ≡ ok a
      → Parses n (k a) b
      → Parses n (call r >>= k) b
  unfolding ◌>>=◌ call
  Parses-call k e p = record { back = λ s rest h. rw e (p.back s rest h) }

pub Parses-assert {κ} :
    {B : Type κ} {n : Result (List ℕ)} {test : Bool} (e : Exception) {k : Parser B} {b : B}
    → test ≡ true
    → Parses n k b
    → Parses n (assert test e >> k) b
unfolding assert ◌>>◌ ◌>>=◌ call
Parses-assert e t p = record { back = λ s rest h. rw t (p.back s rest h) }

-- What a parser gives is passed on.
pub >>=-of {ℓ κ} :
    {A : Type ℓ} {B : Type κ} (d : Parser A) (k : A → Parser B) (f : List ℕ) {a : A} {f' : List ℕ}
    → d f ≡ ok (a, f')
    → (d >>= k) f ≡ k a f'
unfolding ◌>>=◌
>>=-of d k f e = rw (e, ◌>>=◌) refl

pub call-of {ℓ} : {A : Type ℓ} (r : Result A) (f : List ℕ) {a : A} → r ≡ ok a → call r f ≡ ok (a, f)
unfolding call
call-of r f e = rw (e, call) refl
