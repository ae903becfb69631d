-- ===== src/Bytes/Reads.antt =====
-- Reading back what was written: the pieces of a message are read one after the other.
use mutiny_net.Prelude.{ℕ, ◌≡◌, refl, ap, sym, subst, List, [], ◌∷◌, ◌++◌, take, drop, length}
use mutiny_net.Prelude.Int.{ℤ}
use mutiny_net.Prelude.Result.{Result, ok, err, ok-injective}
use mutiny_net.Bytes.{
  le_value, to_bytes, to_bytes_signed, le_value_signed, Reader, ◌>>=◌, give, read, read_int,
  read_signed,
}
use mutiny_net.Bytes.Values.{to_bytes-eq-ok, to_bytes_signed-eq-ok}
use mathlib.Core.List.{append_assoc}

-- What the writer gives, if it gives anything, is read as `a`, and the rest of the stream is left.
pub record Reads {ℓ} {A : Type ℓ} (writer : Result (List ℕ)) (reader : Reader A) (a : A)
    : Type ℓ where
  pub back : (s rest : List ℕ) → writer ≡ ok s → reader (s ++ rest) ≡ (a, rest)

-- `r += …` of two writers, the first raising first
infixr 60 ◌+>◌
abbrev pub ◌+>◌ : Result (List ℕ) → Result (List ℕ) → Result (List ℕ)
ok s +> ok t = ok (s ++ t)
ok s +> err e = err e
err e +> n = err e

pub take-append : (s rest : List ℕ) → take (length s) (s ++ rest) ≡ s
take-append [] rest = refl
take-append (b ∷ s) rest = ap (λ (t : List ℕ). b ∷ t) (take-append s rest)

pub drop-append : (s rest : List ℕ) → drop (length s) (s ++ rest) ≡ rest
drop-append [] rest = refl
drop-append (b ∷ s) rest = drop-append s rest

pub Reads-bytes : (s : List ℕ) → Reads (ok s) (read (length s)) s
unfolding read
Reads-bytes s = record {
  back = λ t rest e.
      subst (λ (u : List ℕ). read (length s) (u ++ rest) ≡ (s, rest)) (ok-injective e)
        (rw (take-append s rest, drop-append s rest) refl);
}

pub Reads-int : (n k : ℕ) → Reads (to_bytes n k) (read_int n) k
unfolding read_int
Reads-int n k = record {
  back = λ s rest e.
      let (l, v) = to_bytes-eq-ok n k s e in
      subst
        (λ (i : ℕ).
          ◌≡◌ {A = ℕ × List ℕ} (le_value (take i (s ++ rest)), drop i (s ++ rest)) (k, rest))
        l (rw (take-append s rest, drop-append s rest, v) refl);
}

pub Reads-signed : (n : ℕ) (k : ℤ) → Reads (to_bytes_signed n k) (read_signed n) k
unfolding read_signed
Reads-signed n k = record {
  back = λ s rest e.
      let (l, v) = to_bytes_signed-eq-ok n k s e in
      subst
        (λ (i : ℕ).
          ◌≡◌ {A = ℤ × List ℕ} (le_value_signed n (take i (s ++ rest)), drop i (s ++ rest))
            (k, rest))
        l (rw (take-append s rest, drop-append s rest, v) refl);
}

pub Reads-nothing {ℓ} : {A : Type ℓ} (a : A) → Reads (ok []) (give a) a
unfolding give
Reads-nothing a = record {
  back = λ s rest e. ap (λ (t : List ℕ). (a, t ++ rest)) (sym (ok-injective e));
}

module _ {ℓ κ} {A : Type ℓ} {B : Type κ} where
  pub Reads-append :
      {m n : Result (List ℕ)} {d : Reader A} (k : A → Reader B) {a : A} {b : B}
      → Reads m d a
      → Reads n (k a) b
      → Reads (m +> n) (d >>= k) b
  unfolding ◌>>=◌
  Reads-append {m} {n} {d} k {a} {b} f g = record { back = back m n f g }
    where
      back :
          (m n : Result (List ℕ))
          → Reads m d a
          → Reads n (k a) b
          → (s rest : List ℕ) → (m +> n) ≡ ok s
          → (d >>= k) (s ++ rest) ≡ (b, rest)
      back (ok x) (ok y) f g s rest e =
          subst (λ (u : List ℕ). (d >>= k) (u ++ rest) ≡ (b, rest)) (ok-injective e)
            (rw (append_assoc x y rest, f.back x (y ++ rest) refl) (g.back y rest refl))
      back (ok x) (err z) f g s rest e = cc
      back (err z) n f g s rest e = cc

  pub Reads-map :
      {m : Result (List ℕ)} {d : Reader A} {a : A} (f : A → B)
      → Reads m d a
      → Reads m (d >>= (λ x. give (f x))) (f a)
  unfolding ◌>>=◌ give
  Reads-map f r = record { back = λ s rest e. rw (r.back s rest e) refl }

  -- A continuation that reads nothing.
  pub Reads-give :
      {m : Result (List ℕ)} {d : Reader A} (k : A → Reader B) {a : A} {b : B}
      → Reads m d a
      → k a ≡ give b
      → Reads m (d >>= k) b
  unfolding ◌>>=◌ give
  Reads-give k r e = record { back = λ s rest h. rw (r.back s rest h, e) refl }

  -- A continuation of what is given.
  pub Reads-after_give :
      {n : Result (List ℕ)} (k : A → Reader B) (a : A) {b : B}
      → Reads n (k a) b
      → Reads n (give a >>= k) b
  unfolding ◌>>=◌ give
  Reads-after_give k a r = record { back = r.back }

pub Reads-assoc {ℓ κ μ} :
    {A : Type ℓ} {B : Type κ} {C : Type μ} {n : Result (List ℕ)} (d : Reader A) (e : A → Reader B)
    (k : B → Reader C) {c : C}
    → Reads n (d >>= (λ a. e a >>= k)) c
    → Reads n ((d >>= e) >>= k) c
unfolding ◌>>=◌
Reads-assoc d e k r = record { back = r.back }

-- Bytes of a known length
pub Reads-exact :
    {m : Result (List ℕ)} (n : ℕ) {s : List ℕ} → m ≡ ok s → length s ≡ n → Reads m (read n) s
Reads-exact {m} n {s} e l =
    subst (λ (k : ℕ). Reads m (read k) s) l
      (subst (λ (w : Result (List ℕ)). Reads w (read (length s)) s) (sym e) (Reads-bytes s))
