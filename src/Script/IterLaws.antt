-- ===== src/Script/IterLaws.antt =====
-- A script that is made of items is iterated as these items.
use mutiny_net.Prelude.{
  ℕ, zero, suc, ◌+◌, ◌-◌, ◌^◌, ◌≤◌, ◌<◌, ◌≡◌, refl, sym, ap, ◌∙◌, subst, arith, List, [], ◌∷◌, ◌++◌,
  none, some, true, false, ◌&&◌, ltb, leb, ◌==◌, if◌then◌else◌, Bool-cases, inl, inr, length,
  ltb→lt, leb→le, lt→ltb,
}
use mutiny_net.Prelude.Int.{pos, negsuc}
use mutiny_net.Prelude.Result.{Result, ok, ◌>>=◌, ok-injective}
use mutiny_net.Prelude.Texts.{take-append, drop-append}
use mutiny_net.Bytes.{le_value, le_digits}
use mutiny_net.Bytes.Values.{length-le_digits}
use mutiny_net.Script.{encode_op_pushdata}
use mutiny_net.Script.Iter.{
  RawOp, push_size, yields, push_round, raw_round, encode_op_n, decode_op_n, is_small_int, Item,
  bytes, num, op, cooked, bn2vch, coerce,
}
use mathlib.Core.List.{append_assoc}

ltb_self : (n : ℕ) → ltb n n ≡ false
ltb_self n = ground arith

-- The operation of a push
abbrev pushing : ℕ → List ℕ → ℕ → RawOp
pushing o d i = record { opcode = o; pushed = some d; sop_idx = i }

push_round_lem :
    (i o : ℕ) (h d rest : List ℕ)
    → push_round i o (h ++ (d ++ rest)) (some (length d, length h))
      ≡ yields (pushing o d i) rest (1 + length h + length d)
unfolding push_round
push_round_lem i o h d rest =
    rw (drop-append h (d ++ rest), take-append d rest, ltb_self (length d), drop-append d rest) refl

-- A byte string that is written as a push is read as one.
record IsPushed (d s : List ℕ) : Type 0 where
  opcode : ℕ
  head : List ℕ
  made : opcode ∷ (head ++ d) ≡ s
  low : opcode ≤ 0x4e
  sized : (rest : List ℕ) → push_size opcode (head ++ (d ++ rest)) ≡ some (length d, length head)

short_push :
    (d rest : List ℕ)
    → ltb (length d) 0x4c ≡ true
    → push_size (length d) (d ++ rest) ≡ some (length d, 0)
unfolding push_size
short_push d rest h = rw h refl

one_push : (d rest : List ℕ) → push_size 0x4c (length d ∷ (d ++ rest)) ≡ some (length d, 1)
unfolding push_size le_value
one_push d rest = ground arith

two_push :
    (d rest : List ℕ)
    → length d < 2 ^ 16
    → push_size 0x4d (le_digits 2 (length d) ++ (d ++ rest)) ≡ some (length d, 2)
unfolding push_size le_digits
two_push d rest h = ground arith

four_push :
    (d rest : List ℕ)
    → length d < 2 ^ 32
    → push_size 0x4e (le_digits 4 (length d) ++ (d ++ rest)) ≡ some (length d, 4)
unfolding push_size le_digits
four_push d rest h = ground arith

encode_op_pushdata-IsPushed : (d s : List ℕ) → encode_op_pushdata d ≡ ok s → IsPushed d s
unfolding encode_op_pushdata
encode_op_pushdata-IsPushed d s e = elim (Bool-cases (ltb (length d) 0x4c)) [
  | inl a ↦ record {
    opcode = length d;
    head = [];
    made = ok-injective (rw a at e);
    low = omega (arith, ltb→lt _ _ a);
    sized = λ rest. short_push d rest a;
  }
  | inr a ↦ elim (Bool-cases (leb (length d) 0xff)) [
    | inl b ↦ record {
      opcode = 0x4c;
      head = length d ∷ [];
      made = ok-injective (rw (a, b) at e);
      low = omega arith;
      sized = λ rest. one_push d rest;
    }
    | inr b ↦ elim (Bool-cases (leb (length d) 0xffff)) [
      | inl c ↦ record {
        opcode = 0x4d;
        head = le_digits 2 (length d);
        made = ok-injective (rw (a, b, c) at e);
        low = omega arith;
        sized = λ rest.
            two_push d rest (omega (arith, leb→le _ _ c))
            ∙ ap (λ (n : ℕ). some (length d, n)) (sym (length-le_digits 2 (length d)));
      }
      | inr c ↦ elim (Bool-cases (leb (length d) 0xffffffff)) [
        | inl f ↦ record {
          opcode = 0x4e;
          head = le_digits 4 (length d);
          made = ok-injective (rw (a, b, c, f) at e);
          low = omega arith;
          sized = λ rest.
              four_push d rest (omega (arith, leb→le _ _ f))
              ∙ ap (λ (n : ℕ). some (length d, n)) (sym (length-le_digits 4 (length d)));
        }
        | inr f ↦ absurd (cc (rw (a, b, c, f) at e))
      ]
    ]
  ]
]

-- What an item is iterated as: a small number pushes itself, but for 0, which pushes no bytes.
unfoldable pub iterated : Item → Item
unfolding bn2vch
iterated (bytes d) = bytes d
iterated (op o) = if leb o 0x60 && leb 0x51 o then num (pos (o - 0x50)) else op o
iterated (num (negsuc zero)) = op 0x4f
iterated (num (negsuc (suc n))) = bytes (bn2vch (negsuc (suc n)))
iterated (num (pos n)) =
    if n == 0 then bytes [] else if leb n 16 then num (pos n) else bytes (bn2vch (pos n))

-- An operation that pushes no bytes that follow it
abbrev pub IsPlain : Item → Type 0
IsPlain (op o) = 0x4e < o
IsPlain other = Unit

-- The first operation of a script is an item.
pub record Starts (i : ℕ) (item : Item) (s rest : List ℕ) : Type 0 where
  pub opcode : ℕ
  pub behind : List ℕ
  pub first : RawOp
  pub taken : ℕ
  pub longer : 0 < length s
  pub starts : s ++ rest ≡ opcode ∷ behind
  pub round : raw_round i opcode behind ≡ yields first rest taken
  pub reads : cooked first ≡ ok item

pushed-Starts : (i : ℕ) (d s rest : List ℕ) → IsPushed d s → Starts i (bytes d) s rest
unfolding raw_round cooked
pushed-Starts i d s rest p = record {
  opcode = p.opcode;
  behind = p.head ++ (d ++ rest);
  first = pushing p.opcode d i;
  taken = 1 + length p.head + length d;
  longer = omega (arith, ap length p.made);
  starts =
      ap (λ (t : List ℕ). t ++ rest) (sym p.made)
      ∙ ap (λ (t : List ℕ). p.opcode ∷ t) (append_assoc p.head d rest);
  round = rw (not_high p.opcode p.low, p.sized rest) (push_round_lem i p.opcode p.head d rest);
  reads = refl;
}
  where
    not_high : (o : ℕ) → o ≤ 0x4e → ltb 0x4e o ≡ false
    not_high o h = ground arith

plain-Starts :
    (i o : ℕ) (item : Item) (rest : List ℕ)
    → 0x4e < o
    → cooked (record { opcode = o; pushed = none; sop_idx = i }) ≡ ok item
    → Starts i item (o ∷ []) rest
unfolding raw_round
plain-Starts i o item rest h e = record {
  opcode = o;
  behind = rest;
  first = record { opcode = o; pushed = none; sop_idx = i };
  taken = 1;
  longer = omega arith;
  starts = refl;
  round = rw (lt→ltb _ _ h) refl;
  reads = e;
}

cooked_op :
    (i o : ℕ)
    → 0x4e < o
    → cooked (record { opcode = o; pushed = none; sop_idx = i }) ≡ ok (iterated (op o))
unfolding cooked is_small_int decode_op_n iterated
cooked_op i o h = ground arith

coerce_small : (n : ℕ) → leb (suc n) 16 ≡ true → coerce (num (pos (suc n))) ≡ ok ((0x51 + n) ∷ [])
unfolding coerce encode_op_n
coerce_small n h = ground arith

cooked_small :
    (i n : ℕ)
    → leb (suc n) 16 ≡ true
    → cooked (record { opcode = 0x51 + n; pushed = none; sop_idx = i })
      ≡ ok (iterated (num (pos (suc n))))
unfolding cooked is_small_int decode_op_n iterated
cooked_small i n h = ground arith

zero-IsPushed : IsPushed [] (0 ∷ [])
zero-IsPushed = record {
  opcode = 0;
  head = [];
  made = refl;
  low = omega arith;
  sized = λ rest. short_push [] rest refl;
}

-- Each kind of item
number-Starts :
    (i n : ℕ) (s rest : List ℕ)
    → coerce (num (pos n)) ≡ ok s
    → Starts i (iterated (num (pos n))) s rest
unfolding coerce encode_op_n iterated
number-Starts i zero s rest e =
    subst (λ (t : List ℕ). Starts i (bytes []) t rest) (ok-injective e)
      (pushed-Starts i [] (0 ∷ []) rest zero-IsPushed)
number-Starts i (suc n) s rest e = elim (Bool-cases (leb (suc n) 16)) [
  | inl h ↦
      subst (λ (t : List ℕ). Starts i (iterated (num (pos (suc n)))) t rest)
        (ok-injective (sym (coerce_small n h) ∙ e))
        (plain-Starts i (0x51 + n) (iterated (num (pos (suc n)))) rest (omega arith)
          (cooked_small i n h))
  | inr h ↦
      subst (λ (t : Item). Starts i t s rest) (sym (large n h))
        (pushed-Starts i (bn2vch (pos (suc n))) s rest
          (encode_op_pushdata-IsPushed (bn2vch (pos (suc n))) s (rw h at e)))
]
  where
    large :
        (k : ℕ)
        → leb (suc k) 16 ≡ false
        → iterated (num (pos (suc k))) ≡ bytes (bn2vch (pos (suc k)))
    large k g = ground arith

pub item-Starts :
    (i : ℕ) (item : Item) (s rest : List ℕ)
    → IsPlain item
    → coerce item ≡ ok s
    → Starts i (iterated item) s rest
unfolding coerce iterated
item-Starts i (bytes d) s rest p e = pushed-Starts i d s rest (encode_op_pushdata-IsPushed d s e)
item-Starts i (op o) s rest p e =
    subst (λ (t : List ℕ). Starts i (iterated (op o)) t rest) (ok-injective e)
      (plain-Starts i o (iterated (op o)) rest p (cooked_op i o p))
item-Starts i (num (pos n)) s rest p e = number-Starts i n s rest e
item-Starts i (num (negsuc zero)) s rest p e =
    subst (λ (t : List ℕ). Starts i (op 0x4f) t rest) (ok-injective e)
      (plain-Starts i 0x4f (op 0x4f) rest (omega arith) (cooked_op i 0x4f (omega arith)))
item-Starts i (num (negsuc (suc n))) s rest p e =
    pushed-Starts i (bn2vch (negsuc (suc n))) s rest
      (encode_op_pushdata-IsPushed (bn2vch (negsuc (suc n))) s e)

-- All that the iterator yields
unfoldable pub cooked_all : List RawOp → Result (List Item)
unfolding cooked
cooked_all [] = ok []
cooked_all (r ∷ rs) = do i ← cooked r; items ← cooked_all rs; ok (i ∷ items)
