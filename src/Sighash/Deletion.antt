-- ===== src/Sighash/Deletion.antt =====
-- `FindAndDelete` leaves a script without the bytes that it looks for.
use mutiny_net.Prelude.{
  ℕ, zero, suc, ◌+◌, ◌-◌, ◌≤◌, ◌≡◌, refl, sym, ap, ◌∙◌, subst, arith, List, [], ◌∷◌, ◌++◌, All,
  Option, none, some, true, false, Bool-cases, inl, inr, ltb, length, take, drop, take-append-drop,
}
use mutiny_net.Prelude.Result.{ok}
use mutiny_net.Script.Iter.{
  ScriptError, RawOp, Round, yields, stops, push_size, push_round, raw_round, raw_loop, raw_iter,
}
use mutiny_net.Sighash.{stands_at, delete_loop, delete_all, find_and_delete}
use mutiny_net.Protocol.Slices.{drop-add}
use mathlib.Core.List.{append_assoc}

-- The operations stand one after the other, from a position on.
abbrev From : ℕ → List RawOp → Type 0
From i [] = Unit
From i (o ∷ ops) = (i ≤ o.sop_idx) × From o.sop_idx ops

From-le : (i j : ℕ) (ops : List RawOp) → i ≤ j → From j ops → From i ops
From-le i j [] h f = tt
From-le i j (o ∷ ops) h (l, f) = (omega arith, f)

-- A round yields the operation at its position.
abbrev AtPosition : ℕ → Round → Type 0
AtPosition i (yields o s n) = o.sop_idx ≡ i
AtPosition i (stops e) = Unit

push_round-AtPosition :
    (i opcode : ℕ) (s : List ℕ) (size : Option (ℕ × ℕ)) → AtPosition i (push_round i opcode s size)
unfolding push_round
push_round-AtPosition i opcode s none = tt
push_round-AtPosition i opcode s (some (n, k)) =
    elim (Bool-cases (ltb (length (take n (drop k s))) n)) [ inl h ↦ rw h tt | inr h ↦ rw h refl ]

raw_round-AtPosition : (i opcode : ℕ) (s : List ℕ) → AtPosition i (raw_round i opcode s)
unfolding raw_round
raw_round-AtPosition i opcode s = elim (Bool-cases (ltb 0x4e opcode)) [
  | inl h ↦ rw h refl
  | inr h ↦ rw h (push_round-AtPosition i opcode s (push_size opcode s))
]

-- What the loop makes of a round
abbrev after_round :
    (ℕ → List ℕ → List RawOp × Option ScriptError) → Round → List RawOp × Option ScriptError
after_round go (stops e) = ([], some e)
after_round go (yields o s n) = (o ∷ (go n s).0, (go n s).1)

raw_loop_lem :
    (fuel i opcode : ℕ) (s : List ℕ)
    → raw_loop (suc fuel) i (opcode ∷ s)
      ≡ after_round (λ n t. raw_loop fuel (i + n) t) (raw_round i opcode s)
unfolding raw_loop
raw_loop_lem fuel i opcode s = split (raw_round i opcode s) refl
  where
    split :
        (r : Round)
        → raw_round i opcode s ≡ r
        → raw_loop (suc fuel) i (opcode ∷ s) ≡ after_round (λ n t. raw_loop fuel (i + n) t) r
    split (stops e) h = rw (h, raw_loop) refl
    split (yields o t n) h = rw (h, raw_loop) refl

after_round-From :
    (i : ℕ) (go : ℕ → List ℕ → List RawOp × Option ScriptError) (r : Round)
    → AtPosition i r
    → ((n : ℕ) (s : List ℕ) → From (i + n) (go n s).0)
    → From i (after_round go r).0
after_round-From i go (stops e) p f = tt
after_round-From i go (yields o s n) p f =
    (omega (arith, p), From-le o.sop_idx (i + n) (go n s).0 (omega (arith, p)) (f n s))

raw_loop-From : (fuel i : ℕ) (s : List ℕ) → From i (raw_loop fuel i s).0
raw_loop-From zero i s = unfold raw_loop in tt
raw_loop-From (suc fuel) i [] = unfold raw_loop in tt
raw_loop-From (suc fuel) i (opcode ∷ s) = rw (raw_loop_lem fuel i opcode s) (
    after_round-From i (λ n t. raw_loop fuel (i + n) t) (raw_round i opcode s)
      (raw_round-AtPosition i opcode s) (λ n t. raw_loop-From fuel (i + n) t))

-- None of the operations stands where the bytes are.
abbrev pub Absent : List ℕ → List ℕ → List RawOp → Type 0
Absent script sig ops = All (λ o. stands_at script sig o.sop_idx ≡ false) ops

-- What has been copied and what is still to come are the script.
delete_loop-Absent :
    (script sig : List ℕ) (ops : List RawOp) (r : List ℕ) (last : ℕ)
    → Absent script sig ops
    → From last ops
    → r ++ drop last script ≡ script
    → delete_loop script sig ops r last false ≡ script
unfolding delete_loop
delete_loop-Absent script sig [] r last a f e = e
delete_loop-Absent script sig (o ∷ ops) r last (a, as') (l, f) e =
    rw a (delete_loop-Absent script sig ops (r ++ take k (drop last script)) o.sop_idx as' f copied)
  where
    k : ℕ
    k = o.sop_idx - last

    at : last + (o.sop_idx - last) ≡ o.sop_idx
    at = omega arith

    copied : (r ++ take (o.sop_idx - last) (drop last script)) ++ drop o.sop_idx script ≡ script
    copied =
        append_assoc r (take k (drop last script)) (drop o.sop_idx script)
        ∙ ap (λ (t : List ℕ). r ++ (take k (drop last script) ++ t))
            (ap (λ (n : ℕ). drop n script) (sym at) ∙ drop-add last k script)
        ∙ ap (λ (t : List ℕ). r ++ t) (take-append-drop k (drop last script))
        ∙ e

raw_iter_lem :
    (c : ℕ) (t : List ℕ)
    → raw_iter (c ∷ t) ≡ after_round (λ n s. raw_loop (length t) (0 + n) s) (raw_round 0 c t)
unfolding raw_iter
raw_iter_lem c t = raw_loop_lem (length t) 0 c t

-- The first operation stands at the start.
delete_loop-first :
    (script sig : List ℕ) (o : RawOp) (ops : List RawOp)
    → Absent script sig (o ∷ ops)
    → o.sop_idx ≡ 0
    → From o.sop_idx ops
    → delete_loop script sig (o ∷ ops) [] 0 true ≡ script
unfolding delete_loop
delete_loop-first script sig o ops (a, as') e f =
    rw a (delete_loop-Absent script sig ops [] o.sop_idx as' f (ap (λ (n : ℕ). drop n script) e))

delete_loop-whole :
    (script sig : List ℕ) (go : ℕ → List ℕ → List RawOp × Option ScriptError) (r : Round)
    → AtPosition 0 r
    → ((n : ℕ) (s : List ℕ) → From (0 + n) (go n s).0)
    → (after_round go r).1 ≡ none
    → Absent script sig (after_round go r).0
    → delete_loop script sig (after_round go r).0 [] 0 true ≡ script
delete_loop-whole script sig go (stops e) p f none_raised a = cc
delete_loop-whole script sig go (yields o s n) p f none_raised a =
    delete_loop-first script sig o (go n s).0 a p
      (From-le o.sop_idx (0 + n) (go n s).0 (omega (arith, p)) (f n s))

delete_loop-raw_iter :
    (script sig : List ℕ)
    → (raw_iter script).1 ≡ none
    → Absent script sig (raw_iter script).0
    → delete_loop script sig (raw_iter script).0 [] 0 true ≡ script
delete_loop-raw_iter [] sig e a = unfold raw_iter raw_loop delete_loop in refl
delete_loop-raw_iter (c ∷ t) sig e a =
    subst
      (λ (r : List RawOp × Option ScriptError).
        r.1 ≡ none → Absent (c ∷ t) sig r.0 → delete_loop (c ∷ t) sig r.0 [] 0 true ≡ c ∷ t)
      (sym (raw_iter_lem c t))
      (delete_loop-whole (c ∷ t) sig (λ n s. raw_loop (length t) (0 + n) s) (raw_round 0 c t)
        (raw_round-AtPosition 0 c t) (λ n s. raw_loop-From (length t) (0 + n) s))
      e a

-- A script that the iterator goes through, and in which no operation stands where the bytes are, is
-- left as it is.
pub find_and_delete-Absent :
    (script sig : List ℕ)
    → (raw_iter script).1 ≡ none
    → Absent script sig (raw_iter script).0
    → find_and_delete script sig ≡ ok script
unfolding find_and_delete
find_and_delete-Absent script sig e a =
    ap (delete_all script sig (raw_iter script).0) e ∙ ap ok (delete_loop-raw_iter script sig e a)
