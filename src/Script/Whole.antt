-- ===== src/Script/Whole.antt =====
-- The iterator over a whole script that was made of items.
use mutiny_net.Prelude.{
  ℕ, zero, suc, ◌+◌, ◌≤◌, ◌≡◌, refl, sym, ap, ◌∙◌, subst, arith, List, [], ◌∷◌, map, All, Option,
  none, length, length-append,
}
use mutiny_net.Prelude.Result.{ok, >>=-eq-ok, ok-injective}
use mutiny_net.Script.Iter.{
  ScriptError, RawOp, yields, raw_round, raw_loop, raw_iter, Item, coerce, make_script,
}
use mutiny_net.Script.IterLaws.{iterated, IsPlain, Starts, item-Starts, cooked_all}

-- The loop yields the first operation, and goes on.
raw_loop-one :
    (fuel i opcode : ℕ) (s rest : List ℕ) (r : RawOp) (n : ℕ)
    → raw_round i opcode s ≡ yields r rest n
    → raw_loop (suc fuel) i (opcode ∷ s)
      ≡ (r ∷ (raw_loop fuel (i + n) rest).0, (raw_loop fuel (i + n) rest).1)
unfolding raw_loop
raw_loop-one fuel i opcode s rest r n e = rw (e, raw_loop) refl

raw_loop-items :
    (items : List Item) (fuel i : ℕ) (s : List ℕ)
    → All IsPlain items
    → make_script items ≡ ok s
    → length s ≤ fuel
    → (cooked_all (raw_loop fuel i s).0 ≡ ok (map iterated items)) × ((raw_loop fuel i s).1 ≡ none)
unfolding make_script cooked_all raw_loop
raw_loop-items [] zero i s p e h = (refl, refl)
raw_loop-items [] (suc fuel) i s p e h =
    subst
      (λ (t : List ℕ).
        (cooked_all (raw_loop (suc fuel) i t).0 ≡ ok []) × ((raw_loop (suc fuel) i t).1 ≡ none))
      (ok-injective e) (unfold raw_loop in (refl, refl))
raw_loop-items (item ∷ items) fuel i s (p, ps) e h =
    let (x, a, e1) = >>=-eq-ok (coerce item) _ e in
    let (y, b, e2) = >>=-eq-ok (make_script items) _ e1 in
    let st = item-Starts i item x y p a in
    let joint : s ≡ st.opcode ∷ st.behind = sym (ok-injective e2) ∙ st.starts in
    let size : length x + length y ≡ length s =
      sym (length-append x y) ∙ ap length (ok-injective e2) in
    step fuel x y st joint size b h (λ k l. raw_loop-items items k (i + st.taken) y ps b l)
  where
    step :
        (fuel : ℕ) (x y : List ℕ) (st : Starts i (iterated item) x y)
        → s ≡ st.opcode ∷ st.behind
        → length x + length y ≡ length s
        → make_script items ≡ ok y
        → length s ≤ fuel
        → ((k : ℕ)
            → length y ≤ k
            → (cooked_all (raw_loop k (i + st.taken) y).0 ≡ ok (map iterated items))
              × ((raw_loop k (i + st.taken) y).1 ≡ none))
        → (cooked_all (raw_loop fuel i s).0 ≡ ok (iterated item ∷ map iterated items))
          × ((raw_loop fuel i s).1 ≡ none)
    step zero x y st joint size b h ih = absurd (omega (arith, st.longer))
    step (suc fuel) x y st joint size b h ih =
        let (items_ok, no_error) = ih fuel (omega (arith, st.longer)) in
        let r =
          ap (raw_loop (suc fuel) i) joint
          ∙ raw_loop-one fuel i st.opcode st.behind y st.first st.taken st.round in
        (
          ap (λ (q : List RawOp × Option ScriptError). cooked_all q.0) r
              ∙ rw (st.reads, items_ok) refl,
          ap (λ (q : List RawOp × Option ScriptError). q.1) r ∙ no_error,
        )

-- A script that was made of byte strings, numbers and operations that push nothing else is iterated
-- without an error, and the items come back in their order: a number that is not small as its bytes,
-- -1 as its operation, 0 as no bytes, and an operation of a small number as the number.
pub raw_iter-make_script :
    (items : List Item) (s : List ℕ)
    → All IsPlain items
    → make_script items ≡ ok s
    → (cooked_all (raw_iter s).0 ≡ ok (map iterated items)) × ((raw_iter s).1 ≡ none)
unfolding raw_iter
raw_iter-make_script items s p e = raw_loop-items items (length s) 0 s p e (omega arith)
