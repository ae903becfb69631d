-- ===== src/Script/Tests.antt =====
-- A script of a number, bytes and operations.
use mutiny_net.Prelude.{ℕ, ◌≡◌, refl, arith, none, List, [], ◌∷◌}
use mutiny_net.Prelude.Int.{pos, negsuc}
use mutiny_net.Prelude.Result.{ok}
use mutiny_net.Script.Iter.{Item, raw_iter, make_script}
use mutiny_net.Script.Iter.Item.{bytes, num, op}
use mutiny_net.Script.IterLaws.{iterated, cooked_all}
use mutiny_net.Script.Whole.{raw_iter-make_script}

abbrev items : List Item
items =
    num (pos 0)
    ∷ num (pos 16)
    ∷ num (negsuc 127)
    ∷ bytes (1 ∷ 2 ∷ 3 ∷ [])
    ∷ op 0xac
    ∷ num (pos 255)
    ∷ []

abbrev script : List ℕ
script = 0 ∷ 0x60 ∷ 2 ∷ 0x80 ∷ 0x80 ∷ 3 ∷ 1 ∷ 2 ∷ 3 ∷ 0xac ∷ 2 ∷ 0xff ∷ 0 ∷ []

is_made : make_script items ≡ ok script
unfolding make_script
is_made = refl

raw_iter-make_script_example :
    (cooked_all (raw_iter script).0
      ≡ ok (
          bytes []
          ∷ num (pos 16)
          ∷ bytes (0x80 ∷ 0x80 ∷ [])
          ∷ bytes (1 ∷ 2 ∷ 3 ∷ [])
          ∷ op 0xac
          ∷ bytes (0xff ∷ 0 ∷ [])
          ∷ []))
    × ((raw_iter script).1 ≡ none)
unfolding iterated
raw_iter-make_script_example =
    raw_iter-make_script items script (tt, (tt, (tt, (tt, (omega arith, (tt, tt)))))) is_made
