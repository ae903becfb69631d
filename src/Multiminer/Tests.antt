-- ===== src/Multiminer/Tests.antt =====
-- Runs of the `--multiminer` argument, and its theorems at concrete groups.
use Prim.Native.Char.{code}
use Prim.Native.String.{String}
use mutiny_net.Prelude.{ℕ, ◌≡◌, refl, arith, List, [], ◌∷◌}
use mutiny_net.Decimal.{dec_value}
use mutiny_net.Multiminer.{Share, accepted, refused, no_match, inconsistent, check_share, my_blocks}
use mutiny_net.Multiminer.Text.{my_blocks-range}
use mutiny_net.Multiminer.Shares.{claims_of, one_miner}

abbrev codes : String → List ℕ
codes String.[] = []
codes (String.◌∷◌ c s) = code c ∷ codes s

abbrev first_forty : Share
first_forty = record { low = 0; high = 40; period = 100 }

range : my_blocks (codes "1-40/100") ≡ accepted first_forty
unfolding my_blocks
range = refl

single : my_blocks (codes "2/3") ≡ accepted (record { low = 1; high = 2; period = 3 })
unfolding my_blocks
single = refl

no_share : my_blocks (codes "0/3") ≡ refused inconsistent
unfolding my_blocks
no_share = refl

half_range : my_blocks (codes "1-/3") ≡ refused no_match
unfolding my_blocks
half_range = refl

my_blocks-range_example :
    my_blocks (codes "1-40/100")
    ≡ check_share (dec_value (codes "1")) (dec_value (codes "40")) (dec_value (codes "100"))
my_blocks-range_example =
    my_blocks-range (codes "1") (codes "100") (refl, tt) (refl, (refl, (refl, tt))) (codes "40")
      (refl, (refl, tt)) (omega arith) (omega arith) (omega arith)

abbrev hash : List ℕ
hash = 0 ∷ 0 ∷ 9 ∷ 0 ∷ 0 ∷ 0 ∷ 0 ∷ 0 ∷ 0 ∷ 7 ∷ 1 ∷ 1 ∷ 1 ∷ 1 ∷ 1 ∷ 1 ∷ 1 ∷ 1 ∷ []

abbrev group : List Share
group =
    record { low = 0; high = 40; period = 100 }
    ∷ record { low = 40; high = 41; period = 100 }
    ∷ record { low = 41; high = 100; period = 100 }
    ∷ []

one_miner_example : claims_of group hash ≡ 1
one_miner_example =
    one_miner hash 100 group (omega arith)
      (refl, refl, omega arith, (refl, refl, omega arith, (refl, refl, omega arith, refl)))
