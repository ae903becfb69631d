-- ===== src/Multiminer/Text.antt =====
-- Which texts the `--multiminer` argument accepts, and what they mean.
use mutiny_net.Prelude.{
  ℕ, ◌≤◌, ◌<◌, ◌≡◌, refl, arith, Option, none, some, List, [], ◌∷◌, ◌++◌, false, le→leb, length,
}
use mutiny_net.Decimal.{dec_value}
use mutiny_net.Decimal.Print.{AllDigits}
use mutiny_net.Multiminer.{
  is_digit, span_digits, match_total, match_stop, re_multiminer, Share, accepted, check_share,
  my_blocks,
}

-- A run of digits is taken whole, up to a character that is none.
span-run :
    (run : List ℕ) (c : ℕ) (s : List ℕ)
    → AllDigits run
    → is_digit c ≡ false
    → span_digits (run ++ c ∷ s) ≡ (run, c ∷ s)
unfolding span_digits
span-run [] c s d h = rw h
span-run (x ∷ run) c s (dx, d) h = rw (span-run run c s d h, dx) refl

span-end : (run : List ℕ) → AllDigits run → span_digits run ≡ (run, [])
unfolding span_digits
span-end [] d = refl
span-end (x ∷ run) (dx, d) = rw (span-end run d, dx) refl

module _ (start total : List ℕ) (ds : AllDigits start) (dt : AllDigits total) where
  total_lem :
      (stop : Option (List ℕ))
      → 1 ≤ length total
      → match_total start stop (b'/' ∷ total) ≡ some (start, stop, total)
  unfolding match_total
  total_lem stop lt = rw (span-end total dt, le→leb 1 (length total) lt) refl

  stop_lem :
      (stop : List ℕ)
      → AllDigits stop
      → 1 ≤ length stop
      → 1 ≤ length total
      → match_stop start (b'-' ∷ (stop ++ b'/' ∷ total)) ≡ some (start, some stop, total)
  unfolding match_stop
  stop_lem stop dp lp lt =
      rw (span-run stop b'/' total dp refl, le→leb 1 (length stop) lp) (total_lem (some stop) lt)

  no_stop_lem : 1 ≤ length total → match_stop start (b'/' ∷ total) ≡ some (start, none, total)
  unfolding match_stop
  no_stop_lem lt = total_lem none lt

  range_lem :
      (stop : List ℕ)
      → AllDigits stop
      → 1 ≤ length start
      → 1 ≤ length stop
      → 1 ≤ length total
      → re_multiminer (start ++ b'-' ∷ (stop ++ b'/' ∷ total)) ≡ some (start, some stop, total)
  unfolding re_multiminer
  range_lem stop dp ls lp lt =
      rw (span-run start b'-' (stop ++ b'/' ∷ total) ds refl, le→leb 1 (length start) ls)
        (stop_lem stop dp lp lt)

  single_lem :
      1 ≤ length start
      → 1 ≤ length total
      → re_multiminer (start ++ b'/' ∷ total) ≡ some (start, none, total)
  unfolding re_multiminer
  single_lem ls lt =
      rw (span-run start b'/' total ds refl, le→leb 1 (length start) ls) (no_stop_lem lt)

module _ (start total : List ℕ) (ds : AllDigits start) (dt : AllDigits total) where
  -- A range `start-stop/total` of three numbers of one digit or more means the check of these numbers.
  pub my_blocks-range :
      (stop : List ℕ)
      → AllDigits stop
      → 1 ≤ length start
      → 1 ≤ length stop
      → 1 ≤ length total
      → my_blocks (start ++ b'-' ∷ (stop ++ b'/' ∷ total))
        ≡ check_share (dec_value start) (dec_value stop) (dec_value total)
  unfolding my_blocks
  my_blocks-range stop dp ls lp lt =
      rw (range_lem start total ds dt stop dp ls lp lt, my_blocks) refl

  -- A single share `start/total` of two numbers of one digit or more means the check of the range from
  -- `start` to itself.
  pub my_blocks-single :
      1 ≤ length start
      → 1 ≤ length total
      → my_blocks (start ++ b'/' ∷ total)
        ≡ check_share (dec_value start) (dec_value start) (dec_value total)
  unfolding my_blocks
  my_blocks-single ls lt = rw (single_lem start total ds dt ls lt, my_blocks) refl

-- An accepted share has a slot, lies in the period, and so the period is not zero.
pub my_blocks-accepted :
    (s : List ℕ) (m : Share)
    → my_blocks s ≡ accepted m
    → (m.low < m.high) × (m.high ≤ m.period) × (0 < m.period)
unfolding my_blocks check_share
my_blocks-accepted s m h = ground arith
