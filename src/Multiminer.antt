-- ===== src/Multiminer.antt =====
-- The `--multiminer` argument of `miner`: which miner of a group a block belongs to. A text is the
-- list of its code points; `\d` is taken as an ASCII digit.
pub mod Text
pub mod Shares
pub mod Tests
use mutiny_net.Prelude.{
  ℕ, ◌+◌, ◌-◌, ◌*◌, ◌%◌, Option, none, some, List, [], ◌∷◌, ◌++◌, Bool, true, false, ◌&&◌, ◌||◌,
  ltb, leb, ◌==◌, if◌then◌else◌, length, take, drop,
}
use mutiny_net.Decimal.{dec_value}
use mutiny_net.Hex.{hex_value}

abbrev pub is_digit : ℕ → Bool
is_digit c = leb b'0' c && leb c b'9'

-- `\d+`: the longest run of digits, and the text behind it.
unfoldable pub span_digits : List ℕ → List ℕ × List ℕ
span_digits [] = ([], [])
span_digits (c ∷ s) =
    let (run, rest) = span_digits s in if is_digit c then (c ∷ run, rest) else ([], c ∷ s)

-- `$` also matches before a last newline.
at_end : List ℕ → Bool
at_end [] = true
at_end (c ∷ []) = c == 10
at_end _ = false

-- `/(\d+)$`, with the groups that are matched already
unfoldable pub match_total :
    List ℕ → Option (List ℕ) → List ℕ → Option (List ℕ × Option (List ℕ) × List ℕ)
unfolding span_digits at_end
match_total start stop [] = none
match_total start stop (c ∷ s) =
    let (total, rest) = span_digits s in
    if c == b'/' && leb 1 (length total) && at_end rest then some (start, stop, total) else none

-- `(-(\d+))?` and the rest: a `-` in this place can only belong to the group.
unfoldable pub match_stop : List ℕ → List ℕ → Option (List ℕ × Option (List ℕ) × List ℕ)
unfolding span_digits match_total
match_stop start [] = none
match_stop start (c ∷ s) =
    let (stop, rest) = span_digits s in
    if c == b'-'
    then (if leb 1 (length stop) then match_total start (some stop) rest else none)
    else match_total start none (c ∷ s)

-- `RE_MULTIMINER.match(s)`, the groups 1, 3 and 4
unfoldable pub re_multiminer : List ℕ → Option (List ℕ × Option (List ℕ) × List ℕ)
unfolding match_stop
re_multiminer s =
    let (start, rest) = span_digits s in
    if leb 1 (length start) then match_stop start rest else none

-- `(multi_low, multi_high, multi_period)`
pub record Share : Type 0 where
  pub low : ℕ
  pub high : ℕ
  pub period : ℕ

abbrev pub default_share : Share
default_share = record { low = 0; high = 1; period = 1 }

pub data Refusal : Type 0 where
  no_match inconsistent : Refusal

pub data Checked : Type 0 where
  accepted : Share → Checked
  refused : Refusal → Checked

-- `if stop < start or start <= 0 or total < stop or total == 0`
unfoldable pub check_share : ℕ → ℕ → ℕ → Checked
check_share start stop total =
    if ltb stop start || leb start 0 || ltb total stop || total == 0
    then refused inconsistent
    else accepted (record { low = start - 1; high = stop; period = total })

-- `stop` is the second group, or `start` where there is none.
stop_or : Option (List ℕ) → List ℕ → List ℕ
stop_or none start = start
stop_or (some stop) start = stop

-- The part of `do_generate` that reads the argument.
unfoldable pub my_blocks : List ℕ → Checked
unfolding re_multiminer check_share dec_value stop_or
my_blocks s = elim (re_multiminer s) [
  | none ↦ refused no_match
  | some (start, stop, total) ↦
      check_share (dec_value start) (dec_value (stop_or stop start)) (dec_value total)
]

-- `hash[-16:-8]` and `hash[-8:]` of a text of hexadecimal digits, as numbers
unfoldable pub miner_draw : List ℕ → ℕ
unfolding hex_value
miner_draw hash = hex_value (drop (length hash - 16) (take (length hash - 8) hash))

unfoldable pub interval_draw : List ℕ → ℕ
unfolding hex_value
interval_draw hash = hex_value (drop (length hash - 8) hash)

-- `self.multi_low <= (det_rand % self.multi_period) < self.multi_high`
unfoldable pub next_block_is_mine : Share → List ℕ → Bool
next_block_is_mine m last_hash =
    let slot = miner_draw last_hash % m.period in leb m.low slot && ltb slot m.high
