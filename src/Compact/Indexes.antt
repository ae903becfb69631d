-- ===== src/Compact/Indexes.antt =====
-- The differences of positions give the positions again, and the other way round.
use mutiny_net.Prelude.{◌≡◌, refl, ap, List, [], ◌∷◌, false}
use mutiny_net.Prelude.Int.{ℤ, pos, negsuc, ◌+ℤ◌, ◌-ℤ◌, int_laws}
use mutiny_net.Compact.{
  PrefilledTransaction, HeaderAndShortIds, BlockTransactionsRequest, differences, from_absolute,
  positions, to_absolute, differential, to_p2p, absolute, of_p2p,
}

pub add-sub : (x last : ℤ) → x -ℤ last -ℤ pos 1 +ℤ last +ℤ pos 1 ≡ x
add-sub x last = grind int_laws

sub-add : (x last : ℤ) → x +ℤ last +ℤ pos 1 -ℤ last -ℤ pos 1 ≡ x
sub-add x last = grind int_laws

positions-differences : (last : ℤ) (xs : List ℤ) → positions last (differences last xs) ≡ xs
unfolding positions differences
positions-differences last [] = refl
positions-differences last (x ∷ xs) =
    rw (add-sub x last) (ap (λ (l : List ℤ). x ∷ l) (positions-differences x xs))

differences-positions : (last : ℤ) (xs : List ℤ) → differences last (positions last xs) ≡ xs
unfolding positions differences
differences-positions last [] = refl
differences-positions last (x ∷ xs) =
    rw (sub-add x last) (ap (λ (l : List ℤ). x ∷ l) (differences-positions (x +ℤ last +ℤ pos 1) xs))

absolute-differential :
    (last : ℤ) (l : List PrefilledTransaction) → absolute last (differential last l) ≡ l
unfolding absolute differential
absolute-differential last [] = refl
absolute-differential last (p ∷ l) =
    rw (add-sub p.index last)
      (ap (λ (m : List PrefilledTransaction). p ∷ m) (absolute-differential p.index l))

-- A request made of any positions in a block tells these positions, and a request whose positions
-- are made into differences again is the same.
pub to_absolute-from_absolute :
    (r : BlockTransactionsRequest) (xs : List ℤ)
    → (to_absolute (from_absolute xs r) ≡ xs) × (from_absolute (to_absolute r) r ≡ r)
unfolding to_absolute from_absolute
to_absolute-from_absolute r xs = (
  positions-differences (negsuc 0) xs,
  ap (λ (l : List ℤ). record r { indexes = l }) (differences-positions (negsuc 0) r.indexes),
)

-- A compact block has the same header, nonce, short identifiers and prefilled transactions, at the
-- same positions, after it was made ready for the wire; only the kind of its identifiers is lost.
pub of_p2p-to_p2p : (h : HeaderAndShortIds) → of_p2p (to_p2p h) ≡ record h { use_witness = false }
unfolding of_p2p to_p2p
of_p2p-to_p2p h =
    ap (λ (l : List PrefilledTransaction). record h { prefilled_txn = l; use_witness = false })
      (absolute-differential (negsuc 0) h.prefilled_txn)
