-- ===== src/Compact.antt =====
-- The compact blocks of BIP152 in `miner_imports/test_framework/messages.py`: `PrefilledTransaction`,
-- `P2PHeaderAndShortIDs`, `HeaderAndShortIDs`, `BlockTransactionsRequest` and `BlockTransactions`. On
-- the wire the positions in a block are the differences of successive positions.
pub mod Write
pub mod Read
pub mod Indexes
pub mod Parts
pub mod Make
pub mod Sent
pub mod Tests
use mutiny_net.Prelude.{ℕ, List, [], ◌∷◌, Bool, true, false, map, length}
use mutiny_net.Prelude.Int.{ℤ, pos, negsuc, ◌+ℤ◌, ◌-ℤ◌}
use mutiny_net.Messages.{CTransaction, CBlockHeader, set_null}

-- A position, or the difference of two; a reader gives no negative one.
pub record PrefilledTransaction : Type 0 where
  pub index : ℤ
  pub tx : CTransaction

-- `witness_ids` tells `P2PHeaderAndShortWitnessIDs`, whose `serialize` writes witnesses, from
-- `P2PHeaderAndShortIDs`.
pub record P2PHeaderAndShortIds : Type 0 where
  pub header : CBlockHeader
  pub nonce : ℕ
  pub shortids_length : ℕ
  pub shortids : List ℕ
  pub prefilled_txn_length : ℕ
  pub prefilled_txn : List PrefilledTransaction
  pub witness_ids : Bool

pub record HeaderAndShortIds : Type 0 where
  pub header : CBlockHeader
  pub nonce : ℕ
  pub shortids : List ℕ
  pub prefilled_txn : List PrefilledTransaction
  pub use_witness : Bool

pub record BlockTransactionsRequest : Type 0 where
  pub blockhash : ℕ
  pub indexes : List ℤ

pub record BlockTransactions : Type 0 where
  pub blockhash : ℕ
  pub transactions : List CTransaction

-- `from_absolute`: each position less the last one and 1, with `last_index` at first -1.
unfoldable pub differences : ℤ → List ℤ → List ℤ
differences last_index [] = []
differences last_index (x ∷ xs) = (x -ℤ last_index -ℤ pos 1) ∷ differences x xs

unfoldable pub from_absolute : List ℤ → BlockTransactionsRequest → BlockTransactionsRequest
unfolding differences
from_absolute absolute_indexes r = record r { indexes = differences (negsuc 0) absolute_indexes }

unfoldable pub positions : ℤ → List ℤ → List ℤ
positions last_index [] = []
positions last_index (x ∷ xs) = let i = x +ℤ last_index +ℤ pos 1 in i ∷ positions i xs

unfoldable pub to_absolute : BlockTransactionsRequest → List ℤ
unfolding positions
to_absolute r = positions (negsuc 0) r.indexes

-- The loop of `HeaderAndShortIDs.to_p2p`
unfoldable pub differential : ℤ → List PrefilledTransaction → List PrefilledTransaction
differential last_index [] = []
differential last_index (x ∷ xs) =
    record x { index = x.index -ℤ last_index -ℤ pos 1 } ∷ differential x.index xs

unfoldable pub to_p2p : HeaderAndShortIds → P2PHeaderAndShortIds
unfolding differential
to_p2p h = record {
  header = h.header;
  nonce = h.nonce;
  shortids_length = length h.shortids;
  shortids = h.shortids;
  prefilled_txn_length = length h.prefilled_txn;
  prefilled_txn = differential (negsuc 0) h.prefilled_txn;
  witness_ids = h.use_witness;
}

-- The loop of `HeaderAndShortIDs.__init__`
unfoldable pub absolute : ℤ → List PrefilledTransaction → List PrefilledTransaction
absolute last_index [] = []
absolute last_index (x ∷ xs) =
    let i = x.index +ℤ last_index +ℤ pos 1 in record x { index = i } ∷ absolute i xs

-- `HeaderAndShortIDs(p)`
unfoldable pub of_p2p : P2PHeaderAndShortIds → HeaderAndShortIds
unfolding absolute
of_p2p p = record {
  header = p.header;
  nonce = p.nonce;
  shortids = p.shortids;
  prefilled_txn = absolute (negsuc 0) p.prefilled_txn;
  use_witness = false;
}
