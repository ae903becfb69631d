-- ===== src/Lib.antt =====
-- The signet miner of MutinyWallet/mutiny-net, and the scripts beside it.
--
-- The repository runs a signet with short blocks. Its own Python code is `miner`, the program that
-- makes and mines the blocks, and three scripts: `calc_nversion.py`, `rpcauth.py` and `keygen.py`.
-- `miner_imports/test_framework` is a copy of the test framework of Bitcoin Core, which `miner`
-- imports.
--
-- How the parts of `miner generate` work together: `do_generate` checks the arguments and makes a
-- `Generate`. Each round of its loop asks the node for the best block, lets `next_block_time` plan the
-- next block, and sleeps until the plan's action time; then it asks for a template (`gbt`), for the
-- script of the reward (`get_reward_addr_spk`), and mines the block (`mine`): a block is made from the
-- template and sent to the wallet in a PSBT (`generate_psbt`), the signed PSBT is decoded
-- (`decode_psbt`), and the block gets its solution and its nonce (`finish_block`). The loop takes the
-- outcome of these as a function of the plan.
--
--   Command      `do_generate` in `miner`: its arguments and their checks, `get_poolid`, the command
--   Mining       the loop of `do_generate`
--   Schedule     the class `Generate`: `next_block_delta`, `next_block_time`, `gbt`
--   Multiminer   `RE_MULTIMINER`, the share of `--multiminer`, `next_block_is_mine`
--   Reward       `get_reward_addr_spk` and its caches
--   Mine         `generate_psbt`, `Generate.mine`, `do_genpsbt`, `do_solvepsbt`
--   Psbt         `decode_psbt`, and the formats of `miner_imports/test_framework/psbt.py`
--   Signet       the making of a block: `signet_txs`, `finish_block`, and the block of `generate_psbt`
--   Messages     the transaction and block formats of `miner_imports/test_framework/messages.py`, as
--                far as `miner` writes and reads them
--   Block        identifiers, Merkle roots and the search for a nonce, of the same file
--   Script       the scripts of `miner_imports/test_framework/script.py` and `blocktools.py` that
--                `miner` makes
--   NBits        `nbits_to_target` and `target_to_nbits`
--   Hms          `seconds_to_hms`
--   Binana       `calc_nversion.py`
--   Keygen       the compressed key of `keygen.py`
--
-- `miner_imports/test_framework` is a copy of the test framework. These parts of it are modelled, too:
--
--   Address      `CAddress` of `messages.py`, in the formats of version 1 and of BIP155
--   Inventory    `CInv`, `CBlockLocator`
--   Compact      the compact blocks of BIP152: positions, short identifiers, making and sending
--   Siphash      `crypto/siphash.py`
--   Partial      `CPartialMerkleTree`, `CMerkleBlock`
--   Protocol     the messages `msg_…` of `messages.py`; Protocol.Frame: `build_message`, `_on_data` and
--                `data_received` of `p2p.py`, for version 1 of the protocol
--   Script.Iter  the iterator over a script of `script.py` and the making of a script of items;
--                Script.Opcodes: the operations and their names
--   Sighash      `FindAndDelete`, `LegacySignatureMsg`, `SegwitV0SignatureMsg` of `script.py`
--   Amount       `compressor.py`
--
-- Under these:
--
--   Bytes        Python's `int.to_bytes`, `int.from_bytes` and `BytesIO.read`; Bytes.Parser: a
--                reader that may raise
--   Hex, Decimal Python's `int(_, 16)`, `%x` and `%d`
--   Float        Python's floats, an interface with the laws that the miner relies on; Float.Whole
--                is an instance that computes with integers
--   Prelude      names of the library, lists, signed integers, bit operations, exceptions
--
-- State is passed on: a round takes a `State` (`mined_blocks`, `bestheader`, `lastheader`) and gives
-- the next, `gbt` gives the changed plan, `get_reward_addr_spk` the changed arguments. An exception is
-- a value of `Result`. What a round asks of its surroundings (replies of the node, the clock, the
-- signed block) is a record `Surroundings`, and a run of the loop is a list of them; the theorems
-- hold for every list, so for every node and clock. A run ends as `waiting` if the rounds are used up
-- and the loop would go on. The replies of the node to `deriveaddresses` and `getaddressinfo`, `int`
-- of a text, `str.encode`, the double SHA-256 `hash256`, the wallet that signs and the grinding
-- command are parameters. A reader of a message gives the object and the rest of the stream; a writer
-- gives the bytes or the OverflowError of a number that does not fit. The texts of addresses (`socket`,
-- `base64`, `sha3_256`) are an interface `Texts` with laws, and UTF-8 with the double SHA-256 is an
-- interface `Library`. What arrives on a connection is a list of pieces of bytes, and the messages that
-- are passed to `on_message` are a list.
--
-- Bounds: an integer is unbounded, as in Python, and a target below 1 is a ratio. `hex_digits` and
-- `dec_digits` recur on fuel that exceeds the number of digits, a Merkle root takes fewer rounds than
-- there are hashes, and the search for a nonce ends with the nonces of four bytes, since a greater one
-- cannot be written. The loop of `_on_data` has one round more than there are bytes in the buffer, which
-- a frame that was sent does not use up, and the iterator over a script has as many rounds as bytes. A text is a list of code points, and hexadecimal text from the node is a list of
-- digits.
--
-- Not modelled: the command `calibrate`; the base64 text of a PSBT, which is its byte string here; the
-- calls of `bitcoin-cli`; argument parsing and logging; `rpcauth.py`; the making of a key in
-- `keygen.py`; of the copy of the test framework, the encrypted transport and its ciphers, the
-- messages signed for Taproot, addresses and descriptors of scripts, and the harness that runs nodes.
pub mod Prelude
pub mod Bytes
pub mod Messages
pub mod Script
pub mod Block
pub mod Signet
pub mod Psbt
pub mod Mine
pub mod Address
pub mod Inventory
pub mod Siphash
pub mod Compact
pub mod Partial
pub mod Protocol
pub mod Amount
pub mod Sighash
pub mod Hex
pub mod Decimal
pub mod Hms
pub mod NBits
pub mod Binana
pub mod Multiminer
pub mod Float
pub mod Schedule
pub mod Mining
pub mod Command
pub mod Reward
pub mod Keygen
