-- ===== src/Script.antt =====
-- The scripts of `miner_imports/test_framework/script.py` and `blocktools.py`: those that `miner`
-- makes, and, in child modules, the operations and the iterator. A script is its byte string.
pub mod Opcodes
pub mod Iter
pub mod IterLaws
pub mod Whole
pub mod Tests
use mutiny_net.Prelude.{
  ℕ, zero, suc, ◌+◌, ◌-◌, ◌/◌, ◌%◌, List, [], ◌∷◌, ◌++◌, ltb, leb, ◌==◌, if◌then◌else◌, length,
  get_or,
}
use mutiny_net.Prelude.Result.{Result, ok, err, value_error}
use mutiny_net.Bytes.{le_digits}

-- A PUSHDATA operation; its lengths fit the bytes that they are written in.
unfoldable pub encode_op_pushdata : List ℕ → Result (List ℕ)
unfolding le_digits
encode_op_pushdata d =
    if ltb (length d) 0x4c
    then ok (length d ∷ d)
    else if leb (length d) 0xff
    then ok (0x4c ∷ length d ∷ d)
    else if leb (length d) 0xffff
    then ok (0x4d ∷ le_digits 2 (length d) ++ d)
    else if leb (length d) 0xffffffff
    then ok (0x4e ∷ le_digits 4 (length d) ++ d)
    else err value_error

-- `while absvalue: r.append(absvalue & 0xff); absvalue >>= 8`
num_bytes : ℕ → ℕ → List ℕ
num_bytes zero v = []
num_bytes (suc fuel) v =
    let rest = num_bytes fuel (v / 256) in if v == 0 then [] else v % 256 ∷ rest

-- `CScriptNum.encode` of a number that is not negative: a zero byte keeps the sign bit clear.
unfoldable pub encode_script_num : ℕ → Result (List ℕ)
unfolding num_bytes
encode_script_num zero = ok []
encode_script_num (suc v) =
    let r = num_bytes (suc v) (suc v) in
    let r' = if leb 128 (get_or r (length r - 1) 0) then r ++ 0 ∷ [] else r in
    if ltb (length r') 256 then ok (length r' ∷ r') else err value_error

-- A height up to 16 is one operation and OP_0; `CScript([CScriptNum(height)])` otherwise.
unfoldable pub script_bip34_coinbase_height : ℕ → Result (List ℕ)
unfolding encode_script_num
script_bip34_coinbase_height height =
    if leb height 16
    then ok ((if height == 0 then 0 else 0x51 + height - 1) ∷ 0 ∷ [])
    else encode_script_num height
