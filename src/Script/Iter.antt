-- ===== src/Script/Iter.antt =====
-- The iterators over a script in `miner_imports/test_framework/script.py`, the counting of signature
-- operations, and the making of a script from its items.
use mutiny_net.Prelude.{
  ℕ, zero, suc, ◌+◌, ◌-◌, ◌*◌, ◌/◌, ◌^◌, List, [], ◌∷◌, ◌++◌, Option, none, some, Bool, true, false,
  ◌&&◌, ◌||◌, not, ltb, leb, ◌==◌, if◌then◌else◌, length, take, drop, get_or, bit_or, ◌⊎◌, inl, inr,
}
use mutiny_net.Prelude.Int.{ℤ, pos, negsuc}
use mutiny_net.Prelude.Result.{Result, ok, err, value_error, ◌>>=◌}
use mutiny_net.Bytes.{le_value, le_digits}
use mutiny_net.Script.{encode_op_pushdata}

-- `CScriptInvalidError` and `CScriptTruncatedPushDataError`
pub data ScriptError : Type 0 where
  missing_length : ScriptError
  truncated : List ℕ → ScriptError

-- What `raw_iter` yields: an opcode, the bytes that it pushes, and where it stands.
pub record RawOp : Type 0 where
  pub opcode : ℕ
  pub pushed : Option (List ℕ)
  pub sop_idx : ℕ

-- The number of bytes of a push, and how many bytes tell it
unfoldable pub push_size : ℕ → List ℕ → Option (ℕ × ℕ)
unfolding le_value
push_size opcode rest =
    if ltb opcode 0x4c
    then some (opcode, 0)
    else if opcode == 0x4c
    then (if ltb (length rest) 1 then none else some (le_value (take 1 rest), 1))
    else if opcode == 0x4d
    then (if ltb (length rest) 2 then none else some (le_value (take 2 rest), 2))
    else (if ltb (length rest) 4 then none else some (le_value (take 4 rest), 4))

-- One round of the loop of `raw_iter`: the operation, the bytes behind it and how many it took
pub data Round : Type 0 where
  yields : RawOp → List ℕ → ℕ → Round
  stops : ScriptError → Round

unfoldable pub push_round : ℕ → ℕ → List ℕ → Option (ℕ × ℕ) → Round
push_round i opcode rest none = stops missing_length
push_round i opcode rest (some (datasize, skipped)) =
    let pushed = take datasize (drop skipped rest) in
    if ltb (length pushed) datasize
    then stops (truncated pushed)
    else yields (record { opcode = opcode; pushed = some pushed; sop_idx = i })
        (drop datasize (drop skipped rest)) (1 + skipped + datasize)

unfoldable pub raw_round : ℕ → ℕ → List ℕ → Round
unfolding push_size push_round
raw_round i opcode rest =
    if ltb 0x4e opcode
    then yields (record { opcode = opcode; pushed = none; sop_idx = i }) rest 1
    else push_round i opcode rest (push_size opcode rest)

-- The operations that are yielded, and the error that ends the loop, if one does. Each round takes a
-- byte at least.
unfoldable pub raw_loop : ℕ → ℕ → List ℕ → List RawOp × Option ScriptError
unfolding raw_round
raw_loop zero i s = ([], none)
raw_loop (suc fuel) i [] = ([], none)
raw_loop (suc fuel) i (opcode ∷ rest) = elim (raw_round i opcode rest) [
  | stops e ↦ ([], some e)
  | yields op s n ↦ let r = raw_loop fuel (i + n) s in (op ∷ r.0, r.1)
]

unfoldable pub raw_iter : List ℕ → List RawOp × Option ScriptError
unfolding raw_loop
raw_iter script = raw_loop (length script) 0 script

-- `CScriptOp.encode_op_n`
unfoldable pub encode_op_n : ℤ → Result ℕ
encode_op_n (negsuc n) = err value_error
encode_op_n (pos n) =
    if not (leb n 16) then err value_error else ok (if n == 0 then 0 else 0x51 + n - 1)

-- `CScriptOp.decode_op_n`
unfoldable pub decode_op_n : ℕ → Result ℕ
decode_op_n op =
    if op == 0
    then ok 0
    else if not (leb 0x51 op && leb op 0x60)
    then err value_error
    else ok (op - 0x51 + 1)

unfoldable pub is_small_int : ℕ → Bool
is_small_int op = (leb 0x51 op && leb op 0x60) || (op == 0)

-- What a script is made of, and what the iterator yields: bytes, a number, or an operation.
pub data Item : Type 0 where
  bytes : List ℕ → Item
  num : ℤ → Item
  op : ℕ → Item

-- `CScript.__iter__`
unfoldable pub cooked : RawOp → Result Item
unfolding is_small_int decode_op_n
cooked r = elim r.pushed [
  | some d ↦ ok (bytes d)
  | none ↦
      if is_small_int r.opcode
      then (do n ← decode_op_n r.opcode; ok (num (pos n)))
      else ok (op r.opcode)
]

-- The highest bit of a number
unfoldable pub bit_length : ℕ → ℕ → ℕ
bit_length zero n = 0
bit_length (suc fuel) n = let rest = suc (bit_length fuel (n / 2)) in if n == 0 then 0 else rest

abbrev pub magnitude : ℤ → ℕ
magnitude (pos n) = n
magnitude (negsuc n) = suc n

abbrev pub is_negative : ℤ → Bool
is_negative (pos n) = false
is_negative (negsuc n) = true

-- `bn2vch`: the sign goes to the highest bit, which the magnitude leaves clear.
unfoldable pub bn2vch : ℤ → List ℕ
unfolding bit_length le_digits
bn2vch v =
    let n = magnitude v in
    let n_bytes = (bit_length n n + (if n == 0 then 0 else 1) + 7) / 8 in
    le_digits n_bytes (bit_or n ((if is_negative v then 1 else 0) * 2 ^ (n_bytes * 8 - 1)))

-- `CScript.__coerce_instance`
unfoldable pub coerce : Item → Result (List ℕ)
unfolding encode_op_pushdata encode_op_n bn2vch
coerce (op o) = ok (o ∷ [])
coerce (bytes d) = encode_op_pushdata d
coerce (num (negsuc zero)) = ok (0x4f ∷ [])
coerce (num (negsuc (suc n))) = encode_op_pushdata (bn2vch (negsuc (suc n)))
coerce (num (pos n)) =
    if leb n 16
    then (do o ← encode_op_n (pos n); ok (o ∷ []))
    else encode_op_pushdata (bn2vch (pos n))

-- `CScript(items)`
unfoldable pub make_script : List Item → Result (List ℕ)
unfolding coerce
make_script [] = ok []
make_script (i ∷ items) = do s ← coerce i; rest ← make_script items; ok (s ++ rest)

-- `GetSigOpCount` over the operations
unfoldable pub sig_ops : Bool → ℕ → List RawOp → ℕ
sig_ops accurate last [] = 0
sig_ops accurate last (r ∷ ops) =
    (if r.opcode == 0xac || r.opcode == 0xad
      then 1
      else if r.opcode == 0xae || r.opcode == 0xaf
      then (if accurate && (leb 0x51 last && leb last 0x60) then last - 0x51 + 1 else 20)
      else 0)
    + sig_ops accurate r.opcode ops

-- An error of the iterator is raised.
unfoldable pub get_sig_op_count : Bool → List ℕ → ℕ ⊎ ScriptError
unfolding raw_iter sig_ops
get_sig_op_count accurate script =
    let r = raw_iter script in elim r.1 [ none ↦ inl (sig_ops accurate 0xff r.0) | some e ↦ inr e ]

unfoldable pub is_witness_program : List ℕ → Bool
is_witness_program script =
    leb 4 (length script)
    && leb (length script) 42
    && ((get_or script 0 0 == 0) || (leb 0x51 (get_or script 0 0) && leb (get_or script 0 0) 0x60))
    && (get_or script 1 0 + 2 == length script)
