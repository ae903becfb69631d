-- ===== src/Protocol/Frame.antt =====
-- The frames of version 1 of the protocol in `miner_imports/test_framework/p2p.py`:
-- `P2PConnection.build_message`, `_on_data` and `data_received` of a connection without encryption.
-- `magic` are the magic bytes of the network.
use mutiny_net.Prelude.{
  ℕ, zero, suc, ◌-◌, ◌==◌, List, [], ◌∷◌, ◌++◌, not, Option, none, some, if◌then◌else◌, ltb, length,
  take, drop, replicate,
}
use mutiny_net.Prelude.Int.{ℤ, pos, negsuc, ◌+ℤ◌, ltb_ℤ}
use mutiny_net.Prelude.Result.{Exception, Result, ok, err, value_error, ◌>>=◌}
use mutiny_net.Prelude.Texts.{eq_text}
use mutiny_net.Bytes.{to_bytes, le_value_signed}
use mutiny_net.Bytes.Parser.{Parser}
use mutiny_net.Protocol.{Message, Library}
use mutiny_net.Protocol.Write.{serialize}
use mutiny_net.Protocol.Map.{message_map, find, msgtype}

-- The name of a message, filled up to twelve bytes
unfoldable pub name_field : Message → List ℕ
unfolding msgtype
name_field m = msgtype m ++ replicate (12 - length (msgtype m)) 0

-- `_.split(b"\x00", 1)[0]`
unfoldable pub before_zero : List ℕ → List ℕ
before_zero [] = []
before_zero (b ∷ s) = let rest = before_zero s in if b == 0 then [] else b ∷ rest

-- Where a slice that ends at `i` ends: a negative index counts from the end.
unfoldable pub slice_end : ℤ → List ℕ → ℕ
slice_end (pos i) s = i
slice_end (negsuc i) s = length s - suc i

-- What a round of the loop of `_on_data` finds: not enough bytes, a message and the rest of the
-- buffer, or an exception.
pub data Found : Type 0 where
  waiting : Found
  received_one : Message → List ℕ → Found
  raised : Exception → Found

-- How the loop ends: it waits with the bytes that are left, an exception is raised, or it still runs.
pub data Ending : Type 0 where
  waits : List ℕ → Ending
  fails : Exception → Ending
  runs : List ℕ → Ending

-- The message is read from its bytes; what it leaves of them is dropped.
unfoldable pub on_parsed : List ℕ → Result (Message × List ℕ) → Found
on_parsed rest (err e) = raised e
on_parsed rest (ok (m, unread)) = received_one m rest

-- `MESSAGEMAP[msgtype]()` and `t.deserialize(f)`
unfoldable pub on_class : Option (Parser Message) → List ℕ → List ℕ → Found
unfolding on_parsed
on_class none msg rest = raised value_error
on_class (some parser) msg rest = on_parsed rest (parser msg)

module _ (lib : Library) (magic : List ℕ) where
  unfoldable pub build_message : Message → Result (List ℕ)
  unfolding serialize to_bytes name_field
  build_message m = do
    payload ← serialize lib m
    n ← to_bytes 4 (length payload)
    ok (magic ++ (name_field m ++ (n ++ (take 4 (lib.hash256 payload) ++ payload))))

  -- The rest of a round, with the end of the message in the buffer
  unfoldable pub on_frame : ℕ → List ℕ → Found
  unfolding eq_text before_zero find message_map on_class
  on_frame stop buf =
      let msg = drop 24 (take stop buf) in
      if not (eq_text (take 4 (drop 20 buf)) (take 4 (lib.hash256 msg)))
      then raised value_error
      else on_class (find (before_zero (take 12 (drop 4 buf))) (message_map lib)) msg
          (drop stop buf)

  -- The length is a signed number of four bytes.
  unfoldable pub on_length : ℤ → List ℕ → Found
  unfolding ◌+ℤ◌ slice_end on_frame
  on_length msglen buf =
      let stop = pos 24 +ℤ msglen in
      if ltb_ℤ (pos (length buf)) stop then waiting else on_frame (slice_end stop buf) buf

  unfoldable pub read_frame : List ℕ → Found
  unfolding eq_text le_value_signed on_length
  read_frame buf =
      if ltb (length buf) 4
      then waiting
      else if not (eq_text (take 4 buf) magic)
      then raised value_error
      else if ltb (length buf) 24
      then waiting
      else on_length (le_value_signed 4 (take 4 (drop 16 buf))) buf

  -- `while True` of `_on_data`, with the messages that are passed to `on_message`
  unfoldable pub on_data : ℕ → List ℕ → List Message × Ending
  unfolding read_frame
  on_data zero buf = ([], runs buf)
  on_data (suc fuel) buf = elim (read_frame buf) [
    | waiting ↦ ([], waits buf)
    | raised e ↦ ([], fails e)
    | received_one m rest ↦ let r = on_data fuel rest in (m ∷ r.0, r.1)
  ]

  -- `data_received` of bytes on a buffer. A frame takes a byte of the buffer at least, if its length is
  -- not negative, so there are fewer rounds than bytes, but for one.
  unfoldable pub data_received : List ℕ → List ℕ → List Message × Ending
  unfolding on_data
  data_received buf t =
      if length t == 0 then ([], waits buf) else on_data (suc (length (buf ++ t))) (buf ++ t)

  -- The bytes arrive in pieces: after each, all that is there is read.
  unfoldable pub data_arrives : List ℕ → List (List ℕ) → List Message × Ending
  unfolding data_received
  data_arrives buf [] = ([], waits buf)
  data_arrives buf (t ∷ pieces) =
      let first = data_received buf t in
      elim first.1 [
        | waits buf' ↦ let r = data_arrives buf' pieces in (first.0 ++ r.0, r.1)
        | fails e ↦ first
        | runs buf' ↦ first
      ]
