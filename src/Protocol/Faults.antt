-- ===== src/Protocol/Faults.antt =====
-- Two inputs that the reader of frames does not treat as other ones.
use mutiny_net.Prelude.{
  ℕ, zero, suc, ◌+◌, ◌^◌, ◌≤◌, ◌<◌, ◌≡◌, refl, ap, ◌∙◌, arith, List, [], ◌∷◌, ◌++◌, length,
  replicate, take, false,
}
use mutiny_net.Prelude.Int.{ℤ, pos, negsuc, ◌+ℤ◌, ltb_ℤ}
use mutiny_net.Prelude.Result.{ok, err, type_error}
use mutiny_net.Bytes.{le_value_signed}
use mutiny_net.Bytes.Parser.{call}
use mutiny_net.Protocol
use mutiny_net.Protocol.{Message, Library}
use mutiny_net.Protocol.Write.{serialize}
use mutiny_net.Protocol.Map.{message_map, find, msgtype}
use mutiny_net.Protocol.RoundTrip.{IsDeliverable, received, message-IsRead}
use mutiny_net.Protocol.Frame.{
  name_field, before_zero, slice_end, received_one, raised, Ending, runs, on_parsed, build_message,
  on_frame, on_length, read_frame, on_data,
}
use mutiny_net.Protocol.Slices.{buffer-HasSlices}
use mutiny_net.Protocol.Stream.{
  name_field_lem, build_message-IsFrame, length-checksum, signed_length, read_frame_lem,
  on_length_lem, on_frame_lem, length-IsFrame, IsFrame-HasSlices, on_data-one,
}

-- The bytes of the length -24, as a signed number of four bytes
abbrev pub minus_24 : List ℕ
minus_24 = 0xe8 ∷ 0xff ∷ 0xff ∷ 0xff ∷ []

-- A frame without contents whose length is -24, before other bytes
unfoldable pub endless_frame : Library → List ℕ → Message → List ℕ → List ℕ
unfolding name_field
endless_frame lib magic m rest =
    magic ++ (name_field m ++ (minus_24 ++ (take 4 (lib.hash256 []) ++ ([] ++ rest))))

module _ (lib : Library) (magic : List ℕ) (lm : length magic ≡ 4)
    (lh : (s : List ℕ) → 4 ≤ length (lib.hash256 s)) where
  -- The message ends where the buffer starts.
  on_length-minus_24 :
      (buf : List ℕ) → on_length lib magic (negsuc 23) buf ≡ on_frame lib magic 0 buf
  unfolding on_length slice_end ◌+ℤ◌
  on_length-minus_24 buf = rw (none_missing (length buf)) refl
    where
      none_missing : (n : ℕ) → ltb_ℤ (pos n) (pos 0) ≡ false
      none_missing n = ground arith

  read_frame-endless :
      (m : Message) (rest : List ℕ)
      → IsDeliverable lib m
      → serialize lib m ≡ ok []
      → read_frame lib magic (endless_frame lib magic m rest)
        ≡ received_one (received lib m) (endless_frame lib magic m rest)
  unfolding endless_frame le_value_signed on_parsed
  read_frame-endless m rest d e =
      let buf = endless_frame lib magic m rest in
      let h =
        buffer-HasSlices magic (name_field m) minus_24 (take 4 (lib.hash256 [])) [] rest lm
          (name_field_lem m).1 refl (length-checksum lib magic lm lh []) in
      let r = message-IsRead lib m d in
      read_frame_lem lib magic buf h.magic_found (omega (arith, h.has_length))
      ∙ ap (λ (s : List ℕ). on_length lib magic (le_value_signed 4 s) buf) h.length_found
      ∙ on_length-minus_24 buf
      ∙ on_frame_lem lib magic 0 buf (msgtype m) [] buf r.parser refl h.checksum_found
          (ap before_zero h.name_found ∙ (name_field_lem m).0) refl r.found
      ∙ ap (on_parsed buf) (r.reads_back.back [] [] e)

-- However many rounds it is given, the loop of `_on_data` still runs on a frame whose length is -24, if
-- the message of its name has no contents: each round passes on the same message again, and takes
-- nothing from the buffer.
pub on_data-endless_frame :
    (fuel : ℕ) (lib : Library) (magic : List ℕ) (m : Message) (rest : List ℕ)
    → length magic ≡ 4
    → ((s : List ℕ) → 4 ≤ length (lib.hash256 s))
    → IsDeliverable lib m
    → serialize lib m ≡ ok []
    → on_data lib magic fuel (endless_frame lib magic m rest)
      ≡ (replicate fuel (received lib m), runs (endless_frame lib magic m rest))
unfolding on_data
on_data-endless_frame zero lib magic m rest lm lh d e = refl
on_data-endless_frame (suc fuel) lib magic m rest lm lh d e =
    let buf = endless_frame lib magic m rest in
    on_data-one lib magic fuel buf buf (received lib m)
      (read_frame-endless lib magic lm lh m rest d e)
    ∙ ap (λ (r : List Message × Ending). (received lib m ∷ r.0, r.1))
        (on_data-endless_frame fuel lib magic m rest lm lh d e)

-- A frame with a message `filteradd` raises TypeError when it is read, whatever bytes the message has
-- and whatever follows it: an object of its class cannot be made without the bytes.
pub read_frame-filteradd :
    (lib : Library) (magic : List ℕ) (m : Protocol.MsgFilteradd) (f rest : List ℕ)
    → length magic ≡ 4
    → ((s : List ℕ) → 4 ≤ length (lib.hash256 s))
    → build_message lib magic (Message.filteradd m) ≡ ok f
    → length f < 2 ^ 31
    → read_frame lib magic (f ++ rest) ≡ raised type_error
unfolding find message_map msgtype on_parsed call
read_frame-filteradd lib magic m f rest lm lh e short =
    let t = build_message-IsFrame lib magic (Message.filteradd m) f e in
    let buf = f ++ rest in
    let h = IsFrame-HasSlices lib magic lm lh (Message.filteradd m) f rest t in
    let k = length t.payload in
    read_frame_lem lib magic buf h.magic_found (omega (arith, h.has_length))
    ∙ ap (λ (l : ℤ). on_length lib magic l buf)
        (ap (le_value_signed 4) h.length_found
          ∙ signed_length k t.counted t.has_length
              (omega (arith, length-IsFrame lib magic lm lh t)))
    ∙ on_length_lem lib magic k buf (omega (arith, h.has_length))
    ∙ on_frame_lem lib magic (24 + k) buf (msgtype (Message.filteradd m)) t.payload rest
        (call (err type_error)) h.message_found h.checksum_found
        (ap before_zero h.name_found ∙ (name_field_lem (Message.filteradd m)).0) h.rest_found refl
