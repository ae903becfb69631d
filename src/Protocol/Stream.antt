-- ===== src/Protocol/Stream.antt =====
-- Messages that were sent arrive, in their order.
use mutiny_net.Prelude.{
  ℕ, suc, ◌+◌, ◌^◌, ◌≤◌, ◌<◌, ◌≡◌, refl, sym, ap, ◌∙◌, subst, arith, List, [], ◌∷◌, ◌++◌, false,
  some, ltb, length, length-append, take, drop, length-take,
}
use mutiny_net.Prelude.Int.{ℤ, pos, ◌+ℤ◌, ltb_ℤ}
use mutiny_net.Prelude.Result.{ok, >>=-eq-ok, ok-injective}
use mutiny_net.Prelude.Texts.{eq_text_refl}
use mutiny_net.Bytes.{to_bytes, le_value_signed}
use mutiny_net.Bytes.Values.{to_bytes-eq-ok, le_value_signed-pos}
use mutiny_net.Protocol.{Message, Library}
use mutiny_net.Protocol.Write.{serialize}
use mutiny_net.Protocol.Map.{message_map, find, msgtype}
use mutiny_net.Protocol.RoundTrip.{IsDeliverable, received, message-IsRead}
use mutiny_net.Protocol.Frame.{
  name_field, before_zero, slice_end, received_one, on_parsed, on_class, build_message, on_frame,
  on_length, read_frame, on_data,
}
use mutiny_net.Protocol.Slices.{HasSlices, buffer-HasSlices}
use mathlib.Core.List.{append_assoc, append-nil}
use mutiny_net.Bytes.Parser.{Parser}

-- The name of a message is found in its field of twelve bytes.
pub name_field_lem :
    (m : Message) → (before_zero (name_field m) ≡ msgtype m) × (length (name_field m) ≡ 12)
unfolding name_field before_zero msgtype
name_field_lem Message.verack = (refl, refl)
name_field_lem other = (refl, refl)

pub ltb-false : (a b : ℕ) → b ≤ a → ltb a b ≡ false
ltb-false a b h = ground arith

pub pos-add : (a b : ℕ) → pos a +ℤ pos b ≡ pos (a + b)
unfolding ◌+ℤ◌
pos-add a b = ground arith

-- A number of four bytes whose highest bit is clear is read as it is by `<i`.
pub signed_length :
    (k : ℕ) (n : List ℕ) → to_bytes 4 k ≡ ok n → k < 2 ^ 31 → le_value_signed 4 n ≡ pos k
signed_length k n e h = le_value_signed-pos 4 k n (to_bytes-eq-ok 4 k n e).1 (omega arith)

module _ (lib : Library) (magic : List ℕ) where
  pub read_frame_lem :
      (buf : List ℕ)
      → take 4 buf ≡ magic
      → 24 ≤ length buf
      → read_frame lib magic buf
        ≡ on_length lib magic (le_value_signed 4 (take 4 (drop 16 buf))) buf
  unfolding read_frame
  read_frame_lem buf e h =
      rw
        (ltb-false (length buf) 4 (omega arith), e, eq_text_refl magic, ltb-false (length buf) 24 h)
        refl

  pub on_length_lem :
      (k : ℕ) (buf : List ℕ)
      → 24 + k ≤ length buf
      → on_length lib magic (pos k) buf ≡ on_frame lib magic (24 + k) buf
  unfolding on_length slice_end
  on_length_lem k buf h = rw (pos-add 24 k, at_most h) refl
    where
      at_most : 24 + k ≤ length buf → ltb_ℤ (pos (length buf)) (pos (24 + k)) ≡ false
      at_most g = ground arith

  pub on_frame_lem :
      (stop : ℕ) (buf name p rest : List ℕ) (parser : Parser Message)
      → drop 24 (take stop buf) ≡ p
      → take 4 (drop 20 buf) ≡ take 4 (lib.hash256 p)
      → before_zero (take 12 (drop 4 buf)) ≡ name
      → drop stop buf ≡ rest
      → find name (message_map lib) ≡ some parser
      → on_frame lib magic stop buf ≡ on_parsed rest (parser p)
  unfolding on_frame on_class
  on_frame_lem stop buf name p rest parser message checked named left found =
      rw (message, checked, eq_text_refl (take 4 (lib.hash256 p)), named, left, found) refl

module _ (lib : Library) (magic : List ℕ) where
  -- A round of the loop that found a message
  pub on_data-one :
      (fuel : ℕ) (buf rest : List ℕ) (m : Message)
      → read_frame lib magic buf ≡ received_one m rest
      → on_data lib magic (suc fuel) buf
        ≡ (m ∷ (on_data lib magic fuel rest).0, (on_data lib magic fuel rest).1)
  unfolding on_data
  on_data-one fuel buf rest m e = rw (e, on_data) refl

-- The bytes of a message that was sent
pub record IsFrame (lib : Library) (magic : List ℕ) (m : Message) (f : List ℕ) : Type 0 where
  pub payload : List ℕ
  pub counted : List ℕ
  pub written : serialize lib m ≡ ok payload
  pub has_length : to_bytes 4 (length payload) ≡ ok counted
  pub made : magic ++ (name_field m ++ (counted ++ (take 4 (lib.hash256 payload) ++ payload))) ≡ f

pub build_message-IsFrame :
    (lib : Library) (magic : List ℕ) (m : Message) (f : List ℕ)
    → build_message lib magic m ≡ ok f
    → IsFrame lib magic m f
unfolding build_message
build_message-IsFrame lib magic m f e =
    let (payload, written, e1) = >>=-eq-ok (serialize lib m) _ e in
    let (n, counted, e2) = >>=-eq-ok (to_bytes 4 (length payload)) _ e1 in
    record {
      payload = payload;
      counted = n;
      written = written;
      has_length = counted;
      made = ok-injective e2;
    }

regroup :
    (a b c d p rest : List ℕ)
    → (a ++ (b ++ (c ++ (d ++ p)))) ++ rest ≡ a ++ (b ++ (c ++ (d ++ (p ++ rest))))
regroup a b c d p rest = simp (append_assoc)

module _ (lib : Library) (magic : List ℕ) (lm : length magic ≡ 4)
    (lh : (s : List ℕ) → 4 ≤ length (lib.hash256 s)) where
  abbrev pub checksum : List ℕ → List ℕ
  checksum p = take 4 (lib.hash256 p)

  pub length-checksum : (p : List ℕ) → length (checksum p) ≡ 4
  length-checksum p = omega (arith, length-take 4 (lib.hash256 p), lh p)

  pub length-IsFrame :
      {m : Message} {f : List ℕ} (t : IsFrame lib magic m f) → length f ≡ 24 + length t.payload
  length-IsFrame {m} {f} t =
      subst (λ (g : List ℕ). length g ≡ 24 + length t.payload) t.made
        (omega (
          arith,
          lm,
          (name_field_lem m).1,
          (to_bytes-eq-ok 4 (length t.payload) t.counted t.has_length).0,
          length-checksum t.payload,
          length-append magic (name_field m ++ (t.counted ++ (checksum t.payload ++ t.payload))),
          length-append (name_field m) (t.counted ++ (checksum t.payload ++ t.payload)),
          length-append t.counted (checksum t.payload ++ t.payload),
          length-append (checksum t.payload) t.payload,
        ))

  pub IsFrame-HasSlices :
      (m : Message) (f rest : List ℕ) (t : IsFrame lib magic m f)
      → HasSlices (f ++ rest) magic (name_field m) t.counted (checksum t.payload) t.payload rest
  IsFrame-HasSlices m f rest t =
      subst
        (λ (buf : List ℕ).
          HasSlices buf magic (name_field m) t.counted (checksum t.payload) t.payload rest)
        (sym (
          ap (λ (g : List ℕ). g ++ rest) (sym t.made)
          ∙ regroup magic (name_field m) t.counted (checksum t.payload) t.payload rest))
        (buffer-HasSlices magic (name_field m) t.counted (checksum t.payload) t.payload rest lm
          (name_field_lem m).1 (to_bytes-eq-ok 4 (length t.payload) t.counted t.has_length).0
          (length-checksum t.payload))

  -- A frame at the start of the buffer is read, and the rest is left.
  pub read_frame-IsFrame :
      (m : Message) (f rest : List ℕ)
      → IsDeliverable lib m
      → IsFrame lib magic m f
      → length f < 2 ^ 31
      → read_frame lib magic (f ++ rest) ≡ received_one (received lib m) rest
  unfolding on_parsed
  read_frame-IsFrame m f rest d t short =
      let r = message-IsRead lib m d in
      let k = length t.payload in
      let buf = f ++ rest in
      let h = IsFrame-HasSlices m f rest t in
      let parsed : r.parser t.payload ≡ ok (received lib m, []) =
        subst (λ (s : List ℕ). r.parser s ≡ ok (received lib m, [])) (append-nil t.payload)
          (r.reads_back.back t.payload [] t.written) in
      read_frame_lem lib magic buf h.magic_found (omega (arith, h.has_length))
      ∙ ap (λ (l : ℤ). on_length lib magic l buf)
          (ap (le_value_signed 4) h.length_found
            ∙ signed_length k t.counted t.has_length (omega (arith, length-IsFrame t)))
      ∙ on_length_lem lib magic k buf (omega (arith, h.has_length))
      ∙ on_frame_lem lib magic (24 + k) buf (msgtype m) t.payload rest r.parser h.message_found
          h.checksum_found (ap before_zero h.name_found ∙ (name_field_lem m).0) h.rest_found r.found
      ∙ ap (on_parsed rest) parsed
