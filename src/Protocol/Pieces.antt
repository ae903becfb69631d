-- ===== src/Protocol/Pieces.antt =====
-- A stream of messages may arrive in pieces of any sizes.
use mutiny_net.Prelude.{
  ℕ, zero, suc, ◌+◌, ◌^◌, ◌≤◌, ◌<◌, ◌==◌, ◌≡◌, ◌⊎◌, inl, inr, refl, sym, ap, ◌∙◌, subst, arith,
  List, [], ◌∷◌, ◌++◌, map, All, false, length, length-append,
}
use mutiny_net.Prelude.Result.{Result, ok, ◌>>=◌, >>=-eq-ok, ok-injective}
use mutiny_net.Protocol.{Message, Library}
use mutiny_net.Protocol.RoundTrip.{IsDeliverable, received}
use mutiny_net.Protocol.Frame.{
  Ending, waits, build_message, read_frame, on_data, data_received, data_arrives,
}
use mutiny_net.Protocol.Stream.{
  IsFrame, build_message-IsFrame, length-IsFrame, read_frame-IsFrame, on_data-one,
}
use mathlib.Core.List.{append_assoc, map-append}
use mutiny_net.Protocol.Waiting.{overlap, left_nil, All-right, read_frame-part, on_data-waiting}

-- What a connection writes for messages that are sent one after the other
unfoldable pub send_all : Library → List ℕ → List Message → Result (List ℕ)
unfolding build_message
send_all lib magic [] = ok []
send_all lib magic (m ∷ ms) = do
  f ← build_message lib magic m
  s ← send_all lib magic ms
  ok (f ++ s)

unfoldable pub joined : List (List ℕ) → List ℕ
joined [] = []
joined (t ∷ pieces) = t ++ joined pieces

module _ (lib : Library) (magic : List ℕ) (lm : length magic ≡ 4)
    (lh : (s : List ℕ) → 4 ≤ length (lib.hash256 s)) where
  -- What is left of a stream after the bytes of `buf` that have arrived, before `rest`: the messages
  -- whose frames are complete are passed on, and no frame in the buffer is complete.
  record Progress (fuel : ℕ) (buf rest : List ℕ) (ms : List Message) : Type 0 where
    done : List Message
    left : List Message
    buffer : List ℕ
    stream : List ℕ
    all : ms ≡ done ++ left
    passed : on_data lib magic fuel buf ≡ (map (received lib) done, waits buffer)
    stream_of : send_all lib magic left ≡ ok stream
    continues : buffer ++ rest ≡ stream
    settled : (left ≡ []) ⊎ (length buffer < length stream)
    bounded : length stream < 2 ^ 31

  on_data-Progress :
      (fuel : ℕ) (buf rest s : List ℕ) (ms : List Message)
      → All (IsDeliverable lib) ms
      → send_all lib magic ms ≡ ok s
      → length s < 2 ^ 31
      → buf ++ rest ≡ s
      → length buf < fuel
      → Progress fuel buf rest ms
  unfolding send_all
  on_data-Progress zero buf rest s ms d e short g l = absurd (omega arith)
  on_data-Progress (suc fuel) buf rest s [] d e short g l =
      let empty : buf ≡ [] = left_nil buf rest (g ∙ sym (ok-injective e)) in
      record {
        done = [];
        left = [];
        buffer = [];
        stream = s;
        all = refl;
        passed =
            subst (λ (b : List ℕ). on_data lib magic (suc fuel) b ≡ ([], waits [])) (sym empty)
              (on_data-waiting lib magic lm lh fuel [] (unfold read_frame in refl));
        stream_of = e;
        continues = subst (λ (b : List ℕ). b ++ rest ≡ s) empty g;
        settled = inl refl;
        bounded = short;
      }
  on_data-Progress (suc fuel) buf rest s (m ∷ ms) (d, ds) e short g l =
      let (f, built, e1) = >>=-eq-ok (build_message lib magic m) _ e in
      let (s', sent, e2) = >>=-eq-ok (send_all lib magic ms) _ e1 in
      let joint : f ++ s' ≡ s = ok-injective e2 in
      let t = build_message-IsFrame lib magic m f built in
      let sizes : length f + length s' ≡ length s = sym (length-append f s') ∙ ap length joint in
      elim (overlap buf rest f s' (g ∙ sym joint)) [
        | inl (y, ly, fe) ↦ record {
          done = [];
          left = m ∷ ms;
          buffer = buf;
          stream = s;
          all = refl;
          passed = on_data-waiting lib magic lm lh fuel buf (
              read_frame-part lib magic lm lh m buf y (subst (IsFrame lib magic m) fe t) ly
                (omega (arith, ap length fe, sizes)));
          stream_of = e;
          continues = g;
          settled = inr (omega (arith, ap length fe, length-append buf y, sizes));
          bounded = short;
        }
        | inr (b', be, g') ↦
            let p =
              on_data-Progress fuel b' rest s' ms ds sent (omega (arith, sizes)) g' (
                omega
                  (arith, ap length be, length-append f b', length-IsFrame lib magic lm lh t)) in
            record {
              done = m ∷ p.done;
              left = p.left;
              buffer = p.buffer;
              stream = p.stream;
              all = ap (λ (l : List Message). m ∷ l) p.all;
              passed =
                  ap (on_data lib magic (suc fuel)) be
                  ∙ on_data-one lib magic fuel (f ++ b') b' (received lib m)
                      (read_frame-IsFrame lib magic lm lh m f b' d t (omega (arith, sizes)))
                  ∙ ap (λ (r : List Message × Ending). (received lib m ∷ r.0, r.1)) p.passed;
              stream_of = p.stream_of;
              continues = p.continues;
              settled = p.settled;
              bounded = p.bounded;
            }
      ]

  on_arrival :
      (buf t : List ℕ) (pieces : List (List ℕ)) (ms : List Message) (buf' : List ℕ)
      → data_received lib magic buf t ≡ (ms, waits buf')
      → data_arrives lib magic buf (t ∷ pieces)
        ≡ (ms ++ (data_arrives lib magic buf' pieces).0, (data_arrives lib magic buf' pieces).1)
  unfolding data_arrives
  on_arrival buf t pieces ms buf' e = rw (e, data_arrives) (rw e refl)

  some_received :
      (buf t : List ℕ)
      → 0 < length t
      → data_received lib magic buf t ≡ on_data lib magic (suc (length (buf ++ t))) (buf ++ t)
  unfolding data_received
  some_received buf t h = rw (not_zero h) refl
    where
      not_zero : 0 < length t → (length t == 0) ≡ false
      not_zero g = ground arith

  -- Once all pieces have arrived, nothing is left to pass on.
  all_arrived :
      (buf s : List ℕ) (ms : List Message)
      → send_all lib magic ms ≡ ok s
      → buf ++ [] ≡ s
      → (ms ≡ []) ⊎ (length buf < length s)
      → ◌≡◌ {A = List Message × Ending} ([], waits buf) (map (received lib) ms, waits [])
  unfolding send_all
  all_arrived buf s [] e g settled =
      ap (λ (b : List ℕ). ([], waits b)) (left_nil buf [] (g ∙ sym (ok-injective e)))
  all_arrived buf s (m ∷ ms) e g (inl h) = cc
  all_arrived buf s (m ∷ ms) e g (inr h) = absurd (omega (arith, ap length g, length-append buf []))

  -- The pieces that are still to come, with what the buffer holds of the stream
  arrives :
      (pieces : List (List ℕ)) (buf s : List ℕ) (ms : List Message)
      → All (IsDeliverable lib) ms
      → send_all lib magic ms ≡ ok s
      → length s < 2 ^ 31
      → buf ++ joined pieces ≡ s
      → (ms ≡ []) ⊎ (length buf < length s)
      → data_arrives lib magic buf pieces ≡ (map (received lib) ms, waits [])
  unfolding data_arrives joined
  arrives [] buf s ms d e short g settled = all_arrived buf s ms e g settled
  arrives ([] ∷ pieces) buf s ms d e short g settled =
      on_arrival buf [] pieces [] buf (unfold data_received in refl)
      ∙ arrives pieces buf s ms d e short g settled
  arrives ((c ∷ t) ∷ pieces) buf s ms d e short g settled =
      let p =
        on_data-Progress (suc (length (buf ++ c ∷ t))) (buf ++ c ∷ t) (joined pieces) s ms d e short
          (append_assoc buf (c ∷ t) (joined pieces) ∙ g) (omega arith) in
      on_arrival buf (c ∷ t) pieces (map (received lib) p.done) p.buffer
        (some_received buf (c ∷ t) (omega arith) ∙ p.passed)
      ∙ ap (λ (r : List Message × Ending). (map (received lib) p.done ++ r.0, r.1))
          (arrives pieces p.buffer p.stream p.left
            (All-right (IsDeliverable lib) p.done p.left (subst (All (IsDeliverable lib)) p.all d))
            p.stream_of p.bounded p.continues p.settled)
      ∙ ap (λ (l : List Message). (l, waits []))
          (sym (map-append (received lib) p.done p.left) ∙ ap (map (received lib)) (sym p.all))

  -- The buffer is empty at first.
  not_begun :
      (s : List ℕ) (ms : List Message) → send_all lib magic ms ≡ ok s → (ms ≡ []) ⊎ (0 < length s)
  unfolding send_all
  not_begun s [] e = inl refl
  not_begun s (m ∷ ms) e =
      let (f, built, e1) = >>=-eq-ok (build_message lib magic m) _ e in
      let (s', sent, e2) = >>=-eq-ok (send_all lib magic ms) _ e1 in
      inr (
        omega (
          arith,
          length-IsFrame lib magic lm lh (build_message-IsFrame lib magic m f built),
          length-append f s',
          ap length (ok-injective e2),
        ))

-- Messages that are sent one after the other arrive in their order, in whatever pieces their bytes
-- arrive, and nothing is left in the buffer: if each of them can be read back, there are four magic
-- bytes, a hash has four bytes at least, and all together have less than 2 ^ 31 bytes.
pub data_arrives-send_all :
    (lib : Library) (magic : List ℕ) (ms : List Message) (s : List ℕ) (pieces : List (List ℕ))
    → length magic ≡ 4
    → ((p : List ℕ) → 4 ≤ length (lib.hash256 p))
    → All (IsDeliverable lib) ms
    → send_all lib magic ms ≡ ok s
    → length s < 2 ^ 31
    → joined pieces ≡ s
    → data_arrives lib magic [] pieces ≡ (map (received lib) ms, waits [])
data_arrives-send_all lib magic ms s pieces lm lh d e short g =
    arrives lib magic lm lh pieces [] s ms d e short g (not_begun lib magic lm lh s ms e)
