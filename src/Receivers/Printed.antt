-- ===== src/Receivers/Printed.antt =====
-- What the data receiver prints of a connection that was served whole.
use khadas_yolov8n_multithre.Prelude.{
  ℕ, zero, suc, ◌+◌, ◌*◌, ◌^◌, ◌≤◌, ◌<◌, ◌≡◌, refl, sym, ap, ◌∙◌, Bool, true, false, ◌||◌, Option,
  none, some, List, [], ◌∷◌, ◌++◌, map, arith, ltb, ◌==◌, length, take, drop, length-append,
  take-append-length, drop-append-length, List-cases, inl, inr,
}
use khadas_yolov8n_multithre.Stream.{Input}
use khadas_yolov8n_multithre.Stream.Read.{flat, Lively, read_exact-front}
use khadas_yolov8n_multithre.Wire.{
  WireFrameHeader, WireDetectionRecord, header_size, detection_size, max_detections,
  decode_detection,
}
use khadas_yolov8n_multithre.Wire.Roundtrip.{IsHeader}
use khadas_yolov8n_multithre.Frames.{DetectionMessage, header_of, detection_of, serve}
use khadas_yolov8n_multithre.Frames.Roundtrip.{
  joined, frame_bytes, AllSized, IsMessage, open_frame-front, open_frame-end, wire_record,
  count-records, count-header_of, header_of-IsHeader, records-AllSized, decode-records,
}
use khadas_yolov8n_multithre.Frames.Sender.{message_bytes, stream_bytes, serve-Writes}
use khadas_yolov8n_multithre.Stream.Write.{Writes-ok}
use khadas_yolov8n_multithre.Receivers.{
  Print, ended, closed, printed, chunks, receive_round, receive_loop, data_receiver, guard_body,
  read_body,
}

chunks-joined :
    (size : ℕ) (rs : List (List ℕ)) → AllSized size rs → chunks size (length rs) (joined rs) ≡ rs
unfolding chunks
chunks-joined size [] h = refl
chunks-joined size (r ∷ rs) h =
    let all = r ++ joined rs in
    let first : take size all ≡ r =
      ap (λ k. take k all) (sym h.0) ∙ take-append-length r (joined rs) in
    let others : drop size all ≡ joined rs =
      ap (λ k. drop k all) (sym h.0) ∙ drop-append-length r (joined rs) in
    rw (first, others) (ap (◌∷◌ r) (chunks-joined size rs h.1))

length-joined :
    (size : ℕ) (rs : List (List ℕ)) → AllSized size rs → length (joined rs) ≡ length rs * size
length-joined size [] h = omega arith
length-joined size (r ∷ rs) h =
    grind (arith, length-append r (joined rs), length-joined size rs h.1, h.0)

or-false : (b : Bool) → (b || false) ≡ b
or-false true = refl
or-false false = refl

module _ {ℓ} {R : Type ℓ} (size : ℕ) (decode : List ℕ → R) (show_count : Bool) where
  abbrev print_of : WireFrameHeader → List (List ℕ) → Print R
  print_of hdr records = record {
    header = hdr;
    own_line = show_count || ltb 0 hdr.count;
    records = map decode records;
  }

  -- Nothing is read for a frame without records.
  guard_body-empty :
      (hdr : WireFrameHeader) (input : Input)
      → hdr.count ≡ 0
      → guard_body size decode show_count hdr input ≡ printed (print_of hdr []) input
  unfolding guard_body
  guard_body-empty hdr input c =
      let empty : (hdr.count == 0) ≡ true = ground arith in
      let no_line : ltb 0 hdr.count ≡ false = ground arith in
      rw (empty, no_line)
        (ap (λ b. printed (record { header = hdr; own_line = b; records = [] }) input)
          (sym (or-false show_count)))

  guard_body-records :
      (hdr : WireFrameHeader) (records : List (List ℕ)) (rest : List ℕ) (input : Input)
      → hdr.count ≡ length records
      → 0 < hdr.count
      → hdr.count ≤ max_detections
      → AllSized size records
      → Lively input
      → flat input ≡ joined records ++ rest
      → (left : Input) × (guard_body size decode show_count hdr input
          ≡ printed (print_of hdr records) left)
        × (flat left ≡ rest)
        × Lively left
  unfolding guard_body read_body
  guard_body-records hdr records rest input c found few sized v e =
      let n = length-joined size records sized in
      let (left, got, e1, v1) =
        read_exact-front (hdr.count * size) input (joined records) rest v e
          (n ∙ ap (λ k. k * size) (sym c)) in
      let not_empty : (hdr.count == 0) ≡ false = ground arith in
      let fits : ltb max_detections hdr.count ≡ false = ground arith in
      let whole : chunks size hdr.count (joined records) ≡ records =
        ap (λ k. chunks size k (joined records)) c ∙ chunks-joined size records sized in
      (left, rw (not_empty, fits, got, read_body, whole), e1, v1)

  -- A round on the bytes of a frame of at most 64 records prints this frame.
  receive_round-frame :
      (hdr : WireFrameHeader) (records : List (List ℕ)) (rest : List ℕ) (input : Input)
      → IsHeader hdr
      → hdr.count ≡ length records
      → hdr.count ≤ max_detections
      → header_size + hdr.count * size < 2 ^ 32
      → AllSized size records
      → Lively input
      → flat input ≡ frame_bytes size hdr records ++ rest
      → (left : Input) × (receive_round size decode show_count input
          ≡ printed
              (record {
                header = hdr;
                own_line = show_count || ltb 0 hdr.count;
                records = map decode records;
              })
              left)
        × (flat left ≡ rest)
        × Lively left
  unfolding receive_round
  receive_round-frame hdr records rest input h c few small sized v e =
      let (body, head, e1, v1) = open_frame-front size hdr records rest input h small v e in
      elim (List-cases records) [
        | inl no_records ↦
            let c' : hdr.count ≡ 0 = c ∙ ap length no_records in
            (
              body,
              rw (head, receive_round)
                  (guard_body-empty hdr body c'
                    ∙ ap (λ l. printed (print_of hdr l) body) (sym no_records)),
              e1 ∙ ap (λ l. joined l ++ rest) no_records,
              v1,
            )
        | inr (r, rs, more) ↦
            let (left, done, e2, v2) =
              guard_body-records hdr records rest body c (omega (arith, c, ap length more)) few
                sized v1 e1 in
            (left, rw (head, receive_round) done, e2, v2)
      ]

-- What a receiver prints of these messages.
abbrev pub prints : Bool → List (Option DetectionMessage) → List (Print WireDetectionRecord)
prints show_count [] = []
prints show_count (none ∷ popped) = prints show_count popped
prints show_count (some msg ∷ popped) =
    record {
      header = header_of msg;
      own_line = show_count || ltb 0 (header_of msg).count;
      records = map detection_of (take msg.group.count msg.group.results);
    }
    ∷ prints show_count popped

abbrev pub AllMessages : List (Option DetectionMessage) → Type 0
AllMessages [] = Unit {0}
AllMessages (none ∷ popped) = AllMessages popped
AllMessages (some msg ∷ popped) = IsMessage msg × AllMessages popped

message_round :
    (show_count : Bool) (msg : DetectionMessage) (rest : List ℕ) (input : Input)
    → IsMessage msg
    → Lively input
    → flat input ≡ message_bytes msg ++ rest
    → (left : Input) × (receive_round detection_size decode_detection show_count input
        ≡ printed
            (record {
              header = header_of msg;
              own_line = show_count || ltb 0 (header_of msg).count;
              records = map detection_of (take msg.group.count msg.group.results);
            })
            left)
      × (flat left ≡ rest)
      × Lively left
message_round show_count msg rest input m v e =
    let rs = take msg.group.count msg.group.results in
    let c = count-header_of msg m in
    let size : length (map wire_record rs) ≡ msg.group.count = count-records msg m in
    let (left, done, e1, v1) =
      receive_round-frame detection_size decode_detection show_count (header_of msg)
        (map wire_record rs) rest input (header_of-IsHeader msg m) (c ∙ sym size)
        (omega (arith, c, m.count_fits)) (omega (arith, c, m.count_fits))
        (records-AllSized msg.group.count msg.group.results m.results_fit) v e in
    (
      left,
      done
          ∙ ap
              (λ l.
                printed
                  (record {
                    header = header_of msg;
                    own_line = show_count || ltb 0 (header_of msg).count;
                    records = l;
                  })
                  left)
              (decode-records msg.group.count msg.group.results m.results_fit),
      e1,
      v1,
    )

nothing_left : (input : Input) → Lively input → flat input ≡ [] → input ≡ []
nothing_left [] v e = refl
nothing_left ((b ∷ p) ∷ input) v e = absurd (cc e)
nothing_left ([] ∷ input) v e = absurd (omega (arith, v.0))

round-end :
    (show_count : Bool) → receive_round detection_size decode_detection show_count [] ≡ ended closed
unfolding receive_round
round-end show_count = rw (open_frame-end detection_size, receive_round) refl

receive_stream :
    (show_count : Bool) (popped : List (Option DetectionMessage)) (input : Input) (fuel : ℕ)
    → AllMessages popped
    → Lively input
    → flat input ≡ stream_bytes popped
    → length popped < fuel
    → receive_loop detection_size decode_detection show_count fuel input
      ≡ (prints show_count popped, closed)
unfolding receive_loop
receive_stream show_count popped input zero m v e enough = absurd (omega arith)
receive_stream show_count [] input (suc fuel) m v e enough =
    rw (nothing_left input v e) (rw (round-end show_count, receive_loop) refl)
receive_stream show_count (none ∷ popped) input (suc fuel) m v e enough =
    receive_stream show_count popped input (suc fuel) m v e (omega arith)
receive_stream show_count (some msg ∷ popped) input (suc fuel) m v e enough =
    let (left, done, e1, v1) = message_round show_count msg (stream_bytes popped) input m.0 v e in
    rw (done, receive_loop, receive_stream show_count popped left fuel m.1 v1 e1 (omega arith)) refl

-- The data receiver prints exactly the messages that were popped for it, in their order, each with
-- its detections, and an empty one with no line unless it is asked for; then it ends at the end of
-- the input. This holds of messages with at most 64 detections whose fields fit, when all sends went
-- well, however the bytes arrive, from one unit of fuel more than there are messages on.
pub data_receiver-serve :
    (show_count : Bool) (popped : List (Option DetectionMessage)) (sends : List ℕ) (input : Input)
    (fuel : ℕ)
    → AllMessages popped
    → (serve popped sends).ok ≡ true
    → Lively input
    → flat input ≡ (serve popped sends).bytes
    → length popped < fuel
    → data_receiver show_count fuel input ≡ (prints show_count popped, closed)
unfolding data_receiver
data_receiver-serve show_count popped sends input fuel m done v e enough =
    receive_stream show_count popped input fuel m v (e ∙ Writes-ok (serve-Writes popped sends) done)
      enough
