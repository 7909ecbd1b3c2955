-- ===== src/Frames/Roundtrip.antt =====
-- A frame that was written is read back, whatever the kernel did to the bytes in between.
use khadas_yolov8n_multithre.Prelude.{
  ℕ, zero, suc, ◌+◌, ◌*◌, ◌%◌, ◌^◌, ◌≤◌, ◌<◌, ◌≡◌, refl, sym, ap, ◌∙◌, true, false, none, some,
  List, [], ◌∷◌, ◌++◌, map, subst, arith, ltb, ◌==◌, length, take, append_assoc, length-map,
  length-take,
}
use khadas_yolov8n_multithre.Stream.{Input, read_exact, write_exact}
use khadas_yolov8n_multithre.Stream.Read.{flat, Lively, read_exact-front, read_exact-Reads}
use khadas_yolov8n_multithre.Stream.Write.{
  Writes, Writes-ok, whole, write_exact-Writes, and_then-Writes,
}
use khadas_yolov8n_multithre.Wire.{
  WireFrameHeader, header_size, detection_size, max_detections, encode_header, encode_detection,
  decode_header, decode_detection, le, word,
}
use khadas_yolov8n_multithre.Wire.{word-prefix, length-le}
use khadas_yolov8n_multithre.Wire.Roundtrip.{
  IsHeader, IsDetection, decode-encode_header, length-encode_header, decode-encode_detection,
  length-encode_detection,
}
use khadas_yolov8n_multithre.Frames.{
  send_records, send_frame_of, send_frame, DetectResult, DetectionMessage, header_of, detection_of,
  opened, disconnected, open_frame, check_small, read_header, check_length, read_records,
}

-- The bytes of some records.
abbrev pub joined : List (List ℕ) → List ℕ
joined [] = []
joined (r ∷ rs) = r ++ joined rs

send_records-Writes :
    (rs : List (List ℕ)) (sends : List ℕ) → Writes (joined rs) (send_records rs sends)
unfolding send_records
send_records-Writes [] sends = whole refl refl
send_records-Writes (r ∷ rs) sends =
    and_then-Writes r (joined rs) (write_exact r sends) (send_records rs)
      (write_exact-Writes r sends) (send_records-Writes rs)

-- The bytes of a frame.
abbrev pub frame_bytes : ℕ → WireFrameHeader → List (List ℕ) → List ℕ
frame_bytes size hdr records =
    le 4 ((header_size + hdr.count * size) % 2 ^ 32) ++ (encode_header hdr ++ joined records)

pub send_frame_of-Writes :
    (size : ℕ) (hdr : WireFrameHeader) (records : List (List ℕ)) (sends : List ℕ)
    → Writes (frame_bytes size hdr records) (send_frame_of size hdr.count hdr records sends)
unfolding send_frame_of
send_frame_of-Writes size hdr records sends =
    and_then-Writes _ _ _ _ (write_exact-Writes _ sends)
      (λ later. and_then-Writes _ _ _ _ (write_exact-Writes _ later) (send_records-Writes records))

-- Every record has the size of its struct.
abbrev pub AllSized : ℕ → List (List ℕ) → Type 0
AllSized size [] = Unit {0}
AllSized size (r ∷ rs) = (length r ≡ size) × AllSized size rs

pub read_records-front :
    (size : ℕ) (rs : List (List ℕ)) (rest : List ℕ) (input : Input)
    → AllSized size rs
    → Lively input
    → flat input ≡ joined rs ++ rest
    → (left : Input) × (read_records (length rs) size input ≡ (rs, some left))
      × (flat left ≡ rest)
      × Lively left
unfolding read_records
read_records-front size [] rest input a v e = (input, refl, e, v)
read_records-front size (r ∷ rs) rest input a v e =
    let (input', got, e', v') =
      read_exact-front size input r (joined rs ++ rest) v (e ∙ append_assoc r (joined rs) rest)
        a.0 in
    let (left, more, e'', v'') = read_records-front size rs rest input' a.1 v' e' in
    (left, rw (got, read_records, more), e'', v'')

not_small : (m : ℕ) → ltb (header_size + m) header_size ≡ false
not_small m = ground arith

same_number : (n : ℕ) → (n == n) ≡ true
same_number n = ground arith

-- The steps of the reading, when each goes well.
open_frame-steps :
    (size n : ℕ) (hdr : WireFrameHeader) (prefix head : List ℕ) (input input1 left : Input)
    → read_exact 4 input ≡ some (prefix, input1)
    → (word 4 prefix).0 ≡ n
    → ltb n header_size ≡ false
    → read_exact header_size input1 ≡ some (head, left)
    → decode_header head ≡ hdr
    → (n == header_size + hdr.count * size) ≡ true
    → open_frame size input ≡ opened hdr left
unfolding open_frame check_small read_header check_length
open_frame-steps size n hdr prefix head input input1 left got1 size_read enough got2 decoded same =
    rw (
      got1, open_frame, size_read, enough, check_small, got2, read_header, decoded, size_read, same,
      check_length,
    )

-- Reading the front of a frame's bytes gives its header and leaves its records.
pub open_frame-front :
    (size : ℕ) (hdr : WireFrameHeader) (records : List (List ℕ)) (rest : List ℕ) (input : Input)
    → IsHeader hdr
    → header_size + hdr.count * size < 2 ^ 32
    → Lively input
    → flat input ≡ frame_bytes size hdr records ++ rest
    → (left : Input) × (open_frame size input ≡ opened hdr left)
      × (flat left ≡ joined records ++ rest)
      × Lively left
open_frame-front size hdr records rest input h small v e =
    let n : ℕ = header_size + hdr.count * size in
    let (input1, got1, e1, v1) =
      read_exact-front 4 input (le 4 (n % 2 ^ 32)) ((encode_header hdr ++ joined records) ++ rest) v
        (e ∙ append_assoc (le 4 (n % 2 ^ 32)) (encode_header hdr ++ joined records) rest)
        (length-le 4 (n % 2 ^ 32)) in
    let (left, got2, e2, v2) =
      read_exact-front header_size input1 (encode_header hdr) (joined records ++ rest) v1
        (e1 ∙ append_assoc (encode_header hdr) (joined records) rest)
        (length-encode_header hdr h) in
    let size_read : (word 4 (le 4 (n % 2 ^ 32))).0 ≡ n =
      let fits : n % 2 ^ 32 ≡ n = omega arith in word-prefix (n % 2 ^ 32) (omega arith) ∙ fits in
    let enough : ltb n header_size ≡ false = not_small (hdr.count * size) in
    let same : (n == header_size + hdr.count * size) ≡ true = same_number n in
    (
      left,
      open_frame-steps size n hdr _ _ input input1 left got1 size_read enough got2
          (decode-encode_header hdr h) same,
      e2,
      v2,
    )

-- At the end of the input a reader sees the connection closed.
pub open_frame-end : (size : ℕ) → open_frame size [] ≡ disconnected
unfolding open_frame
open_frame-end size =
    let nothing : read_exact 4 [] ≡ none = (read_exact-Reads 4 [] tt).1 (omega arith) in
    rw (nothing, open_frame) refl

-- What a writer sent whole, a reader gets back: the header, then the records, then what follows.
pub open-send_frame_of :
    (size : ℕ) (hdr : WireFrameHeader) (records : List (List ℕ)) (sends rest : List ℕ)
    (input : Input)
    → IsHeader hdr
    → hdr.count ≡ length records
    → header_size + hdr.count * size < 2 ^ 32
    → AllSized size records
    → (send_frame_of size hdr.count hdr records sends).ok ≡ true
    → Lively input
    → flat input ≡ (send_frame_of size hdr.count hdr records sends).bytes ++ rest
    → (body left : Input) × (open_frame size input ≡ opened hdr body)
      × (read_records hdr.count size body ≡ (records, some left))
      × (flat left ≡ rest)
open-send_frame_of size hdr records sends rest input h c small sized done v e =
    let sent : (send_frame_of size hdr.count hdr records sends).bytes
        ≡ frame_bytes size hdr records =
      Writes-ok (send_frame_of-Writes size hdr records sends) done in
    let (body, head, e1, v1) =
      open_frame-front size hdr records rest input h small v (e ∙ ap (λ bs. bs ++ rest) sent) in
    let (left, tail, e2, v2) = read_records-front size records rest body sized v1 e1 in
    (body, left, head, ap (λ k. read_records k size body) c ∙ tail, e2)

-- A group of `detect_result_t` whose fields their C types can hold.
abbrev pub AllFit : List DetectResult → Type 0
AllFit [] = Unit {0}
AllFit (r ∷ rs) = IsDetection (detection_of r) × AllFit rs

-- A message of the pipeline: at most 64 detections, in a group of 64.
pub record IsMessage (msg : DetectionMessage) : Type 0 where
  pub frame_id_fits : msg.frame_id < 2 ^ 64
  pub timestamp_fits : msg.timestamp_us < 2 ^ 64
  pub count_fits : msg.group.count ≤ max_detections
  pub whole_group : length msg.group.results ≡ max_detections
  pub results_fit : AllFit msg.group.results

abbrev pub wire_record : DetectResult → List ℕ
wire_record r = encode_detection (detection_of r)

pub records-AllSized :
    (n : ℕ) (rs : List DetectResult)
    → AllFit rs
    → AllSized detection_size (map wire_record (take n rs))
records-AllSized zero rs h = tt
records-AllSized (suc n) [] h = tt
records-AllSized (suc n) (r ∷ rs) h =
    (length-encode_detection (detection_of r) h.0, records-AllSized n rs h.1)

pub decode-records :
    (n : ℕ) (rs : List DetectResult)
    → AllFit rs
    → map decode_detection (map wire_record (take n rs)) ≡ map detection_of (take n rs)
decode-records zero rs h = refl
decode-records (suc n) [] h = refl
decode-records (suc n) (r ∷ rs) h =
    rw (decode-encode_detection (detection_of r) h.0, decode-records n rs h.1)

pub header_of-IsHeader : (msg : DetectionMessage) → IsMessage msg → IsHeader (header_of msg)
unfolding header_of
header_of-IsHeader msg m = record {
  frame_id_fits = m.frame_id_fits;
  timestamp_fits = m.timestamp_fits;
  count_fits = omega arith;
  reserved_size = refl;
}

pub count-header_of :
    (msg : DetectionMessage) → IsMessage msg → (header_of msg).count ≡ msg.group.count
unfolding header_of
count-header_of msg m = omega (arith, m.count_fits)

pub count-records :
    (msg : DetectionMessage)
    → IsMessage msg
    → length (map wire_record (take msg.group.count msg.group.results)) ≡ msg.group.count
count-records msg m = omega (
  arith,
  length-map (take msg.group.count msg.group.results) wire_record,
  length-take msg.group.count msg.group.results,
  m.whole_group,
  m.count_fits,
)

-- A message with at most 64 detections whose fields fit, sent whole by `sendFrame` and carried in
-- pieces of any size, with anything after it, is read back by the readers' steps: the length
-- checks pass, the header is the message's, the records decode to its detections in order, and
-- the input is left just after the frame.
pub open-send_frame :
    (msg : DetectionMessage) (sends rest : List ℕ) (input : Input)
    → IsMessage msg
    → (send_frame msg sends).ok ≡ true
    → Lively input
    → flat input ≡ (send_frame msg sends).bytes ++ rest
    → (body left : Input) × (records : List (List ℕ)) × (open_frame detection_size input
        ≡ opened (header_of msg) body)
      × (read_records msg.group.count detection_size body ≡ (records, some left))
      × (map decode_detection records ≡ map detection_of (take msg.group.count msg.group.results))
      × (flat left ≡ rest)
unfolding send_frame
open-send_frame msg sends rest input m done v e =
    let rs = take msg.group.count msg.group.results in
    let size = count-records msg m in
    let c = count-header_of msg m in
    let (body, left, head, tail, after) =
      open-send_frame_of detection_size (header_of msg) (map wire_record rs) sends rest input
        (header_of-IsHeader msg m) (c ∙ sym size) (omega (arith, c, m.count_fits))
        (records-AllSized msg.group.count msg.group.results m.results_fit) done v e in
    (
      body,
      left,
      map wire_record rs,
      head,
      subst (λ k. read_records k detection_size body ≡ (map wire_record rs, some left)) c tail,
      decode-records msg.group.count msg.group.results m.results_fit,
      after,
    )
