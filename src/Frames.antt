-- ===== src/Frames.antt =====
-- The frames of the three data planes: [length][WireFrameHeader][records], as `sendFrame` of
-- src/ipc/unix_data_publisher.cc, `send_tracks` of tracker/src/bytetrack_service.cc and
-- `publish_frame` of temporal/src/temporal_service.cc write them, and as the two services and the
-- receivers of yolov8n_cap_multithread/tools read them.
pub mod Roundtrip
pub mod Sender
use khadas_yolov8n_multithre.Prelude.{
  ℕ, zero, suc, ◌+◌, ◌*◌, ◌%◌, ◌^◌, Bool, true, false, not, Option, none, some, List, [], ◌∷◌, map,
  ltb, ◌==◌, if◌then◌else◌, length, take,
}
use khadas_yolov8n_multithre.Prelude.Text.{label}
use khadas_yolov8n_multithre.Prelude.Int.{ℤ}
use khadas_yolov8n_multithre.Stream.{Input, Sent, read_exact, write_exact, and_then}
use khadas_yolov8n_multithre.Wire.{
  WireFrameHeader, WireDetectionRecord, WireTrackRecord, header_size, detection_size, track_size,
  encode_header, encode_detection, encode_track, decode_header, decode_detection, decode_track, le,
  word,
}
use khadas_yolov8n_multithre.Tracker.{TrackerDetection, TrackerOutput}

-- The loop over the records, each written whole.
unfoldable pub send_records : List (List ℕ) → List ℕ → Sent
send_records [] sends = record { ok = true; bytes = []; sends = sends }
send_records (r ∷ rs) sends = and_then (write_exact r sends) (send_records rs)

-- Length prefix, header and records: the body size counts `n` records and is a `uint32_t`.
unfoldable pub send_frame_of : ℕ → ℕ → WireFrameHeader → List (List ℕ) → List ℕ → Sent
unfolding send_records
send_frame_of size n hdr records sends =
    let body_size : ℕ = (header_size + n * size) % 2 ^ 32 in
    and_then (write_exact (le 4 body_size) sends)
      (λ later. and_then (write_exact (encode_header hdr) later) (send_records records))

-- `detect_result_t`, its `BOX_RECT` inlined, and `detect_result_group_t` of postprocess.h.
pub record DetectResult : Type 0 where
  pub name : List ℕ
  pub left : ℤ
  pub right : ℤ
  pub top : ℤ
  pub bottom : ℤ
  pub prop : ℕ

pub record DetectResultGroup : Type 0 where
  pub id : ℕ
  pub count : ℕ
  pub results : List DetectResult

-- messages.h
pub record DetectionMessage : Type 0 where
  pub frame_id : ℕ
  pub timestamp_us : ℕ
  pub group : DetectResultGroup

abbrev pub no_reserved : List ℕ
no_reserved = 0 ∷ 0 ∷ 0 ∷ 0 ∷ 0 ∷ 0 ∷ []

unfoldable pub detection_of : DetectResult → WireDetectionRecord
detection_of src = record {
  class_name = label src.name;
  confidence = src.prop;
  left = src.left;
  top = src.top;
  right = src.right;
  bottom = src.bottom;
}

-- `UnixDataPublisher::sendFrame`; `count` is never negative.
unfoldable pub header_of : DetectionMessage → WireFrameHeader
header_of msg = record {
  frame_id = msg.frame_id;
  timestamp_us = msg.timestamp_us;
  count = msg.group.count % 2 ^ 16;
  reserved = no_reserved;
}

unfoldable pub send_frame : DetectionMessage → List ℕ → Sent
unfolding send_frame_of header_of detection_of
send_frame msg sends =
    send_frame_of detection_size (header_of msg).count (header_of msg)
      (map (λ r. encode_detection (detection_of r)) (take msg.group.count msg.group.results)) sends

-- The inner loop of `senderLoop`, for one consumer: what its calls of `pop` gave, `none` for a timeout,
-- until `stop`. A failed send ends it.
unfoldable pub serve : List (Option DetectionMessage) → List ℕ → Sent
serve [] sends = record { ok = true; bytes = []; sends = sends }
serve (none ∷ popped) sends = serve popped sends
serve (some msg ∷ popped) sends = and_then (send_frame msg sends) (serve popped)

-- `send_tracks`
unfoldable pub track_of : TrackerOutput → WireTrackRecord
track_of t = record {
  class_name = label t.det.class_name;
  confidence = t.det.confidence;
  left = t.det.left;
  top = t.det.top;
  right = t.det.right;
  bottom = t.det.bottom;
  track_id = t.track_id;
}

unfoldable pub send_tracks : WireFrameHeader → List TrackerOutput → List ℕ → Sent
unfolding send_frame_of track_of
send_tracks hdr_in tracks sends =
    send_frame_of track_size (length tracks) (record hdr_in { count = length tracks % 2 ^ 16 })
      (map (λ t. encode_track (track_of t)) tracks) sends

-- How the reading of a frame starts: the length, the header, and the checks on them.
pub data Opened : Type 0 where
  disconnected : Opened
  body_too_small : ℕ → Opened
  length_mismatch : Opened
  opened : WireFrameHeader → Input → Opened

check_length : ℕ → ℕ → WireFrameHeader → Input → Opened
check_length size body_len hdr input =
    if body_len == header_size + hdr.count * size then opened hdr input else length_mismatch

read_header : ℕ → ℕ → Input → Opened
unfolding check_length
read_header size body_len input = elim (read_exact header_size input) [
  | none ↦ disconnected
  | some (bytes, rest) ↦ check_length size body_len (decode_header bytes) rest
]

check_small : ℕ → ℕ → Input → Opened
unfolding read_header
check_small size body_len input =
    if ltb body_len header_size then body_too_small body_len else read_header size body_len input

pub open_frame : ℕ → Input → Opened
unfolding check_small
open_frame size input = elim (read_exact 4 input) [
  | none ↦ disconnected
  | some (bytes, rest) ↦ check_small size (word 4 bytes).0 rest
]

-- The loop that reads `count` records: what it read, and the input it leaves unless a read failed.
pub read_records : ℕ → ℕ → Input → List (List ℕ) × Option Input
read_records zero size input = ([], some input)
read_records (suc n) size input = elim (read_exact size input) [
  | none ↦ ([], none)
  | some (bytes, rest) ↦ let (more, left) = read_records n size rest in (bytes ∷ more, left)
]

pub to_tracker_detection : WireDetectionRecord → TrackerDetection
to_tracker_detection rec = record {
  class_name = rec.class_name;
  confidence = rec.confidence;
  left = rec.left;
  top = rec.top;
  right = rec.right;
  bottom = rec.bottom;
}
