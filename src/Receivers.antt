-- ===== src/Receivers.antt =====
-- The receivers of yolov8n_cap_multithread/tools: the loops of data_receiver.cc, tracks_receiver.cc and
-- events_receiver.cc, from the bytes of a connection to the frames that they print. The number
-- formats of `printf` are left out: a printed frame is its header and its records.
pub mod Ends
pub mod Printed
use khadas_yolov8n_multithre.Prelude.{
  ℕ, zero, suc, ◌+◌, ◌*◌, Bool, true, false, ◌||◌, Option, none, some, List, [], ◌∷◌, map, ltb,
  ◌==◌, if◌then◌else◌, take, drop,
}
use khadas_yolov8n_multithre.Stream.{Input, read_exact}
use khadas_yolov8n_multithre.Wire.{
  WireFrameHeader, WireDetectionRecord, WireTrackRecord, WireTrackSummary, header_size,
  detection_size, track_size, summary_size, max_detections, decode_header, decode_detection,
  decode_track, decode_summary,
}
use khadas_yolov8n_multithre.Frames.{
  Opened, disconnected, body_too_small, length_mismatch, opened, open_frame, read_records,
}

-- What a frame prints: its own line, unless it is empty and empty frames are not asked for, and a
-- line for each record.
pub record Print {ℓ} (R : Type ℓ) : Type ℓ where
  pub header : WireFrameHeader
  pub own_line : Bool
  pub records : List R

-- How a receiver ends: at the end of the input or on a bad frame; `overrun` is a write behind
-- the array of 64 records, which is undefined.
pub data Ending : Type 0 where
  closed too_small mismatch overrun out_of_fuel read_error : Ending

-- What one round gives: the end, a frame and the input behind it, or the end within a frame of
-- which some records are printed.
pub data Round {ℓ} (R : Type ℓ) : Type ℓ where
  ended : Ending → Round R
  printed : Print R → Input → Round R
  cut_off : Print R → Ending → Round R

-- The records of an array that was read as a whole.
pub chunks : ℕ → ℕ → List ℕ → List (List ℕ)
chunks size zero bytes = []
chunks size (suc n) bytes = take size bytes ∷ chunks size n (drop size bytes)

module _ {ℓ} {R : Type ℓ} (size : ℕ) (decode : List ℕ → R) (show_count : Bool) where
  -- `if (hdr.count > 0) { if (!readExact(…)) return; }`, and what is printed.
  read_body : WireFrameHeader → Input → Round R
  unfolding chunks
  read_body hdr input = elim (read_exact (hdr.count * size) input) [
    | none ↦ ended closed
    | some (bytes, left) ↦
        printed
          (record {
            header = hdr;
            own_line = show_count || ltb 0 hdr.count;
            records = map decode (chunks size hdr.count bytes);
          })
          left
  ]

  guard_body : WireFrameHeader → Input → Round R
  unfolding read_body
  guard_body hdr input =
      if hdr.count == 0
      then printed (record { header = hdr; own_line = show_count; records = [] }) input
      else if ltb max_detections hdr.count
      then ended overrun
      else read_body hdr input

  unfoldable pub receive_round : Input → Round R
  unfolding guard_body
  receive_round input = elim (open_frame size input) [
    | disconnected ↦ ended closed
    | body_too_small n ↦ ended too_small
    | length_mismatch ↦ ended mismatch
    | opened hdr rest ↦ guard_body hdr rest
  ]

  -- `receiveLoop`, on fuel.
  pub receive_loop : ℕ → Input → List (Print R) × Ending
  unfolding receive_round
  receive_loop zero input = ([], out_of_fuel)
  receive_loop (suc fuel) input = elim (receive_round input) [
    | ended e ↦ ([], e)
    | cut_off frame e ↦ (frame ∷ [], e)
    | printed frame rest ↦ let (frames, e) = receive_loop fuel rest in (frame ∷ frames, e)
  ]

pub data_receiver : Bool → ℕ → Input → List (Print WireDetectionRecord) × Ending
unfolding receive_loop
data_receiver show_count = receive_loop detection_size decode_detection show_count

pub tracks_receiver : Bool → ℕ → Input → List (Print WireTrackRecord) × Ending
unfolding receive_loop
tracks_receiver show_count = receive_loop track_size decode_track show_count

-- `events_receiver`: the length is read and not looked at, and every record is printed as it comes.
events_body : WireFrameHeader → List (List ℕ) × Option Input → Round WireTrackSummary
events_body hdr (records, none) =
    cut_off (record { header = hdr; own_line = false; records = map decode_summary records })
      read_error
events_body hdr (records, some left) =
    printed (record { header = hdr; own_line = false; records = map decode_summary records }) left

events_header : Input → Round WireTrackSummary
unfolding events_body
events_header input = elim (read_exact header_size input) [
  | none ↦ ended closed
  | some (bytes, rest) ↦
      let hdr = decode_header bytes in events_body hdr (read_records hdr.count summary_size rest)
]

unfoldable pub events_round : Input → Round WireTrackSummary
unfolding events_header
events_round input = elim (read_exact 4 input) [
  | none ↦ ended closed
  | some (prefix, rest) ↦ events_header rest
]

pub events_receiver : ℕ → Input → List (Print WireTrackSummary) × Ending
unfolding events_round
events_receiver zero input = ([], out_of_fuel)
events_receiver (suc fuel) input = elim (events_round input) [
  | ended e ↦ ([], e)
  | cut_off frame e ↦ (frame ∷ [], e)
  | printed frame rest ↦ let (frames, e) = events_receiver fuel rest in (frame ∷ frames, e)
]

-- `roi_tag` and `status_str`
pub roi_tag : WireTrackSummary → ℕ
roi_tag s =
    if s.roi_entered == 0
    then (if s.roi_exited == 0 then (if s.in_roi == 0 then 45 else 73) else 88)
    else 69

pub status_str : ℕ → List ℕ
status_str s =
    if s == 0
    then 84 ∷ 69 ∷ 78 ∷ 84 ∷ []
    else if s == 1
    then 65 ∷ 67 ∷ 84 ∷ 86 ∷ []
    else if s == 2
    then 76 ∷ 79 ∷ 83 ∷ 84 ∷ []
    else 63 ∷ []
