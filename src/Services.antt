-- ===== src/Services.antt =====
-- The frame loops of the two services: `main` of yolov8n_cap_multithread/tracker/src/bytetrack_service.cc
-- and of yolov8n_cap_multithread/temporal/src/temporal_service.cc, one frame at a time. A consumer
-- is what its socket accepts at each `send`; `waiting` is the one that `try_accept` would get.
pub mod Relay
use khadas_yolov8n_multithre.Prelude.{
  ℕ, ◌-◌, ◌%◌, ◌^◌, ◌+◌, Bool, true, false, Option, none, some, List, [], ◌∷◌, ◌++◌, map,
  if◌then◌else◌, length, replicate,
}
use khadas_yolov8n_multithre.Prelude.Text.{label}
use khadas_yolov8n_multithre.Prelude.Int.{ℤ, pos}
use khadas_yolov8n_multithre.Prelude.Float.{Float32}
use khadas_yolov8n_multithre.Stream.{Input, Sent}
use khadas_yolov8n_multithre.Wire.{
  WireFrameHeader, WireTrackRecord, WireTrackSummary, detection_size, track_size, summary_size,
  decode_detection, decode_track, encode_summary,
}
use khadas_yolov8n_multithre.Tracker.{TrackerDetection, TrackerOutput, IouTracker, update}
use khadas_yolov8n_multithre.Temporal.State.{
  TrackState, duration_ms, status, visibility, speed, heading_deg,
}
use khadas_yolov8n_multithre.Temporal.Manager.{TrackManager, frame}
use khadas_yolov8n_multithre.Frames.{
  Opened, opened, disconnected, body_too_small, length_mismatch, open_frame, read_records,
  send_frame_of, send_tracks, to_tracker_detection,
}

-- What a round of a frame loop gives: it breaks off, to connect again, or it leaves a state, the
-- consumer, the bytes it published and the input still to read.
pub data Round {ℓ} (S : Type ℓ) : Type ℓ where
  broken : Round S
  served : S → Option (List ℕ) → List ℕ → Input → Round S

-- After a failed read the next round breaks off: nothing is left to read.
pub left_or_end : Option Input → Input
left_or_end none = []
left_or_end (some input) = input

-- Steps 4 and 5: accept a consumer where there is none, send to it, and drop it on a failure.
pub accept : Option (List ℕ) → Option (List ℕ) → Option (List ℕ)
accept none waiting = waiting
accept (some sends) waiting = some sends

pub publish_to {ℓ} : {S : Type ℓ} → S → Input → (List ℕ → Sent) → Option (List ℕ) → Round S
publish_to s left send none = served s none [] left
publish_to s left send (some sends) =
    served s (if (send sends).ok then some (send sends).sends else none) (send sends).bytes left

-- `TrackerDetection` as `std::vector` makes it
abbrev pub zero_detection : TrackerDetection
zero_detection = record {
  class_name = replicate 16 0;
  confidence = 0;
  left = pos 0;
  top = pos 0;
  right = pos 0;
  bottom = pos 0;
}

-- `dets` after the loop: what a failed read left out stays zero.
pub dets_of : ℕ → List (List ℕ) → List TrackerDetection
dets_of count records =
    map (λ bs. to_tracker_detection (decode_detection bs)) records
    ++ replicate (count - length records) zero_detection

-- `hdr` after the loop: a failed read sets its count to 0.
pub header_after : WireFrameHeader → Option Input → WireFrameHeader
header_after hdr none = record hdr { count = 0 }
header_after hdr (some left) = hdr

pub wire_flag : Bool → ℕ
wire_flag b = if b then 1 else 0

module _ (fl : Float32) where
  open fl use {F, bits}

  -- `fill_summary`, on a zeroed struct
  unfoldable pub fill_summary : TrackState F → WireTrackSummary
  unfolding wire_flag
  fill_summary s = record {
    class_name = label s.class_name;
    track_id = s.track_id;
    frames_seen = s.frames_seen;
    first_seen_us = s.first_seen_us;
    last_seen_us = s.last_seen_us;
    duration_ms = duration_ms s;
    visibility = bits (visibility fl s);
    cx = s.last.cx;
    cy = s.last.cy;
    left = s.last.left;
    top = s.last.top;
    right = s.last.right;
    bottom = s.last.bottom;
    vx = bits s.vx;
    vy = bits s.vy;
    speed = bits (speed fl s);
    heading_deg = bits (heading_deg fl s);
    accel = bits s.accel;
    loiter_score = bits s.loiter_score;
    in_roi = wire_flag s.in_roi;
    roi_entered = wire_flag s.roi_entered;
    roi_exited = wire_flag s.roi_exited;
    status = status s;
    reserved = 0 ∷ 0 ∷ 0 ∷ 0 ∷ [];
  }

  unfoldable pub publish_frame : WireFrameHeader → List (TrackState F) → List ℕ → Sent
  unfolding fill_summary
  publish_frame hdr_in tracks sends =
      send_frame_of summary_size (length tracks) (record hdr_in { count = length tracks % 2 ^ 16 })
        (map (λ t. encode_summary (fill_summary t)) tracks) sends

  -- A round of the tracker's loop; `none` would be an update that does not end.
  pub track_opened :
      IouTracker
      → Option (List ℕ)
      → Option (List ℕ)
      → WireFrameHeader
      → Input
      → Option (Round IouTracker)
  unfolding publish_to dets_of header_after left_or_end accept
  track_opened k conn waiting hdr body =
      let (records, left) = read_records hdr.count detection_size body in
      elim (update fl hdr.frame_id (dets_of hdr.count records) k) [
        | none ↦ none
        | some (k', tracks) ↦ some (
            publish_to k' (left_or_end left) (send_tracks (header_after hdr left) tracks)
              (accept conn waiting))
      ]

  pub track_round :
      IouTracker → Option (List ℕ) → Option (List ℕ) → Input → Option (Round IouTracker)
  unfolding track_opened
  track_round k conn waiting input = elim (open_frame detection_size input) [
    | disconnected ↦ some broken
    | body_too_small n ↦ some broken
    | length_mismatch ↦ some broken
    | opened hdr body ↦ track_opened k conn waiting hdr body
  ]

  -- A round of the temporal service's loop.
  pub observe_opened :
      TrackManager F
      → Option (List ℕ)
      → Option (List ℕ)
      → WireFrameHeader
      → Input
      → Round (TrackManager F)
  unfolding publish_to header_after left_or_end accept publish_frame
  observe_opened m conn waiting hdr body =
      let (records, left) = read_records hdr.count track_size body in
      let (m', live) = frame fl m (map decode_track records) hdr.timestamp_us in
      publish_to m' (left_or_end left) (publish_frame (header_after hdr left) live)
        (accept conn waiting)

  pub observe_round :
      TrackManager F → Option (List ℕ) → Option (List ℕ) → Input → Round (TrackManager F)
  unfolding observe_opened
  observe_round m conn waiting input = elim (open_frame track_size input) [
    | disconnected ↦ broken
    | body_too_small n ↦ broken
    | length_mismatch ↦ broken
    | opened hdr body ↦ observe_opened m conn waiting hdr body
  ]
