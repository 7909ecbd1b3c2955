-- ===== src/Wire.antt =====
-- yolov8n_cap_multithread/include/ipc/wire_protocol.h: the packed structs of the data planes. A
-- `float` field is its bit pattern: the wire code only moves it.
mod Bytes
pub mod Roundtrip
use khadas_yolov8n_multithre.Prelude.{ℕ, List, [], ◌∷◌, ◌++◌}
use khadas_yolov8n_multithre.Prelude.Int.{ℤ}
unfoldable pub use Bytes.*

-- `kMaxDetections`, and the `sizeof` of the structs that the header asserts.
abbrev pub max_detections : ℕ
max_detections = 64

abbrev pub header_size : ℕ
header_size = 24

abbrev pub detection_size : ℕ
detection_size = 36

abbrev pub track_size : ℕ
track_size = 40

abbrev pub summary_size : ℕ
summary_size = 104

pub record WireFrameHeader : Type 0 where
  pub frame_id : ℕ
  pub timestamp_us : ℕ
  pub count : ℕ
  pub reserved : List ℕ

pub record WireDetectionRecord : Type 0 where
  pub class_name : List ℕ
  pub confidence : ℕ
  pub left : ℤ
  pub top : ℤ
  pub right : ℤ
  pub bottom : ℤ

pub record WireTrackRecord : Type 0 where
  pub class_name : List ℕ
  pub confidence : ℕ
  pub left : ℤ
  pub top : ℤ
  pub right : ℤ
  pub bottom : ℤ
  pub track_id : ℕ

pub record WireTrackSummary : Type 0 where
  pub class_name : List ℕ
  pub track_id : ℕ
  pub frames_seen : ℕ
  pub first_seen_us : ℕ
  pub last_seen_us : ℕ
  pub duration_ms : ℕ
  pub visibility : ℕ
  pub cx : ℤ
  pub cy : ℤ
  pub left : ℤ
  pub top : ℤ
  pub right : ℤ
  pub bottom : ℤ
  pub vx : ℕ
  pub vy : ℕ
  pub speed : ℕ
  pub heading_deg : ℕ
  pub accel : ℕ
  pub loiter_score : ℕ
  pub in_roi : ℕ
  pub roi_entered : ℕ
  pub roi_exited : ℕ
  pub status : ℕ
  pub reserved : List ℕ

-- The bytes of a struct, field by field without padding.
unfoldable pub encode_header : WireFrameHeader → List ℕ
encode_header h = le 8 h.frame_id ++ (le 8 h.timestamp_us ++ (le 2 h.count ++ (h.reserved ++ [])))

unfoldable pub encode_detection : WireDetectionRecord → List ℕ
encode_detection r =
    r.class_name
    ++ (le 4 r.confidence
        ++ (le 4 (of_int32 r.left)
            ++ (le 4 (of_int32 r.top)
                ++ (le 4 (of_int32 r.right) ++ (le 4 (of_int32 r.bottom) ++ [])))))

unfoldable pub encode_track : WireTrackRecord → List ℕ
encode_track r =
    r.class_name
    ++ (le 4 r.confidence
        ++ (le 4 (of_int32 r.left)
            ++ (le 4 (of_int32 r.top)
                ++ (le 4 (of_int32 r.right)
                    ++ (le 4 (of_int32 r.bottom) ++ (le 4 r.track_id ++ []))))))

unfoldable pub encode_summary : WireTrackSummary → List ℕ
encode_summary s =
    s.class_name
    ++ (le 4 s.track_id
        ++ (le 4 s.frames_seen
            ++ (le 8 s.first_seen_us
                ++ (le 8 s.last_seen_us
                    ++ (le 4 s.duration_ms
                        ++ (le 4 s.visibility
                            ++ (le 4 (of_int32 s.cx)
                                ++ (le 4 (of_int32 s.cy)
                                    ++ (le 4 (of_int32 s.left)
                                        ++ (le 4 (of_int32 s.top)
                                            ++ (le 4 (of_int32 s.right)
                                                ++ (le 4 (of_int32 s.bottom)
                                                    ++ (le 4 s.vx
                                                        ++ (le 4 s.vy
                                                            ++ (le 4 s.speed
                                                            ++ (le 4 s.heading_deg
                                                            ++ (le 4 s.accel
                                                            ++ (le 4 s.loiter_score
                                                            ++ (le 1 s.in_roi
                                                            ++ (le 1 s.roi_entered
                                                            ++ (le 1 s.roi_exited
                                                            ++ (le 1 s.status
                                                            ++ (s.reserved
                                                            ++ [])))))))))))))))))))))))

-- The struct in its bytes.
pub decode_header : List ℕ → WireFrameHeader
decode_header bs =
    let (frame_id, bs1) = word 8 bs in
    let (timestamp_us, bs2) = word 8 bs1 in
    let (count, bs3) = word 2 bs2 in
    record {
      frame_id = frame_id;
      timestamp_us = timestamp_us;
      count = count;
      reserved = (chunk 6 bs3).0;
    }

pub decode_detection : List ℕ → WireDetectionRecord
decode_detection bs =
    let (class_name, bs1) = chunk 16 bs in
    let (confidence, bs2) = word 4 bs1 in
    let (left, bs3) = word 4 bs2 in
    let (top, bs4) = word 4 bs3 in
    let (right, bs5) = word 4 bs4 in
    let (bottom, bs6) = word 4 bs5 in
    record {
      class_name = class_name;
      confidence = confidence;
      left = to_int32 left;
      top = to_int32 top;
      right = to_int32 right;
      bottom = to_int32 bottom;
    }

pub decode_track : List ℕ → WireTrackRecord
decode_track bs =
    let (class_name, bs1) = chunk 16 bs in
    let (confidence, bs2) = word 4 bs1 in
    let (left, bs3) = word 4 bs2 in
    let (top, bs4) = word 4 bs3 in
    let (right, bs5) = word 4 bs4 in
    let (bottom, bs6) = word 4 bs5 in
    let (track_id, bs7) = word 4 bs6 in
    record {
      class_name = class_name;
      confidence = confidence;
      left = to_int32 left;
      top = to_int32 top;
      right = to_int32 right;
      bottom = to_int32 bottom;
      track_id = track_id;
    }

pub decode_summary : List ℕ → WireTrackSummary
decode_summary bs =
    let (class_name, bs1) = chunk 16 bs in
    let (track_id, bs2) = word 4 bs1 in
    let (frames_seen, bs3) = word 4 bs2 in
    let (first_seen_us, bs4) = word 8 bs3 in
    let (last_seen_us, bs5) = word 8 bs4 in
    let (duration_ms, bs6) = word 4 bs5 in
    let (visibility, bs7) = word 4 bs6 in
    let (cx, bs8) = word 4 bs7 in
    let (cy, bs9) = word 4 bs8 in
    let (left, bs10) = word 4 bs9 in
    let (top, bs11) = word 4 bs10 in
    let (right, bs12) = word 4 bs11 in
    let (bottom, bs13) = word 4 bs12 in
    let (vx, bs14) = word 4 bs13 in
    let (vy, bs15) = word 4 bs14 in
    let (speed, bs16) = word 4 bs15 in
    let (heading_deg, bs17) = word 4 bs16 in
    let (accel, bs18) = word 4 bs17 in
    let (loiter_score, bs19) = word 4 bs18 in
    let (in_roi, bs20) = word 1 bs19 in
    let (roi_entered, bs21) = word 1 bs20 in
    let (roi_exited, bs22) = word 1 bs21 in
    let (status, bs23) = word 1 bs22 in
    record {
      class_name = class_name;
      track_id = track_id;
      frames_seen = frames_seen;
      first_seen_us = first_seen_us;
      last_seen_us = last_seen_us;
      duration_ms = duration_ms;
      visibility = visibility;
      cx = to_int32 cx;
      cy = to_int32 cy;
      left = to_int32 left;
      top = to_int32 top;
      right = to_int32 right;
      bottom = to_int32 bottom;
      vx = vx;
      vy = vy;
      speed = speed;
      heading_deg = heading_deg;
      accel = accel;
      loiter_score = loiter_score;
      in_roi = in_roi;
      roi_entered = roi_entered;
      roi_exited = roi_exited;
      status = status;
      reserved = (chunk 4 bs23).0;
    }
