-- ===== src/Wire/Roundtrip.antt =====
-- wire_protocol.h: what is written as bytes is read back.
use khadas_yolov8n_multithre.Prelude.{◌^◌, ◌<◌, ◌≡◌, [], length, length-append}
use khadas_yolov8n_multithre.Wire.{WireTrackSummary, decode_summary, encode_summary}
use khadas_yolov8n_multithre.Wire.Bytes.{wrap_1}
use khadas_yolov8n_multithre.Wire.{
  WireFrameHeader, WireDetectionRecord, WireTrackRecord, header_size, detection_size, track_size,
  summary_size, encode_header, encode_detection, encode_track, decode_header, decode_detection,
  decode_track,
}
use khadas_yolov8n_multithre.Wire.Bytes.{
  word-le, chunk-append, wrap_2, wrap_4, wrap_8, length-le, IsInt32, to_int32-of_int32,
}

-- Field values that their C types can hold.
pub record IsHeader (h : WireFrameHeader) : Type 0 where
  pub frame_id_fits : h.frame_id < 2 ^ 64
  pub timestamp_fits : h.timestamp_us < 2 ^ 64
  pub count_fits : h.count < 2 ^ 16
  pub reserved_size : length h.reserved ≡ 6

pub record IsDetection (r : WireDetectionRecord) : Type 0 where
  pub name_size : length r.class_name ≡ 16
  pub confidence_fits : r.confidence < 2 ^ 32
  pub left_fits : IsInt32 r.left
  pub top_fits : IsInt32 r.top
  pub right_fits : IsInt32 r.right
  pub bottom_fits : IsInt32 r.bottom

pub record IsTrack (r : WireTrackRecord) : Type 0 where
  pub name_size : length r.class_name ≡ 16
  pub confidence_fits : r.confidence < 2 ^ 32
  pub left_fits : IsInt32 r.left
  pub top_fits : IsInt32 r.top
  pub right_fits : IsInt32 r.right
  pub bottom_fits : IsInt32 r.bottom
  pub id_fits : r.track_id < 2 ^ 32

pub record IsSummary (r : WireTrackSummary) : Type 0 where
  pub name_size : length r.class_name ≡ 16
  pub track_id_fits : r.track_id < 2 ^ 32
  pub frames_seen_fits : r.frames_seen < 2 ^ 32
  pub first_seen_us_fits : r.first_seen_us < 2 ^ 64
  pub last_seen_us_fits : r.last_seen_us < 2 ^ 64
  pub duration_ms_fits : r.duration_ms < 2 ^ 32
  pub visibility_fits : r.visibility < 2 ^ 32
  pub cx_fits : IsInt32 r.cx
  pub cy_fits : IsInt32 r.cy
  pub left_fits : IsInt32 r.left
  pub top_fits : IsInt32 r.top
  pub right_fits : IsInt32 r.right
  pub bottom_fits : IsInt32 r.bottom
  pub vx_fits : r.vx < 2 ^ 32
  pub vy_fits : r.vy < 2 ^ 32
  pub speed_fits : r.speed < 2 ^ 32
  pub heading_deg_fits : r.heading_deg < 2 ^ 32
  pub accel_fits : r.accel < 2 ^ 32
  pub loiter_score_fits : r.loiter_score < 2 ^ 32
  pub in_roi_fits : r.in_roi < 2 ^ 8
  pub roi_entered_fits : r.roi_entered < 2 ^ 8
  pub roi_exited_fits : r.roi_exited < 2 ^ 8
  pub status_fits : r.status < 2 ^ 8
  pub reserved_size : length r.reserved ≡ 4

-- A header whose fields fit their types, written and read back, is unchanged.
pub decode-encode_header : (h : WireFrameHeader) → IsHeader h → decode_header (encode_header h) ≡ h
unfolding decode_header encode_header
decode-encode_header h v = rw (
  word-le,
  word-le,
  word-le,
  chunk-append 6 h.reserved [] v.reserved_size,
  wrap_8 h.frame_id v.frame_id_fits,
  wrap_8 h.timestamp_us v.timestamp_fits,
  wrap_2 h.count v.count_fits,
)

-- A detection record whose fields fit their types, written and read back, is unchanged.
pub decode-encode_detection :
    (r : WireDetectionRecord) → IsDetection r → decode_detection (encode_detection r) ≡ r
unfolding decode_detection encode_detection
decode-encode_detection r v = rw (
  chunk-append 16 r.class_name _ v.name_size,
  word-le,
  word-le,
  word-le,
  word-le,
  word-le,
  wrap_4 r.confidence v.confidence_fits,
  to_int32-of_int32 r.left v.left_fits,
  to_int32-of_int32 r.top v.top_fits,
  to_int32-of_int32 r.right v.right_fits,
  to_int32-of_int32 r.bottom v.bottom_fits,
)

-- A track record whose fields fit their types, written and read back, is unchanged.
pub decode-encode_track : (r : WireTrackRecord) → IsTrack r → decode_track (encode_track r) ≡ r
unfolding decode_track encode_track
decode-encode_track r v = rw (
  chunk-append 16 r.class_name _ v.name_size,
  word-le,
  word-le,
  word-le,
  word-le,
  word-le,
  word-le,
  wrap_4 r.confidence v.confidence_fits,
  to_int32-of_int32 r.left v.left_fits,
  to_int32-of_int32 r.top v.top_fits,
  to_int32-of_int32 r.right v.right_fits,
  to_int32-of_int32 r.bottom v.bottom_fits,
  wrap_4 r.track_id v.id_fits,
)

-- The asserted sizes of the structs.
pub length-encode_header :
    (h : WireFrameHeader) → IsHeader h → length (encode_header h) ≡ header_size
unfolding encode_header
length-encode_header h v = simp (length-append, length-le, v.reserved_size)

pub length-encode_detection :
    (r : WireDetectionRecord) → IsDetection r → length (encode_detection r) ≡ detection_size
unfolding encode_detection
length-encode_detection r v = simp (length-append, length-le, v.name_size)

pub length-encode_track : (r : WireTrackRecord) → IsTrack r → length (encode_track r) ≡ track_size
unfolding encode_track
length-encode_track r v = simp (length-append, length-le, v.name_size)

pub length-encode_summary :
    (r : WireTrackSummary) → IsSummary r → length (encode_summary r) ≡ summary_size
unfolding encode_summary
length-encode_summary r v = simp (length-append, length-le, v.name_size, v.reserved_size)

-- A track summary whose fields fit their types, written and read back, is unchanged.
pub decode-encode_summary :
    (r : WireTrackSummary) → IsSummary r → decode_summary (encode_summary r) ≡ r
unfolding decode_summary encode_summary
decode-encode_summary r v = rw (
  chunk-append 16 r.class_name _ v.name_size,
  word-le,
  word-le,
  word-le,
  word-le,
  word-le,
  word-le,
  word-le,
  word-le,
  word-le,
  word-le,
  word-le,
  word-le,
  word-le,
  word-le,
  word-le,
  word-le,
  word-le,
  word-le,
  word-le,
  word-le,
  word-le,
  word-le,
  chunk-append 4 r.reserved [] v.reserved_size,
  wrap_4 r.track_id v.track_id_fits,
  wrap_4 r.frames_seen v.frames_seen_fits,
  wrap_8 r.first_seen_us v.first_seen_us_fits,
  wrap_8 r.last_seen_us v.last_seen_us_fits,
  wrap_4 r.duration_ms v.duration_ms_fits,
  wrap_4 r.visibility v.visibility_fits,
  to_int32-of_int32 r.cx v.cx_fits,
  to_int32-of_int32 r.cy v.cy_fits,
  to_int32-of_int32 r.left v.left_fits,
  to_int32-of_int32 r.top v.top_fits,
  to_int32-of_int32 r.right v.right_fits,
  to_int32-of_int32 r.bottom v.bottom_fits,
  wrap_4 r.vx v.vx_fits,
  wrap_4 r.vy v.vy_fits,
  wrap_4 r.speed v.speed_fits,
  wrap_4 r.heading_deg v.heading_deg_fits,
  wrap_4 r.accel v.accel_fits,
  wrap_4 r.loiter_score v.loiter_score_fits,
  wrap_1 r.in_roi v.in_roi_fits,
  wrap_1 r.roi_entered v.roi_entered_fits,
  wrap_1 r.roi_exited v.roi_exited_fits,
  wrap_1 r.status v.status_fits,
)
