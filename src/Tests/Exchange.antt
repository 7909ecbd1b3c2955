-- ===== src/Tests/Exchange.antt =====
-- The receiving ends of yolov8n_cap_multithread, with concrete connections.
use khadas_yolov8n_multithre.Prelude.{
  ℕ, ◌<◌, ◌≡◌, refl, arith, true, false, Option, none, some, List, [], ◌∷◌, append-nil, length,
  replicate,
}
use khadas_yolov8n_multithre.Prelude.Text.{label, strncpy}
use khadas_yolov8n_multithre.Prelude.Int.{ℤ}
use khadas_yolov8n_multithre.Stream.{Input, Sent, read_exact, and_then, write_exact}
use khadas_yolov8n_multithre.Stream.Read.{flat, Lively}
use khadas_yolov8n_multithre.Wire.{
  WireFrameHeader, le, word, encode_header, encode_detection, encode_summary,
}
use khadas_yolov8n_multithre.Wire.Roundtrip.{IsHeader, IsSummary}
use khadas_yolov8n_multithre.Frames.{
  DetectionMessage, no_reserved, send_frame, send_frame_of, detection_of, header_of, serve,
}
use khadas_yolov8n_multithre.Temporal.State.{
  TrackState, new_track, duration_ms, visibility, speed, heading_deg, status,
}
use khadas_yolov8n_multithre.Services.{fill_summary, publish_frame}
use khadas_yolov8n_multithre.Receivers.{closed, data_receiver}
use khadas_yolov8n_multithre.Receivers.Printed.{prints, data_receiver-serve}
use khadas_yolov8n_multithre.Summarizer.Receive.{frame, recv_frame}
use khadas_yolov8n_multithre.Summarizer.Receive.Frame.{recv_frame-publish_frame}
use khadas_yolov8n_multithre.Control.{
  YoloControlState, Command, initial_state, request, answer, settled, awaited, waits, recv_msg,
  parse_command, send_msg, build_command,
}
use khadas_yolov8n_multithre.Control.Texts.{ok_text}
use khadas_yolov8n_multithre.Control.Server.{Env, response_text, handle_connection, client_main}
use khadas_yolov8n_multithre.Control.Server.Agree.{command_line}
use khadas_yolov8n_multithre.Control.Server.Exchange.{built, client_main-handle_connection}
use khadas_yolov8n_multithre.Tests.Fixed.{fixed}
use khadas_yolov8n_multithre.Tests.Planes.{message, message-IsMessage}

-- Two messages with a timeout between them.
abbrev popped : List (Option DetectionMessage)
popped = some message ∷ none ∷ some message ∷ []

abbrev popped_sends : List ℕ
popped_sends = replicate 40 9

served_whole : (serve popped popped_sends).ok ≡ true
unfolding serve send_frame send_frame_of and_then write_exact le encode_header encode_detection
    label strncpy detection_of header_of
served_whole = refl

some_served : 0 < length (serve popped popped_sends).bytes
unfolding serve send_frame send_frame_of and_then write_exact le encode_header encode_detection
    label strncpy detection_of header_of
some_served = omega arith

data_receiver-serve_example :
    data_receiver false 4 ((serve popped popped_sends).bytes ∷ []) ≡ (prints false popped, closed)
data_receiver-serve_example =
    data_receiver-serve false popped popped_sends ((serve popped popped_sends).bytes ∷ []) 4
      (message-IsMessage, (message-IsMessage, tt)) served_whole (some_served, tt)
      (append-nil (serve popped popped_sends).bytes) (omega arith)

-- `blackout`, in a pipeline that gets into it while the handler waits.
abbrev goes_dark : YoloControlState → YoloControlState
goes_dark s = record s { blackout_active = true; resume_done = false }

abbrev env : Env
env = record { running = true; others = λ s. s; meanwhile = goes_dark; depth = 0; fps = 48 ∷ [] }

abbrev asking : Sent
asking = send_msg (built (command_line Command.blackout)) (replicate 9 9)

abbrev answering : Sent
answering = send_msg ok_text (replicate 9 9)

client_main-handle_connection_example :
    (client_main (command_line Command.blackout) (replicate 9 9) (answering.bytes ∷ [])
      ≡ record { code = 0; bytes = asking.bytes; printed = some ok_text })
    × ((handle_connection (env ∷ []) (asking.bytes ∷ []) (replicate 9 9) initial_state).state
        ≡ record initial_state {
          inference_enabled = false;
          blackout_requested = true;
          blackout_active = true;
        })
unfolding send_msg build_command command_line response_text answer and_then write_exact le
    handle_connection recv_msg read_exact parse_command word settled awaited waits request
client_main-handle_connection_example =
    client_main-handle_connection Command.blackout env initial_state (replicate 9 9) (replicate 9 9)
      (asking.bytes ∷ []) (answering.bytes ∷ []) tt refl refl refl (omega arith) (omega arith) refl
      refl

-- A track, just seen for the first time, and its frame on the wire.
abbrev head : WireFrameHeader
head = record { frame_id = 7; timestamp_us = 123456; count = 3; reserved = no_reserved }

abbrev track : TrackState ℤ
track = new_track fixed 3 (85 ∷ 65 ∷ 86 ∷ []) 100

track-IsSummary : IsSummary (fill_summary fixed track)
unfolding fill_summary new_track duration_ms visibility speed heading_deg status label strncpy
track-IsSummary = record {
  name_size = refl;
  track_id_fits = omega arith;
  frames_seen_fits = omega arith;
  first_seen_us_fits = omega arith;
  last_seen_us_fits = omega arith;
  duration_ms_fits = omega arith;
  visibility_fits = omega arith;
  cx_fits = omega arith;
  cy_fits = omega arith;
  left_fits = omega arith;
  top_fits = omega arith;
  right_fits = omega arith;
  bottom_fits = omega arith;
  vx_fits = omega arith;
  vy_fits = omega arith;
  speed_fits = omega arith;
  heading_deg_fits = omega arith;
  accel_fits = omega arith;
  loiter_score_fits = omega arith;
  in_roi_fits = omega arith;
  roi_entered_fits = omega arith;
  roi_exited_fits = omega arith;
  status_fits = omega arith;
  reserved_size = refl;
}

abbrev published : Sent
published = publish_frame fixed head (track ∷ []) (replicate 40 9)

head-IsHeader : IsHeader head
head-IsHeader = record {
  frame_id_fits = omega arith;
  timestamp_fits = omega arith;
  count_fits = omega arith;
  reserved_size = refl;
}

recv_frame-publish_frame_example :
    (left : Input) × (recv_frame false (published.bytes ∷ [])
      ≡ frame (fill_summary fixed track ∷ []) left)
    × (flat left ≡ [])
    × Lively left
unfolding publish_frame send_frame_of and_then write_exact le encode_header encode_summary
    fill_summary new_track duration_ms visibility speed heading_deg status label strncpy
recv_frame-publish_frame_example =
    recv_frame-publish_frame fixed head (track ∷ []) (replicate 40 9) [] (published.bytes ∷ [])
      head-IsHeader (track-IsSummary, tt) (omega arith) refl (omega arith, tt) refl
