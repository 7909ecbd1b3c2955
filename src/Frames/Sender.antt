-- ===== src/Frames/Sender.antt =====
-- `senderLoop` of yolov8n_cap_multithread/src/ipc/unix_data_publisher.cc: what one consumer gets.
use khadas_yolov8n_multithre.Prelude.{ℕ, refl, Option, none, some, List, [], ◌∷◌, ◌++◌, map, take}
use khadas_yolov8n_multithre.Stream.Write.{Writes, whole, and_then-Writes}
use khadas_yolov8n_multithre.Wire.{detection_size, encode_detection}
use khadas_yolov8n_multithre.Frames.{DetectionMessage, send_frame, header_of, detection_of, serve}
use khadas_yolov8n_multithre.Frames.Roundtrip.{frame_bytes, send_frame_of-Writes}

-- The frame of a message, whole.
abbrev pub message_bytes : DetectionMessage → List ℕ
message_bytes msg =
    frame_bytes detection_size (header_of msg)
      (map (λ r. encode_detection (detection_of r)) (take msg.group.count msg.group.results))

-- The frames of the messages that were popped, one after the other.
abbrev pub stream_bytes : List (Option DetectionMessage) → List ℕ
stream_bytes [] = []
stream_bytes (none ∷ popped) = stream_bytes popped
stream_bytes (some msg ∷ popped) = message_bytes msg ++ stream_bytes popped

send_frame-Writes :
    (msg : DetectionMessage) (sends : List ℕ) → Writes (message_bytes msg) (send_frame msg sends)
unfolding send_frame
send_frame-Writes msg sends = send_frame_of-Writes detection_size (header_of msg) _ sends

-- A consumer gets the frames of the messages that are popped for it, in their order and nothing
-- else: all of them while the sends succeed, and after a failed send a proper prefix of their bytes.
pub serve-Writes :
    (popped : List (Option DetectionMessage)) (sends : List ℕ)
    → Writes (stream_bytes popped) (serve popped sends)
unfolding serve
serve-Writes [] sends = whole refl refl
serve-Writes (none ∷ popped) sends = serve-Writes popped sends
serve-Writes (some msg ∷ popped) sends =
    and_then-Writes (message_bytes msg) (stream_bytes popped) (send_frame msg sends) (serve popped)
      (send_frame-Writes msg sends) (serve-Writes popped)
