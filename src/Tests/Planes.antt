-- ===== src/Tests/Planes.antt =====
-- The sockets of yolov8n_cap_multithread, with concrete messages.
use khadas_yolov8n_multithre.Prelude.{
  ℕ, zero, suc, ◌<◌, ◌≡◌, refl, arith, true, none, some, List, [], ◌∷◌, map, length, replicate,
}
use khadas_yolov8n_multithre.Prelude.Int.{pos}
use khadas_yolov8n_multithre.Stream.{Input, Sent, read_exact, write_exact, and_then}
use khadas_yolov8n_multithre.Prelude.Text.{label, strncpy}
use khadas_yolov8n_multithre.Stream.Read.{flat, Reads, read_exact-Reads}
use khadas_yolov8n_multithre.Stream.Write.{Writes, write_exact-Writes}
use khadas_yolov8n_multithre.Wire.{
  encode_header, decode_detection, encode_detection, le, detection_size,
}
use khadas_yolov8n_multithre.Wire.Roundtrip.{IsDetection}
use khadas_yolov8n_multithre.Frames.{
  DetectResult, DetectionMessage, detection_of, header_of, send_frame, send_frame_of, opened,
  open_frame, read_records,
}
use khadas_yolov8n_multithre.Frames.Roundtrip.{AllFit, IsMessage, open-send_frame}
use khadas_yolov8n_multithre.Tracker.{IouTracker, TrackerOutput, make_tracker}
use khadas_yolov8n_multithre.Tracker.Tracks.{IsTracker}
use khadas_yolov8n_multithre.Tracker.Outputs.{DistinctIds}
use khadas_yolov8n_multithre.Frames.{send_tracks}
use khadas_yolov8n_multithre.Services.{accept, publish_to, track_round}
use khadas_yolov8n_multithre.Services.Relay.{dets_in, track_round-send_frame}
use khadas_yolov8n_multithre.Prelude.{none}
use khadas_yolov8n_multithre.Frames.{serve}
use khadas_yolov8n_multithre.Frames.Sender.{stream_bytes, serve-Writes}
use khadas_yolov8n_multithre.Tests.Fixed.{fixed}

abbrev pieces : Input
pieces = (1 ∷ 2 ∷ []) ∷ (3 ∷ []) ∷ (4 ∷ 5 ∷ 6 ∷ []) ∷ []

read_exact-Reads_example : Reads 4 pieces (read_exact 4 pieces)
read_exact-Reads_example = read_exact-Reads 4 pieces (omega arith, (omega arith, (omega arith, tt)))

write_exact-Writes_example : Writes (1 ∷ 2 ∷ 3 ∷ []) (write_exact (1 ∷ 2 ∷ 3 ∷ []) (2 ∷ 0 ∷ []))
write_exact-Writes_example = write_exact-Writes (1 ∷ 2 ∷ 3 ∷ []) (2 ∷ 0 ∷ [])

abbrev pub found : DetectResult
found = record {
  name = 85 ∷ [];
  left = pos 1;
  right = pos 30;
  top = pos 2;
  bottom = pos 40;
  prop = 9;
}

abbrev pub message : DetectionMessage
message = record {
  frame_id = 7;
  timestamp_us = 123456;
  group = record { id = 0; count = 1; results = replicate 64 found };
}

found-IsDetection : IsDetection (detection_of found)
unfolding detection_of label strncpy
found-IsDetection = record {
  name_size = refl;
  confidence_fits = omega arith;
  left_fits = omega arith;
  top_fits = omega arith;
  right_fits = omega arith;
  bottom_fits = omega arith;
}

all_found : (n : ℕ) → AllFit (replicate n found)
all_found zero = tt
all_found (suc n) = (found-IsDetection, all_found n)

pub message-IsMessage : IsMessage message
message-IsMessage = record {
  frame_id_fits = omega arith;
  timestamp_fits = omega arith;
  count_fits = omega arith;
  whole_group = refl;
  results_fit = all_found 64;
}

-- Each `send` takes up to nine bytes.
abbrev pub sends : List ℕ
sends = replicate 20 9

sent_whole : (send_frame message sends).ok ≡ true
unfolding send_frame send_frame_of and_then write_exact le encode_header encode_detection label
    strncpy detection_of header_of
sent_whole = refl

abbrev pub sent : Sent
sent = send_frame message sends

-- What arrives, in two pieces, and the first byte of what follows.
abbrev arriving : Input
arriving = sent.bytes ∷ (4 ∷ []) ∷ []

some_sent : 0 < length sent.bytes
unfolding send_frame send_frame_of and_then write_exact le encode_header encode_detection label
    strncpy detection_of header_of
some_sent = omega arith

new-IsTracker : IsTracker make_tracker
unfolding make_tracker
new-IsTracker = record { ascends = omega arith; young = tt }

open-send_frame_example :
    (body left : Input) × (records : List (List ℕ)) × (open_frame detection_size arriving
      ≡ opened (header_of message) body)
    × (read_records 1 detection_size body ≡ (records, some left))
    × (map decode_detection records ≡ map detection_of (found ∷ []))
    × (flat left ≡ 4 ∷ [])
open-send_frame_example =
    open-send_frame message sends (4 ∷ []) arriving message-IsMessage sent_whole
      (some_sent, (omega arith, tt)) refl

track_round-send_frame_example :
    (k' : IouTracker) × (tracks : List TrackerOutput) × (left : Input) × (track_round fixed
        make_tracker none
        (some [])
        arriving
      ≡ some (publish_to k' left (send_tracks (header_of message) tracks) (accept none (some []))))
    × (map (λ (o : TrackerOutput). o.det) tracks ≡ dets_in message)
    × DistinctIds tracks
    × IsTracker k'
    × (flat left ≡ 4 ∷ [])
unfolding make_tracker
track_round-send_frame_example =
    track_round-send_frame fixed make_tracker none (some []) message sends (4 ∷ []) arriving
      new-IsTracker (omega arith) message-IsMessage sent_whole (some_sent, (omega arith, tt)) refl

-- The second frame is cut off.
serve-Writes_example :
    Writes
      (stream_bytes (some message ∷ none ∷ some message ∷ []))
      (serve (some message ∷ none ∷ some message ∷ []) sends)
serve-Writes_example = serve-Writes (some message ∷ none ∷ some message ∷ []) sends
