-- ===== src/Tests/Tracks.antt =====
-- The tracker and the temporal service of yolov8n_cap_multithread, on two frames of one drone.
use khadas_yolov8n_multithre.Prelude.{
  ℕ, ◌+◌, ◌*◌, ◌≤◌, ◌<◌, ◌≡◌, refl, arith, true, false, ◌&&◌, none, some, List, [], ◌∷◌, ◌++◌, map,
  length, drop, ◌-◌, replicate, if◌then◌else◌,
}
use khadas_yolov8n_multithre.Prelude.Int.{ℤ, pos}
use khadas_yolov8n_multithre.Prelude.Maps.{lookup}
use khadas_yolov8n_multithre.Prelude.Text.{label, strncpy}
use khadas_yolov8n_multithre.Stream.{Input, Sent, write_exact, and_then}
use khadas_yolov8n_multithre.Stream.Read.{flat}
use khadas_yolov8n_multithre.Wire.{
  WireFrameHeader, WireTrackRecord, le, encode_header, encode_track,
}
use khadas_yolov8n_multithre.Tracker.{
  TrackerDetection, TrackerOutput, Track, IouTracker, Matched, match_frame,
}
use khadas_yolov8n_multithre.Tracker.Assign.{IsMatching}
use khadas_yolov8n_multithre.Tracker.Greedy.{IsGreedy}
use khadas_yolov8n_multithre.Tracker.Matching.{IsMaximal, match_frame-IsMatching}
use khadas_yolov8n_multithre.Temporal.State.{
  Observation, Roi, TrackState, new_track, mark_missed, status, loiter_of, history_max,
}
use khadas_yolov8n_multithre.Temporal.State.Counters.{
  Event, seen, missed, replay, observe_event, replay-new_track,
}
use khadas_yolov8n_multithre.Temporal.State.History.{observations, history-replay}
use khadas_yolov8n_multithre.Temporal.State.Regions.{entries, exits, inside, entries-new_track}
use khadas_yolov8n_multithre.Temporal.State.Loiter.{IsUnit, loiter_score-IsUnit}
use khadas_yolov8n_multithre.Temporal.Manager.{TrackManager, new_manager, frame}
use khadas_yolov8n_multithre.Temporal.Manager.Frame.{follow, lookup-frame}
use khadas_yolov8n_multithre.Temporal.Manager.Invariant.{
  IsManaged, frames, frames-IsManaged, lookup-frames-Unreported,
}
use khadas_yolov8n_multithre.Frames.{no_reserved, track_of, send_frame_of, send_tracks}
use khadas_yolov8n_multithre.Services.{accept, publish_to, publish_frame, observe_round}
use khadas_yolov8n_multithre.Services.Relay.{AllTracks, observe_round-send_tracks}
use khadas_yolov8n_multithre.Tests.Fixed.{fixed}

abbrev uav : List ℕ
uav = (85 ∷ 65 ∷ 86 ∷ []) ++ replicate 13 0

abbrev drone : TrackerDetection
drone = record {
  class_name = uav;
  confidence = 9;
  left = pos 10;
  top = pos 10;
  right = pos 50;
  bottom = pos 50;
}

abbrev tracked : Track
tracked = record { id = 1; det = drone; frames_unseen = 2; last_seen_frame = 5 }

abbrev tracker : IouTracker
tracker = record { tracks = tracked ∷ []; next_id = 2 }

match_frame-IsMatching_example :
    (s : Matched) × (match_frame fixed (drone ∷ drone ∷ []) (tracked ∷ []) ≡ some s)
    × IsMatching fixed (drone ∷ drone ∷ []) (tracked ∷ []) s
    × IsMaximal fixed (drone ∷ drone ∷ []) (tracked ∷ []) s
    × IsGreedy fixed (drone ∷ drone ∷ []) (tracked ∷ []) s
match_frame-IsMatching_example = match_frame-IsMatching fixed (drone ∷ drone ∷ []) (tracked ∷ [])

abbrev roi : Roi
roi = record { left = pos 0; top = pos 0; right = pos 100; bottom = pos 100; enabled = true }

abbrev at : ℕ → Observation
at x = record {
  timestamp_us = x * 1000;
  cx = pos x;
  cy = pos 20;
  left = pos x;
  top = pos 10;
  right = pos x;
  bottom = pos 30;
}

abbrev life : List Event
life = seen (at 30) ∷ seen (at 60) ∷ missed ∷ seen (at 120) ∷ missed ∷ []

history-replay_example :
    (replay fixed roi (new_track fixed 1 uav 0) life).history ≡ at 30 ∷ at 60 ∷ at 120 ∷ []
history-replay_example = history-replay fixed roi 1 uav 0 life

replay-new_track_example :
    let s = replay fixed roi (new_track fixed 1 uav 0) life in
    (s.frames_seen ≡ 3)
    × (s.frames_since_first ≡ 5)
    × (s.frames_seen ≤ s.frames_since_first)
    × (status s ≡ 2)
replay-new_track_example = replay-new_track fixed roi 1 uav 0 life (omega arith)

entries-new_track_example :
    let s = new_track fixed 1 uav 0 in
    (entries fixed roi s life ≡ exits fixed roi s life + (if inside roi false life then 1 else 0))
    × (let s' = observe_event fixed roi (replay fixed roi s life) missed in
        s'.roi_entered && s'.roi_exited ≡ false)
entries-new_track_example = entries-new_track fixed roi 1 uav 0 life missed

loiter_score-IsUnit_example :
    let score = (replay fixed roi (new_track fixed 1 uav 0) life).loiter_score in
    (score ≡ loiter_of fixed (drop (length (observations life) - history_max) (observations life)))
    × IsUnit fixed score
loiter_score-IsUnit_example = loiter_score-IsUnit fixed roi 1 uav 0 life

abbrev drone_record : WireTrackRecord
drone_record = track_of (record { det = drone; track_id = 1 })

-- One frame that reports the drone, then two that do not.
abbrev life_of_frames : List (List WireTrackRecord × ℕ)
life_of_frames = (drone_record ∷ [], 1000) ∷ ([], 2000) ∷ ([], 3000) ∷ []

frames-IsManaged_example : IsManaged (frames fixed (new_manager fixed roi) life_of_frames)
frames-IsManaged_example = frames-IsManaged fixed roi life_of_frames

abbrev manager : TrackManager ℤ
manager = record { roi = roi; tracks = (1, new_track fixed 1 uav 0) ∷ []; seen_this_frame = [] }

lookup-frame_example :
    lookup 1 (frame fixed manager (drone_record ∷ []) 1000).0.tracks
    ≡ follow fixed roi 1 1000 (drone_record ∷ []) (some (new_track fixed 1 uav 0))
unfolding track_of mark_missed
lookup-frame_example = lookup-frame fixed manager (drone_record ∷ []) 1000 1 (omega arith) (tt, tt)

abbrev drone_state : TrackState ℤ
drone_state = new_track fixed 1 uav 0

abbrev quiet_frames : List (List WireTrackRecord × ℕ)
quiet_frames = ([], 2000) ∷ ([], 3000) ∷ []

manager-IsManaged : IsManaged manager
unfolding new_track
manager-IsManaged = record { distinct = (tt, tt); kept = ((omega arith, refl, omega arith), tt) }

lookup-frames-Unreported_example :
    (drone_state.frames_missed + 2 ≤ 30
      → (s' : TrackState ℤ) × (lookup 1 (frames fixed manager quiet_frames).tracks ≡ some s')
        × (s'.frames_missed ≡ drone_state.frames_missed + 2)
        × (0 < 2 → status s' ≡ 2))
    × (30 < drone_state.frames_missed + 2
        → lookup 1 (frames fixed manager quiet_frames).tracks ≡ none)
lookup-frames-Unreported_example =
    lookup-frames-Unreported fixed manager quiet_frames 1 drone_state manager-IsManaged
      (refl, (refl, tt)) refl

abbrev header : WireFrameHeader
header = record { frame_id = 7; timestamp_us = 123456; count = 1; reserved = no_reserved }

abbrev published : List TrackerOutput
published = record { det = drone; track_id = 1 } ∷ []

abbrev sent : Sent
sent = send_tracks header published (replicate 10 30)

sent_whole : sent.ok ≡ true
unfolding send_tracks send_frame_of and_then write_exact le encode_header encode_track strncpy label
    track_of
sent_whole = refl

some_sent : 0 < length sent.bytes
unfolding send_tracks send_frame_of and_then write_exact le encode_header encode_track strncpy label
    track_of
some_sent = omega arith

published-AllTracks : AllTracks published
unfolding track_of strncpy label
published-AllTracks = (
  record {
    name_size = refl;
    confidence_fits = omega arith;
    left_fits = omega arith;
    top_fits = omega arith;
    right_fits = omega arith;
    bottom_fits = omega arith;
    id_fits = omega arith;
  },
  tt,
)

observe_round-send_tracks_example :
    (left : Input) × (observe_round fixed manager none (some []) (sent.bytes ∷ []) ≡ (
      let (m', live) = frame fixed manager (map track_of published) 123456 in
      publish_to m' left (publish_frame fixed header live) (accept none (some []))))
    × (flat left ≡ [])
observe_round-send_tracks_example =
    observe_round-send_tracks fixed manager none (some []) header published (replicate 10 30) []
      (sent.bytes ∷ [])
      (record {
        frame_id_fits = omega arith;
        timestamp_fits = omega arith;
        count_fits = omega arith;
        reserved_size = refl;
      })
      published-AllTracks (omega arith) sent_whole (some_sent, tt) refl
