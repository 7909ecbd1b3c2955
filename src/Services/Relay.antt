-- ===== src/Services/Relay.antt =====
-- What the two services do with a frame that was sent to them whole.
use khadas_yolov8n_multithre.Prelude.{
  ℕ, ◌+◌, ◌-◌, ◌%◌, ◌^◌, ◌≤◌, ◌<◌, ◌≡◌, refl, sym, ap, subst, ◌∙◌, true, Option, some,
  some-injective, List, [], ◌∷◌, ◌++◌, map, append-nil, arith, length, length-map, length-take,
  take,
}
use khadas_yolov8n_multithre.Prelude.Float.{Float32}
use khadas_yolov8n_multithre.Prelude.Words.{u32_mod}
use khadas_yolov8n_multithre.Stream.{Input, Sent}
use khadas_yolov8n_multithre.Stream.Read.{flat, Lively}
use khadas_yolov8n_multithre.Wire.{
  WireFrameHeader, WireTrackRecord, detection_size, track_size, max_detections, decode_detection,
  decode_track, encode_track,
}
use khadas_yolov8n_multithre.Wire.Roundtrip.{
  IsHeader, IsTrack, decode-encode_track, length-encode_track,
}
use khadas_yolov8n_multithre.Tracker.{TrackerDetection, TrackerOutput, IouTracker, update}
use khadas_yolov8n_multithre.Tracker.Tracks.{IsTracker, update-IsTracker}
use khadas_yolov8n_multithre.Tracker.Outputs.{DistinctIds, outputs-update}
use khadas_yolov8n_multithre.Temporal.Manager.{TrackManager, frame}
use khadas_yolov8n_multithre.Frames.{
  opened, open_frame, read_records, DetectionMessage, detection_of, header_of, send_frame,
  send_frame_of, track_of, send_tracks, to_tracker_detection,
}
use khadas_yolov8n_multithre.Frames.Roundtrip.{
  AllSized, IsMessage, count-header_of, open-send_frame, open-send_frame_of,
}
use khadas_yolov8n_multithre.Services.{
  dets_of, header_after, left_or_end, accept, publish_to, publish_frame, track_opened, track_round,
  observe_opened, observe_round,
}

-- The detections that the tracker should get of a message.
abbrev pub dets_in : DetectionMessage → List TrackerDetection
dets_in msg =
    map (λ r. to_tracker_detection (detection_of r)) (take msg.group.count msg.group.results)

map-map :
    {A B C : Type 0}
    → (f : A → B) (g : B → C) (xs : List A) → map g (map f xs) ≡ map (λ x. g (f x)) xs
map-map f g [] = refl
map-map f g (x ∷ xs) = ap (λ l. g (f x) ∷ l) (map-map f g xs)

dets-all :
    (count : ℕ) (records : List (List ℕ))
    → length records ≡ count
    → dets_of count records ≡ map (λ bs. to_tracker_detection (decode_detection bs)) records
unfolding dets_of
dets-all count records e =
    let none_left : count - length records ≡ 0 = omega arith in
    rw none_left (append-nil (map (λ bs. to_tracker_detection (decode_detection bs)) records))

dets-message :
    (msg : DetectionMessage) (records : List (List ℕ))
    → IsMessage msg
    → map decode_detection records ≡ map detection_of (take msg.group.count msg.group.results)
    → dets_of msg.group.count records ≡ dets_in msg
dets-message msg records m e =
    let rs = take msg.group.count msg.group.results in
    let size : length records ≡ msg.group.count = omega (
      arith,
      ap length e,
      length-map records decode_detection,
      length-map rs detection_of,
      length-take msg.group.count msg.group.results,
      m.whole_group,
      m.count_fits,
    ) in
    dets-all msg.group.count records size
    ∙ sym (map-map decode_detection to_tracker_detection records)
    ∙ ap (map to_tracker_detection) e
    ∙ map-map detection_of to_tracker_detection rs

track_round-opened :
    (fl : Float32) (k k' : IouTracker) (conn waiting : Option (List ℕ)) (hdr : WireFrameHeader)
    (input body left : Input) (records : List (List ℕ)) (dets : List TrackerDetection)
    (tracks : List TrackerOutput)
    → open_frame detection_size input ≡ opened hdr body
    → read_records hdr.count detection_size body ≡ (records, some left)
    → dets_of hdr.count records ≡ dets
    → update fl hdr.frame_id dets k ≡ some (k', tracks)
    → track_round fl k conn waiting input
      ≡ some (publish_to k' left (send_tracks hdr tracks) (accept conn waiting))
unfolding track_round track_opened header_after left_or_end
track_round-opened fl k k' conn waiting hdr input body left records dets tracks head tail e u =
    rw (head, track_round, tail, e, u, track_opened)
      (ap
        (λ (o : Option Input). some (
          publish_to k' (left_or_end o) (send_tracks (header_after hdr o) tracks)
            (accept conn waiting)))
        (ap (λ p. p.1) tail))

-- A round of the tracker service on a message that `sendFrame` sent whole, however its bytes arrive:
-- the tracker takes exactly the detections of the message and stays well formed, each comes back
-- under an id of its own, the service sends these tracks to its consumer, if it has or gets one,
-- and the input is left at the next frame. The 32-bit ids must not run out.
pub track_round-send_frame :
    (fl : Float32) (k : IouTracker) (conn waiting : Option (List ℕ)) (msg : DetectionMessage)
    (sends rest : List ℕ) (input : Input)
    → IsTracker k
    → k.next_id + max_detections < u32_mod
    → IsMessage msg
    → (send_frame msg sends).ok ≡ true
    → Lively input
    → flat input ≡ (send_frame msg sends).bytes ++ rest
    → (k' : IouTracker) × (tracks : List TrackerOutput) × (left : Input) × (track_round fl k conn
          waiting input
        ≡ some (publish_to k' left (send_tracks (header_of msg) tracks) (accept conn waiting)))
      × (map (λ (o : TrackerOutput). o.det) tracks ≡ dets_in msg)
      × DistinctIds tracks
      × IsTracker k'
      × (flat left ≡ rest)
track_round-send_frame fl k conn waiting msg sends rest input v ids m done lively e =
    let rs = take msg.group.count msg.group.results in
    let few : length (dets_in msg) ≤ max_detections = omega (
      arith,
      length-map rs (λ r. to_tracker_detection (detection_of r)),
      length-take msg.group.count msg.group.results,
      m.whole_group,
    ) in
    let (body, left, records, head, tail, decoded, after) =
      open-send_frame msg sends rest input m done lively e in
    let c = count-header_of msg m in
    let f : ℕ = (header_of msg).frame_id in
    let (r, u, same, distinct) = outputs-update fl f (dets_in msg) k v (omega (arith, few, ids)) in
    let (r', u', v', _, _) = update-IsTracker fl f (dets_in msg) k v (omega (arith, few, ids)) in
    let one : r' ≡ r = some-injective _ _ (sym u' ∙ u) in
    (
      r.0,
      r.1,
      left,
      track_round-opened fl k r.0 conn waiting (header_of msg) input body left records (dets_in msg)
          r.1 head (ap (λ n. read_records n detection_size body) c ∙ tail)
          (ap (λ n. dets_of n records) c ∙ dets-message msg records m decoded) u,
      same,
      distinct,
      subst (λ (p : IouTracker × List TrackerOutput). IsTracker p.0) one v',
      after,
    )

-- Tracks whose fields their C types can hold.
abbrev pub AllTracks : List TrackerOutput → Type 0
AllTracks [] = Unit {0}
AllTracks (t ∷ ts) = IsTrack (track_of t) × AllTracks ts

abbrev wire_track : TrackerOutput → List ℕ
wire_track t = encode_track (track_of t)

tracks-AllSized : (ts : List TrackerOutput) → AllTracks ts → AllSized track_size (map wire_track ts)
tracks-AllSized [] h = tt
tracks-AllSized (t ∷ ts) h = (length-encode_track (track_of t) h.0, tracks-AllSized ts h.1)

decode-tracks :
    (ts : List TrackerOutput)
    → AllTracks ts
    → map decode_track (map wire_track ts) ≡ map track_of ts
decode-tracks [] h = refl
decode-tracks (t ∷ ts) h = rw (decode-encode_track (track_of t) h.0, decode-tracks ts h.1)

observe_round-opened :
    (fl : Float32) (m : TrackManager fl.F) (conn waiting : Option (List ℕ)) (hdr : WireFrameHeader)
    (input body left : Input) (records : List (List ℕ)) (rs : List WireTrackRecord)
    → open_frame track_size input ≡ opened hdr body
    → read_records hdr.count track_size body ≡ (records, some left)
    → map decode_track records ≡ rs
    → observe_round fl m conn waiting input
      ≡ publish_to
          (frame fl m rs hdr.timestamp_us).0
          left
          (publish_frame fl hdr (frame fl m rs hdr.timestamp_us).1)
          (accept conn waiting)
unfolding observe_round observe_opened header_after left_or_end
observe_round-opened fl m conn waiting hdr input body left records rs head tail e =
    rw (head, observe_round, tail, e, observe_opened)

-- A round of the temporal service on tracks that `send_tracks` sent whole, however their bytes
-- arrive: the manager goes through one frame with exactly these tracks and the time of the header,
-- the service publishes the view that this frame gives, and the input is left at the next frame.
pub observe_round-send_tracks :
    (fl : Float32) (m : TrackManager fl.F) (conn waiting : Option (List ℕ)) (hdr : WireFrameHeader)
    (tracks : List TrackerOutput) (sends rest : List ℕ) (input : Input)
    → IsHeader hdr
    → AllTracks tracks
    → length tracks < 2 ^ 16
    → (send_tracks hdr tracks sends).ok ≡ true
    → Lively input
    → flat input ≡ (send_tracks hdr tracks sends).bytes ++ rest
    → (left : Input) × (observe_round fl m conn waiting input ≡ (
        let (m', live) = frame fl m (map track_of tracks) hdr.timestamp_us in
        publish_to m' left
          (publish_frame fl (record hdr { count = length tracks }) live)
          (accept conn waiting)))
      × (flat left ≡ rest)
unfolding send_tracks
observe_round-send_tracks fl m conn waiting hdr tracks sends rest input h fit few done lively e =
    let whole : length tracks % 2 ^ 16 ≡ length tracks = omega arith in
    let out : WireFrameHeader = record hdr { count = length tracks } in
    let same =
      ap
        (λ n.
          send_frame_of track_size (length tracks) (record hdr { count = n })
            (map wire_track tracks) sends)
        whole in
    let (body, left, head, tail, after) =
      open-send_frame_of track_size out (map wire_track tracks) sends rest input
        (record {
          frame_id_fits = h.frame_id_fits;
          timestamp_fits = h.timestamp_fits;
          count_fits = few;
          reserved_size = h.reserved_size;
        })
        (sym (length-map tracks wire_track)) (omega arith) (tracks-AllSized tracks fit)
        (sym (ap (λ (s : Sent). s.ok) same) ∙ done) lively
        (e ∙ ap (λ (s : Sent). s.bytes ++ rest) same) in
    (
      left,
      observe_round-opened fl m conn waiting out input body left (map wire_track tracks)
          (map track_of tracks) head tail (decode-tracks tracks fit),
      after,
    )
