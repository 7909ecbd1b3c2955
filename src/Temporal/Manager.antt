-- ===== src/Temporal/Manager.antt =====
-- yolov8n_cap_multithread/temporal/include/track_manager.h and src/track_manager.cc: the live
-- tracks, frame by frame. The hash maps are association lists: the order in which the source walks
-- them, and so the order of the view, is unspecified there.
pub mod Frame
pub mod Invariant
use khadas_yolov8n_multithre.Prelude.{
  ℕ, ◌<◌, Bool, true, false, Option, none, some, List, [], ◌∷◌, map, ltb, ◌==◌, if◌then◌else◌,
}
use khadas_yolov8n_multithre.Prelude.Int.{◌+ℤ◌, half}
use khadas_yolov8n_multithre.Prelude.Float.{Float32}
use khadas_yolov8n_multithre.Prelude.Maps.{lookup, insert}
use khadas_yolov8n_multithre.Wire.{WireTrackRecord}
use khadas_yolov8n_multithre.Temporal.State.{
  Observation, Roi, TrackState, new_track, update, mark_missed,
}

-- `kMaxFramesLost`
abbrev pub max_frames_lost : ℕ
max_frames_lost = 30

pub record TrackManager {ℓ} (F : Type ℓ) : Type ℓ where
  pub roi : Roi
  pub tracks : List (ℕ × TrackState F)
  pub seen_this_frame : List (ℕ × Bool)

-- `for (kv : tracks_) seen_this_frame_[kv.first] = false`
all_unseen {ℓ} : {F : Type ℓ} → List (ℕ × TrackState F) → List (ℕ × Bool) → List (ℕ × Bool)
all_unseen [] seen = seen
all_unseen ((k, s) ∷ rest) seen = all_unseen rest (insert k false seen)

pub begin_frame {ℓ} : {F : Type ℓ} → TrackManager F → TrackManager F
unfolding all_unseen
begin_frame m = record m { seen_this_frame = all_unseen m.tracks [] }

pub observation_of : WireTrackRecord → ℕ → Observation
observation_of r t = record {
  timestamp_us = t;
  cx = half (r.left +ℤ r.right);
  cy = half (r.top +ℤ r.bottom);
  left = r.left;
  top = r.top;
  right = r.right;
  bottom = r.bottom;
}

-- `seen_this_frame_.count(k) && seen_this_frame_[k]`
pub was_seen : ℕ → List (ℕ × Bool) → Bool
was_seen k seen = elim (lookup k seen) [ none ↦ false | some b ↦ b ]

-- The first loop of `end_frame`: miss what was not seen, and erase what was missed too often.
pub age_tracks {ℓ} :
    {F : Type ℓ} → List (ℕ × Bool) → List (ℕ × TrackState F) → List (ℕ × TrackState F)
unfolding was_seen mark_missed
age_tracks seen [] = []
age_tracks seen ((k, s) ∷ rest) =
    let aged = age_tracks seen rest in
    if was_seen k seen
    then (k, s) ∷ aged
    else if ltb max_frames_lost (mark_missed s).frames_missed
    then aged
    else (k, mark_missed s) ∷ aged

pub view {ℓ} : {F : Type ℓ} → List (ℕ × TrackState F) → List (TrackState F)
view [] = []
view ((k, s) ∷ rest) = s ∷ view rest

pub end_frame {ℓ} : {F : Type ℓ} → TrackManager F → TrackManager F × List (TrackState F)
unfolding age_tracks view
end_frame m =
    let aged = age_tracks m.seen_this_frame m.tracks in (record m { tracks = aged }, view aged)

module _ (fl : Float32) where
  open fl use {F}

  pub new_manager : Roi → TrackManager F
  new_manager roi = record { roi = roi; tracks = []; seen_this_frame = [] }

  -- the track of a record, made by the constructor where there is none
  pub find_or_new : WireTrackRecord → ℕ → Option (TrackState F) → TrackState F
  find_or_new r t none = new_track fl r.track_id r.class_name t
  find_or_new r t (some s) = s

  pub observe : TrackManager F → WireTrackRecord → ℕ → TrackManager F
  unfolding find_or_new observation_of
  observe m r t = if r.track_id == 0 then m else record m {
    tracks =
        insert r.track_id
          (update fl m.roi (observation_of r t) (find_or_new r t (lookup r.track_id m.tracks)))
          m.tracks;
    seen_this_frame = insert r.track_id true m.seen_this_frame;
  }

  pub observe_all : TrackManager F → List WireTrackRecord → ℕ → TrackManager F
  observe_all m [] t = m
  observe_all m (r ∷ rs) t = observe_all (observe m r t) rs t

  -- One frame, as `main` of temporal_service.cc drives it.
  pub frame : TrackManager F → List WireTrackRecord → ℕ → TrackManager F × List (TrackState F)
  unfolding begin_frame observe_all observe end_frame
  frame m rs t = end_frame (observe_all (begin_frame m) rs t)
