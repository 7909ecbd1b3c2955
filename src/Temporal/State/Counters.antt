-- ===== src/Temporal/State/Counters.antt =====
-- track_state.cc: the counters and the status of a track over a whole life of frames.
use khadas_yolov8n_multithre.Prelude.{
  ℕ, suc, ◌+◌, ◌≤◌, ◌<◌, ◌≡◌, refl, List, [], ◌∷◌, arith, ltb, if◌then◌else◌, length, subst,
}
use khadas_yolov8n_multithre.Prelude.Float.{Float32}
use khadas_yolov8n_multithre.Prelude.Words.{u32_mod, inc32}
use khadas_yolov8n_multithre.Temporal.State.{
  Observation, Roi, TrackState, tentative_frames, new_track, status, mark_missed, update,
}

-- One frame, as one track sees it.
pub data Event : Type 0 where
  seen : Observation → Event
  missed : Event

-- How many frames saw the track, and how many at the end did not.
abbrev pub sightings : List Event → ℕ
sightings [] = 0
sightings (seen o ∷ es) = suc (sightings es)
sightings (missed ∷ es) = sightings es

abbrev pub misses : ℕ → List Event → ℕ
misses k [] = k
misses k (seen o ∷ es) = misses 0 es
misses k (missed ∷ es) = misses (k + 1) es

module _ (fl : Float32) (roi : Roi) where
  open fl use {F}

  unfoldable pub observe_event : TrackState F → Event → TrackState F
  observe_event s (seen o) = update fl roi o s
  observe_event s missed = mark_missed s

  unfoldable pub replay : TrackState F → List Event → TrackState F
  replay s [] = s
  replay s (e ∷ es) = replay (observe_event s e) es

  -- What an update leaves of the identity of a track, and of its misses.
  pub update_identity :
      (o : Observation) (s : TrackState F)
      → ((update fl roi o s).track_id ≡ s.track_id) × ((update fl roi o s).frames_missed ≡ 0)
  unfolding update
  update_identity o s = (refl, refl)

  replay_counters :
      (es : List Event) (s : TrackState F)
      → s.frames_seen + length es < u32_mod
      → s.frames_since_first + length es < u32_mod
      → s.frames_missed + length es < u32_mod
      → ((replay s es).frames_seen ≡ s.frames_seen + sightings es)
        × ((replay s es).frames_since_first ≡ s.frames_since_first + length es)
        × ((replay s es).frames_missed ≡ misses s.frames_missed es)
  unfolding replay observe_event mark_missed update
  replay_counters [] s a b c = omega arith
  replay_counters (seen o ∷ es) s a b c =
      let (x, y, z) =
        replay_counters es (update fl roi o s) (omega arith) (omega arith) (omega arith) in
      (omega arith, omega arith, z)
  replay_counters (missed ∷ es) s a b c =
      let (x, y, z) =
        replay_counters es (mark_missed s) (omega arith) (omega arith) (omega arith) in
      let next : inc32 s.frames_missed ≡ s.frames_missed + 1 = omega arith in
      (
        omega arith,
        omega arith,
        subst (λ k. (replay (mark_missed s) es).frames_missed ≡ misses k es) next z,
      )

  -- The number of sightings counts what was seen, and the age every frame.
  sightings-le : (es : List Event) → sightings es ≤ length es
  sightings-le [] = omega arith
  sightings-le (seen o ∷ es) = omega (arith, sightings-le es)
  sightings-le (missed ∷ es) = omega (arith, sightings-le es)

  -- A new track, after any life of fewer than 2^32 frames: `frames_seen` counts the sightings and
  -- `frames_since_first` the frames, so the visibility is a ratio of at most one; and the status is
  -- 2 (lost) exactly when the last frame missed the track, else 0 (tentative) below three
  -- sightings and 1 (active) from three on.
  pub replay-new_track :
      (id : ℕ) (name : List ℕ) (t : ℕ) (es : List Event)
      → length es < u32_mod
      → let s = replay (new_track fl id name t) es in
        (s.frames_seen ≡ sightings es)
        × (s.frames_since_first ≡ length es)
        × (s.frames_seen ≤ s.frames_since_first)
        × (status s ≡ (
            if ltb 0 (misses 0 es)
            then 2
            else if ltb (sightings es) tentative_frames
            then 0
            else 1))
  unfolding new_track status
  replay-new_track id name t es h =
      let (x, y, z) =
        replay_counters es (new_track fl id name t) (omega arith) (omega arith) (omega arith) in
      let x' : (replay (new_track fl id name t) es).frames_seen ≡ sightings es = omega arith in
      (x', omega arith, omega (arith, sightings-le es), rw (status, z, x'))
