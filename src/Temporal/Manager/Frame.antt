-- ===== src/Temporal/Manager/Frame.antt =====
-- track_manager.cc: one frame, seen from one track.
use khadas_yolov8n_multithre.Prelude.{
  ℕ, ◌≡◌, refl, ◌≢◌, Bool, true, false, ◌||◌, Option, none, some, List, [], ◌∷◌, arith, ltb, ◌==◌,
  if◌then◌else◌, inl, inr, Bool-cases,
}
use khadas_yolov8n_multithre.Prelude.Float.{Float32}
use khadas_yolov8n_multithre.Prelude.Maps.{
  lookup, insert, Distinct, lookup-insert, lookup-Fresh, insert-Distinct,
}
use khadas_yolov8n_multithre.Wire.{WireTrackRecord}
use khadas_yolov8n_multithre.Temporal.State.{Roi, TrackState, update, mark_missed}
use khadas_yolov8n_multithre.Temporal.Manager.{
  TrackManager, max_frames_lost, all_unseen, begin_frame, observation_of, was_seen, age_tracks,
  end_frame, find_or_new, observe, observe_all, frame,
}

-- Whether a frame reports the track.
abbrev pub reported : ℕ → List WireTrackRecord → Bool
reported k [] = false
reported k (r ∷ rs) = r.track_id == k || reported k rs

-- A track that a frame does not report: one more miss, and dropped above `kMaxFramesLost`.
abbrev pub aged : {F : Type 0} → Option (TrackState F) → Option (TrackState F)
aged none = none
aged (some s) =
    if ltb max_frames_lost (mark_missed s).frames_missed then none else some (mark_missed s)

was_seen-insert-false :
    (seen : List (ℕ × Bool)) (j k : ℕ)
    → was_seen k seen ≡ false
    → was_seen k (insert j false seen) ≡ false
unfolding was_seen
was_seen-insert-false seen j k h = ground (arith, lookup-insert j k false seen)

or_rotate : (a b c : Bool) → (a || (b || c)) ≡ ((b || a) || c)
or_rotate a b c = ground arith

module _ (fl : Float32) where
  open fl use {F}

  -- What the records of a frame make of one track: an update for each record with its id.
  abbrev pub follow :
      Roi → ℕ → ℕ → List WireTrackRecord → Option (TrackState F) → Option (TrackState F)
  follow roi k t [] o = o
  follow roi k t (r ∷ rs) o = follow roi k t rs (
      if r.track_id == k
      then some (update fl roi (observation_of r t) (find_or_new fl r t o))
      else o)

  lookup-observe :
      (m : TrackManager F) (r : WireTrackRecord) (t k : ℕ)
      → k ≢ 0
      → lookup k (observe fl m r t).tracks ≡ (
          if r.track_id == k
          then some (update fl m.roi (observation_of r t) (find_or_new fl r t (lookup k m.tracks)))
          else lookup k m.tracks)
  unfolding observe
  lookup-observe m r t k h = ground (
    arith,
    lookup-insert r.track_id k
        (update fl m.roi (observation_of r t) (find_or_new fl r t (lookup r.track_id m.tracks)))
        m.tracks,
  )

  was_seen-observe :
      (m : TrackManager F) (r : WireTrackRecord) (t k : ℕ)
      → k ≢ 0
      → was_seen k (observe fl m r t).seen_this_frame
        ≡ (r.track_id == k || was_seen k m.seen_this_frame)
  unfolding observe was_seen
  was_seen-observe m r t k h = ground (arith, lookup-insert r.track_id k true m.seen_this_frame)

  roi-observe : (m : TrackManager F) (r : WireTrackRecord) (t : ℕ) → (observe fl m r t).roi ≡ m.roi
  unfolding observe
  roi-observe m r t = ground arith

  lookup-age_tracks :
      (seen : List (ℕ × Bool)) (m : List (ℕ × TrackState F)) (k : ℕ)
      → Distinct m
      → lookup k (age_tracks seen m) ≡ (if was_seen k seen then lookup k m else aged (lookup k m))
  unfolding age_tracks
  lookup-age_tracks seen [] k d = ground arith
  lookup-age_tracks seen ((j, s) ∷ m) k d =
      ground (arith, lookup-age_tracks seen m k d.1, lookup-Fresh k m)

  was_seen-all_unseen :
      (ts : List (ℕ × TrackState F)) (seen : List (ℕ × Bool)) (k : ℕ)
      → was_seen k seen ≡ false
      → was_seen k (all_unseen ts seen) ≡ false
  unfolding all_unseen
  was_seen-all_unseen [] seen k h = h
  was_seen-all_unseen ((j, s) ∷ ts) seen k h =
      was_seen-all_unseen ts (insert j false seen) k (was_seen-insert-false seen j k h)

  lookup-observe_all :
      (rs : List WireTrackRecord) (m : TrackManager F) (t k : ℕ)
      → k ≢ 0
      → lookup k (observe_all fl m rs t).tracks ≡ follow m.roi k t rs (lookup k m.tracks)
  unfolding observe_all
  lookup-observe_all [] m t k h = refl
  lookup-observe_all (r ∷ rs) m t k h =
      rw (
        lookup-observe_all rs (observe fl m r t) t k h,
        roi-observe m r t,
        lookup-observe m r t k h,
      )

  was_seen-observe_all :
      (rs : List WireTrackRecord) (m : TrackManager F) (t k : ℕ)
      → k ≢ 0
      → was_seen k (observe_all fl m rs t).seen_this_frame
        ≡ (reported k rs || was_seen k m.seen_this_frame)
  unfolding observe_all
  was_seen-observe_all [] m t k h = refl
  was_seen-observe_all (r ∷ rs) m t k h =
      rw (was_seen-observe_all rs (observe fl m r t) t k h, was_seen-observe m r t k h)
        (or_rotate (reported k rs) (r.track_id == k) (was_seen k m.seen_this_frame))

  observe-Distinct :
      (m : TrackManager F) (r : WireTrackRecord) (t : ℕ)
      → Distinct m.tracks
      → Distinct (observe fl m r t).tracks
  unfolding observe
  observe-Distinct m r t d = elim (Bool-cases (r.track_id == 0)) [
    | inl ignored ↦ rw ignored d
    | inr other ↦ rw other (insert-Distinct r.track_id _ m.tracks d)
  ]

  pub observe_all-Distinct :
      (rs : List WireTrackRecord) (m : TrackManager F) (t : ℕ)
      → Distinct m.tracks
      → Distinct (observe_all fl m rs t).tracks
  unfolding observe_all
  observe_all-Distinct [] m t d = d
  observe_all-Distinct (r ∷ rs) m t d =
      observe_all-Distinct rs (observe fl m r t) t (observe-Distinct m r t d)

  follow_unreported :
      (roi : Roi) (k t : ℕ) (rs : List WireTrackRecord) (o : Option (TrackState F))
      → reported k rs ≡ false
      → follow roi k t rs o ≡ o
  follow_unreported roi k t [] o h = refl
  follow_unreported roi k t (r ∷ rs) o h = ground (arith, follow_unreported roi k t rs o)

  -- One frame, for each track on its own: a track that the frame reports is updated by each of its
  -- records in turn, after the constructor where it is new; one that the frame does not report is
  -- missed once more, and dropped when that makes more than thirty misses in a row; and no other
  -- track appears. Ids are not 0, and the map holds each id once.
  pub lookup-frame :
      (m : TrackManager F) (rs : List WireTrackRecord) (t k : ℕ)
      → k ≢ 0
      → Distinct m.tracks
      → lookup k (frame fl m rs t).0.tracks ≡ (
          if reported k rs
          then follow m.roi k t rs (lookup k m.tracks)
          else aged (lookup k m.tracks))
  unfolding frame end_frame begin_frame was_seen
  lookup-frame m rs t k h d =
      rw
        (
          lookup-age_tracks (observe_all fl (begin_frame m) rs t).seen_this_frame
              (observe_all fl (begin_frame m) rs t).tracks k
              (observe_all-Distinct rs (begin_frame m) t d),
          was_seen-observe_all rs (begin_frame m) t k h,
          was_seen-all_unseen m.tracks [] k refl,
          lookup-observe_all rs (begin_frame m) t k h,
        )
        (elim (Bool-cases (reported k rs)) [
          | inl seen ↦ rw seen
          | inr unseen ↦ rw (unseen, follow_unreported m.roi k t rs (lookup k m.tracks) unseen)
        ])
