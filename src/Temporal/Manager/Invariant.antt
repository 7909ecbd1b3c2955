-- ===== src/Temporal/Manager/Invariant.antt =====
-- track_manager.cc: what holds of the set of tracks after any frames, and how long a lost track is
-- kept.
use khadas_yolov8n_multithre.Prelude.{
  ℕ, suc, ◌+◌, ◌≤◌, ◌<◌, ◌≡◌, ◌≢◌, ◌∙◌, Bool, false, none, some, List, [], ◌∷◌, arith, tests, ltb,
  ◌==◌, inl, inr, Bool-cases, Option-cases, length,
}
use khadas_yolov8n_multithre.Prelude.Float.{Float32}
use khadas_yolov8n_multithre.Prelude.Maps.{lookup, insert, Fresh, Distinct}
use khadas_yolov8n_multithre.Wire.{WireTrackRecord}
use khadas_yolov8n_multithre.Temporal.State.{
  Roi, TrackState, update, mark_missed, new_track, status,
}
use khadas_yolov8n_multithre.Temporal.State.Counters.{update_identity}
use khadas_yolov8n_multithre.Temporal.Manager.{
  TrackManager, max_frames_lost, begin_frame, observation_of, age_tracks, end_frame, new_manager,
  find_or_new, observe, observe_all, frame,
}
use khadas_yolov8n_multithre.Temporal.Manager.Frame.{
  reported, aged, lookup-frame, observe_all-Distinct,
}

-- A track stands under its own id, which is not 0, and has not been missed too often.
abbrev pub IsKept : {F : Type 0} → ℕ → TrackState F → Type 0
IsKept k s = (k ≢ 0) × (s.track_id ≡ k) × (s.frames_missed ≤ max_frames_lost)

abbrev pub AllKept : {F : Type 0} → List (ℕ × TrackState F) → Type 0
AllKept [] = Unit {0}
AllKept ((k, s) ∷ m) = IsKept k s × AllKept m

pub record IsManaged {F : Type 0} (m : TrackManager F) : Type 0 where
  pub distinct : Distinct m.tracks
  pub kept : AllKept m.tracks

module _ {F : Type 0} where
  AllKept-lookup :
      (m : List (ℕ × TrackState F)) (k : ℕ) (s : TrackState F)
      → AllKept m
      → lookup k m ≡ some s
      → IsKept k s
  AllKept-lookup [] k s h e = cc
  AllKept-lookup ((j, u) ∷ m) k s h e = ground (arith, AllKept-lookup m k s h.1)

  AllKept-insert :
      (m : List (ℕ × TrackState F)) (k : ℕ) (s : TrackState F)
      → IsKept k s
      → AllKept m
      → AllKept (insert k s m)
  AllKept-insert [] k s v h = (v, tt)
  AllKept-insert ((j, u) ∷ m) k s v h = elim (Bool-cases (j == k)) [
    | inl same ↦ rw same (v, h.1)
    | inr other ↦ rw other (h.0, AllKept-insert m k s v h.1)
  ]

  age_tracks-Fresh :
      (seen : List (ℕ × Bool)) (m : List (ℕ × TrackState F)) (k : ℕ)
      → Fresh k m
      → Fresh k (age_tracks seen m)
  unfolding age_tracks
  age_tracks-Fresh seen [] k h = h
  age_tracks-Fresh seen ((j, s) ∷ m) k h = ground (arith, age_tracks-Fresh seen m k h.1)

  age_tracks-Distinct :
      (seen : List (ℕ × Bool)) (m : List (ℕ × TrackState F))
      → Distinct m
      → Distinct (age_tracks seen m)
  unfolding age_tracks
  age_tracks-Distinct seen [] h = h
  age_tracks-Distinct seen ((j, s) ∷ m) h =
      ground (arith, age_tracks-Distinct seen m h.1, age_tracks-Fresh seen m j h.0)

  age_tracks-AllKept :
      (seen : List (ℕ × Bool)) (m : List (ℕ × TrackState F))
      → AllKept m
      → AllKept (age_tracks seen m)
  unfolding age_tracks
  age_tracks-AllKept seen [] h = h
  age_tracks-AllKept seen ((j, s) ∷ m) h = ground (arith, age_tracks-AllKept seen m h.1)

  missed_once :
      (s : TrackState F)
      → s.frames_missed ≤ max_frames_lost
      → (mark_missed s).frames_missed ≡ s.frames_missed + 1
  unfolding mark_missed
  missed_once s h = omega arith

  lost_status : (s : TrackState F) → 0 < s.frames_missed → status s ≡ 2
  unfolding status
  lost_status s h = ground arith

module _ (fl : Float32) where
  open fl use {F}

  find_or_new_identity :
      (m : List (ℕ × TrackState F)) (r : WireTrackRecord) (t : ℕ)
      → AllKept m
      → (find_or_new fl r t (lookup r.track_id m)).track_id ≡ r.track_id
  unfolding find_or_new new_track
  find_or_new_identity m r t h = elim (Option-cases (lookup r.track_id m)) [
    | inl fresh ↦ rw (fresh, find_or_new)
    | inr (s, known) ↦ rw (known, find_or_new) (AllKept-lookup m r.track_id s h known).1
  ]

  observe-AllKept :
      (m : TrackManager F) (r : WireTrackRecord) (t : ℕ)
      → AllKept m.tracks
      → AllKept (observe fl m r t).tracks
  unfolding observe
  observe-AllKept m r t h = elim (Bool-cases (r.track_id == 0)) [
    | inl ignored ↦ rw ignored h
    | inr taken ↦ rw taken (AllKept-insert m.tracks r.track_id _ (kept taken) h)
  ]
    where
      old : TrackState F
      old = find_or_new fl r t (lookup r.track_id m.tracks)

      kept :
          (r.track_id == 0) ≡ false → IsKept r.track_id (update fl m.roi (observation_of r t) old)
      kept taken =
          let (same, none_missed) = update_identity fl m.roi (observation_of r t) old in
          (ground arith, same ∙ find_or_new_identity m.tracks r t h, omega arith)

  observe_all-AllKept :
      (rs : List WireTrackRecord) (m : TrackManager F) (t : ℕ)
      → AllKept m.tracks
      → AllKept (observe_all fl m rs t).tracks
  unfolding observe_all
  observe_all-AllKept [] m t h = h
  observe_all-AllKept (r ∷ rs) m t h =
      observe_all-AllKept rs (observe fl m r t) t (observe-AllKept m r t h)

  frame-IsManaged :
      (m : TrackManager F) (rs : List WireTrackRecord) (t : ℕ)
      → IsManaged m
      → IsManaged (frame fl m rs t).0
  unfolding frame begin_frame end_frame
  frame-IsManaged m rs t v = record {
    distinct = age_tracks-Distinct _ _ (observe_all-Distinct fl rs (begin_frame m) t v.distinct);
    kept = age_tracks-AllKept _ _ (observe_all-AllKept rs (begin_frame m) t v.kept);
  }

  -- A history of frames: the records and the time of each.
  unfoldable pub frames : TrackManager F → List (List WireTrackRecord × ℕ) → TrackManager F
  frames m [] = m
  frames m ((rs, t) ∷ fs) = frames (frame fl m rs t).0 fs

  frames_from-IsManaged :
      (m : TrackManager F) (fs : List (List WireTrackRecord × ℕ))
      → IsManaged m
      → IsManaged (frames m fs)
  unfolding frames
  frames_from-IsManaged m [] v = v
  frames_from-IsManaged m ((rs, t) ∷ fs) v =
      frames_from-IsManaged (frame fl m rs t).0 fs (frame-IsManaged m rs t v)

  -- After any history of frames from a new manager: no id is held twice or is 0, each track stands
  -- under its own id, and no track has been missed more than thirty times in a row.
  pub frames-IsManaged :
      (roi : Roi) (fs : List (List WireTrackRecord × ℕ))
      → IsManaged (frames (new_manager fl roi) fs)
  unfolding new_manager
  frames-IsManaged roi fs =
      frames_from-IsManaged (new_manager fl roi) fs (record { distinct = tt; kept = tt })

  -- No frame of a history reports the track.
  abbrev pub Unreported : ℕ → List (List WireTrackRecord × ℕ) → Type 0
  Unreported k [] = Unit {0}
  Unreported k ((rs, t) ∷ fs) = (reported k rs ≡ false) × Unreported k fs

  gone :
      (m : TrackManager F) (fs : List (List WireTrackRecord × ℕ)) (k : ℕ)
      → k ≢ 0
      → IsManaged m
      → Unreported k fs
      → lookup k m.tracks ≡ none
      → lookup k (frames m fs).tracks ≡ none
  unfolding frames
  gone m [] k n v u e = e
  gone m ((rs, t) ∷ fs) k n v u e =
      gone (frame fl m rs t).0 fs k n (frame-IsManaged m rs t v) u.1
        (lookup-frame fl m rs t k n v.distinct ∙ rw (u.0, e))

  -- A track that stays unreported is kept, as lost, while its misses in a row are at most thirty,
  -- and is gone from the first frame that makes them thirty-one.
  pub lookup-frames-Unreported :
      (m : TrackManager F) (fs : List (List WireTrackRecord × ℕ)) (k : ℕ) (s : TrackState F)
      → IsManaged m
      → Unreported k fs
      → lookup k m.tracks ≡ some s
      → (s.frames_missed + length fs ≤ max_frames_lost
          → (s' : TrackState F) × (lookup k (frames m fs).tracks ≡ some s')
            × (s'.frames_missed ≡ s.frames_missed + length fs)
            × (0 < length fs → status s' ≡ 2))
        × (max_frames_lost < s.frames_missed + length fs → lookup k (frames m fs).tracks ≡ none)
  unfolding frames
  lookup-frames-Unreported m [] k s v u e =
      let kept = AllKept-lookup m.tracks k s v.kept e in
      ((λ h. (s, e, omega arith, λ p. absurd (omega arith))), λ h. absurd (omega arith))
  lookup-frames-Unreported m ((rs, t) ∷ fs) k s v u e =
      let kept = AllKept-lookup m.tracks k s v.kept e in
      let next : lookup k (frame fl m rs t).0.tracks ≡ aged (some s) =
        lookup-frame fl m rs t k kept.0 v.distinct ∙ rw (u.0, e) in
      elim (Bool-cases (ltb max_frames_lost (mark_missed s).frames_missed)) [
        | inl dropped ↦ (
          (λ h. absurd (omega (tests, dropped, missed_once s kept.2))),
          λ h.
              gone (frame fl m rs t).0 fs k kept.0 (frame-IsManaged m rs t v) u.1
                (next ∙ rw (dropped, aged)),
        )
        | inr stays ↦
            let ih =
              lookup-frames-Unreported (frame fl m rs t).0 fs k (mark_missed s)
                (frame-IsManaged m rs t v) u.1 (next ∙ rw (stays, aged)) in
            (
              (λ h.
                  let (s', e', count, lost) = ih.0 (omega (arith, missed_once s kept.2)) in
                  let count' : s'.frames_missed ≡ s.frames_missed + suc (length fs) =
                    omega (arith, missed_once s kept.2) in
                  (s', e', count', λ p. lost_status s' (omega arith))),
              λ h. ih.1 (omega (arith, missed_once s kept.2)),
            )
      ]
