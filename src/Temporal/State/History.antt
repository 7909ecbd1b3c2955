-- ===== src/Temporal/State/History.antt =====
-- track_state.cc: the ring of recent observations.
use khadas_yolov8n_multithre.Prelude.{
  ℕ, suc, ◌+◌, ◌-◌, ◌≤◌, ◌<◌, ◌≡◌, refl, sym, ap, List, [], ◌∷◌, ◌++◌, arith, tests, ltb, length,
  length-append, drop, length-drop, inl, inr, ◌∙◌, Bool-cases, append_assoc, drop_first,
  drop_first-drop, append-nil, drop-append, drop-nil,
}
use khadas_yolov8n_multithre.Prelude.Float.{Float32}
use khadas_yolov8n_multithre.Temporal.State.{
  Observation, Roi, TrackState, history_max, remember, new_track, mark_missed, update,
}
use khadas_yolov8n_multithre.Temporal.State.Counters.{Event, seen, missed, observe_event, replay}

-- The observations of a life of frames, oldest first.
abbrev pub observations : List Event → List Observation
observations [] = []
observations (seen o ∷ es) = o ∷ observations es
observations (missed ∷ es) = observations es

abbrev last_of : List Observation → List Observation
last_of xs = drop (length xs - history_max) xs

drop_first-append :
    (xs ys : List Observation) → 0 < length xs → drop_first (xs ++ ys) ≡ drop_first xs ++ ys
drop_first-append [] ys h = absurd (omega arith)
drop_first-append (x ∷ xs) ys h = refl

remember-last_of :
    (xs : List Observation) (o : Observation) → remember (last_of xs) o ≡ last_of (xs ++ (o ∷ []))
unfolding remember
remember-last_of xs o = elim (Bool-cases (ltb history_max (length (last_of xs ++ (o ∷ []))))) [
  | inl full ↦
      let grown : length (xs ++ (o ∷ [])) - history_max ≡ suc (length xs - history_max) =
        omega (tests, full, sizes) in
      let many : suc (length xs - history_max) ≤ length xs = omega (tests, full, sizes) in
      rw
        (
          full,
          grown,
          drop-append (suc (length xs - history_max)) xs (o ∷ []) many,
          ← drop_first-drop (length xs - history_max) xs,
        )
        (drop_first-append (last_of xs) (o ∷ []) (omega (tests, full, sizes)))
  | inr room ↦
      let before : length xs - history_max ≡ 0 = omega (tests, room, sizes) in
      let grown : length (xs ++ (o ∷ [])) - history_max ≡ 0 = omega (tests, room, sizes) in
      rw (room, before, grown)
]
  where
    sizes :
        (length (xs ++ (o ∷ [])) ≡ length xs + 1)
        × (length (last_of xs ++ (o ∷ [])) ≡ length xs - (length xs - history_max) + 1)
        × (length (last_of xs) ≡ length xs - (length xs - history_max))
    sizes = (
      length-append xs (o ∷ []),
      omega (arith, length-append (last_of xs) (o ∷ []), length-drop (length xs - history_max) xs),
      length-drop (length xs - history_max) xs,
    )

module _ (fl : Float32) (roi : Roi) where
  open fl use {F}

  replay-history :
      (es : List Event) (s : TrackState F) (xs : List Observation)
      → s.history ≡ last_of xs
      → (replay fl roi s es).history ≡ last_of (xs ++ observations es)
  unfolding replay observe_event mark_missed update
  replay-history [] s xs e = rw append-nil e
  replay-history (seen o ∷ es) s xs e =
      let added : (update fl roi o s).history ≡ last_of (xs ++ (o ∷ [])) =
        ap (λ h. remember h o) e ∙ remember-last_of xs o in
      rw (← append_assoc xs (o ∷ []) (observations es))
        (replay-history es (update fl roi o s) (xs ++ (o ∷ [])) added)
  replay-history (missed ∷ es) s xs e = replay-history es (mark_missed s) xs e

  -- The history of a new track holds the last sixteen of its observations, in order, whatever
  -- frames missed it in between.
  pub history-replay :
      (id : ℕ) (name : List ℕ) (t : ℕ) (es : List Event)
      → (replay fl roi (new_track fl id name t) es).history
        ≡ drop (length (observations es) - history_max) (observations es)
  unfolding new_track
  history-replay id name t es =
      replay-history es (new_track fl id name t) [] (sym (drop-nil (0 - history_max)))
