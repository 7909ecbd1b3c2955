-- ===== src/Temporal/State/Loiter.antt =====
-- track_state.cc: the range of the loiter score.
use khadas_yolov8n_multithre.Prelude.{
  ℕ, ◌-◌, ◌≡◌, refl, sym, ap, subst, ◌∙◌, drop, true, List, [], ◌∷◌, leb, if◌then◌else◌, length,
  inl, inr, Bool-cases,
}
use khadas_yolov8n_multithre.Prelude.Float.{Float32}
use khadas_yolov8n_multithre.Temporal.State.{
  Observation, Roi, TrackState, new_track, mark_missed, update, clamp_unit, loiter_of, history_max,
}
use khadas_yolov8n_multithre.Temporal.State.History.{observations, history-replay}
use khadas_yolov8n_multithre.Temporal.State.Counters.{Event, seen, missed, observe_event, replay}

module _ (fl : Float32) where
  open fl use {F, lit, lt, le, lt_le, lt_numbers, zero_lt_one}

  -- From 0 to 1, and so no NaN.
  pub record IsUnit (x : F) : Type 0 where
    pub from_zero : le (lit 0 1) x ≡ true
    pub to_one : le x (lit 1 1) ≡ true

  IsUnit-zero : IsUnit (lit 0 1)
  IsUnit-zero = record {
    from_zero = (lt_numbers _ _ zero_lt_one).0;
    to_one = lt_le _ _ zero_lt_one;
  }

  clamp_top : (x : F) → le (if lt x (lit 1 1) then x else lit 1 1) (lit 1 1) ≡ true
  clamp_top x = elim (Bool-cases (lt x (lit 1 1))) [
    | inl below ↦ rw below (lt_le x (lit 1 1) below)
    | inr above ↦ rw above (lt_numbers _ _ zero_lt_one).1
  ]

  clamp_unit-IsUnit : (x : F) → IsUnit (clamp_unit fl x)
  unfolding clamp_unit
  clamp_unit-IsUnit x =
      let m : F = if lt x (lit 1 1) then x else lit 1 1 in
      elim (Bool-cases (lt (lit 0 1) m)) [
        | inl positive ↦
            rw positive (record { from_zero = lt_le _ _ positive; to_one = clamp_top x })
        | inr low ↦ rw low IsUnit-zero
      ]

  loiter_of-IsUnit : (h : List Observation) → IsUnit (loiter_of fl h)
  unfolding loiter_of
  loiter_of-IsUnit [] = IsUnit-zero
  loiter_of-IsUnit (h ∷ hs) = elim (Bool-cases (leb 4 (length (h ∷ hs)))) [
    | inl many ↦ rw many (clamp_unit-IsUnit _)
    | inr few ↦ rw few IsUnit-zero
  ]

  -- The score is that of the history.
  observe_event-loiter_of :
      (roi : Roi) (s : TrackState F) (e : Event)
      → s.loiter_score ≡ loiter_of fl s.history
      → (observe_event fl roi s e).loiter_score ≡ loiter_of fl (observe_event fl roi s e).history
  unfolding observe_event update mark_missed
  observe_event-loiter_of roi s (seen o) h = refl
  observe_event-loiter_of roi s missed h = h

  replay-loiter_of :
      (roi : Roi) (es : List Event) (s : TrackState F)
      → s.loiter_score ≡ loiter_of fl s.history
      → (replay fl roi s es).loiter_score ≡ loiter_of fl (replay fl roi s es).history
  unfolding replay
  replay-loiter_of roi [] s h = h
  replay-loiter_of roi (e ∷ es) s h = replay-loiter_of roi es _ (observe_event-loiter_of roi s e h)

  -- After any life of frames the loiter score of a track is that of its last sixteen observations,
  -- whatever frames missed it since, and it is at least 0 and at most 1, and so no NaN, whatever the
  -- arithmetic gives.
  pub loiter_score-IsUnit :
      (roi : Roi) (id : ℕ) (name : List ℕ) (t : ℕ) (es : List Event)
      → let score = (replay fl roi (new_track fl id name t) es).loiter_score in
        let window = drop (length (observations es) - history_max) (observations es) in
        (score ≡ loiter_of fl window) × IsUnit score
  unfolding new_track loiter_of
  loiter_score-IsUnit roi id name t es =
      let e =
        replay-loiter_of roi es (new_track fl id name t) refl
        ∙ ap (loiter_of fl) (history-replay fl roi id name t es) in
      (
        e,
        subst IsUnit (sym e)
            (loiter_of-IsUnit (drop (length (observations es) - history_max) (observations es))),
      )
