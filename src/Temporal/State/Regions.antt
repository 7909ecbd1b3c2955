-- ===== src/Temporal/State/Regions.antt =====
-- track_state.cc: entering and leaving the region of interest.
use khadas_yolov8n_multithre.Prelude.{
  ℕ, ◌+◌, ◌≡◌, refl, ap, Bool, true, false, not, ◌&&◌, List, [], ◌∷◌, arith, if◌then◌else◌, ◌≤◌,
}
use khadas_yolov8n_multithre.Prelude.Float.{Float32}
use khadas_yolov8n_multithre.Temporal.State.{
  Roi, TrackState, contains, new_track, mark_missed, update,
}
use khadas_yolov8n_multithre.Temporal.State.Counters.{Event, seen, missed, observe_event, replay}

abbrev count_bool : Bool → ℕ
count_bool true = 1
count_bool false = 0

-- Where the track was last seen, as its observations say.
abbrev pub inside : Roi → Bool → List Event → Bool
inside roi b [] = b
inside roi b (seen o ∷ es) = inside roi (contains roi o.cx o.cy) es
inside roi b (missed ∷ es) = inside roi b es

crossing :
    (a b : Bool)
    → (count_bool (b && not a) + count_bool a ≡ count_bool (not b && a) + count_bool b)
      × (count_bool (b && not a) + count_bool (not b && a) ≤ 1)
crossing a b = ground arith

never_both : (a b : Bool) → count_bool a + count_bool b ≤ 1 → a && b ≡ false
never_both a b h = ground arith

count_bool-if : (b : Bool) → count_bool b ≡ (if b then 1 else 0)
count_bool-if true = refl
count_bool-if false = refl

module _ (fl : Float32) (roi : Roi) where
  open fl use {F}

  -- How many frames of a life of events report an entry, and how many an exit.
  pub entries : TrackState F → List Event → ℕ
  entries s [] = 0
  entries s (e ∷ es) =
      let s' = observe_event fl roi s e in count_bool s'.roi_entered + entries s' es

  pub exits : TrackState F → List Event → ℕ
  exits s [] = 0
  exits s (e ∷ es) = let s' = observe_event fl roi s e in count_bool s'.roi_exited + exits s' es

  -- One frame: an entry and an exit balance the change of side, and never fall on one frame.
  balance :
      (s : TrackState F) (e : Event)
      → let s' = observe_event fl roi s e in
        (count_bool s'.roi_entered + count_bool s.in_roi
          ≡ count_bool s'.roi_exited + count_bool s'.in_roi)
        × (count_bool s'.roi_entered + count_bool s'.roi_exited ≤ 1)
  unfolding observe_event mark_missed update
  balance s (seen o) = crossing s.in_roi (contains roi o.cx o.cy)
  balance s missed = (refl, omega arith)

  in_roi-replay :
      (es : List Event) (s : TrackState F) → (replay fl roi s es).in_roi ≡ inside roi s.in_roi es
  unfolding replay observe_event mark_missed update
  in_roi-replay [] s = refl
  in_roi-replay (seen o ∷ es) s = in_roi-replay es (update fl roi o s)
  in_roi-replay (missed ∷ es) s = in_roi-replay es (mark_missed s)

  entries-exits :
      (es : List Event) (s : TrackState F)
      → entries s es + count_bool s.in_roi ≡ exits s es + count_bool (replay fl roi s es).in_roi
  unfolding entries exits replay
  entries-exits [] s = refl
  entries-exits (e ∷ es) s = omega (arith, balance s e, entries-exits es (observe_event fl roi s e))

  -- Over any life of a new track, the entry events outnumber the exit events by one while its last
  -- observation lies in the region, and are as many as the exits otherwise. No frame reports both.
  pub entries-new_track :
      (id : ℕ) (name : List ℕ) (t : ℕ) (es : List Event) (e : Event)
      → let s = new_track fl id name t in
        (entries s es ≡ exits s es + (if inside roi false es then 1 else 0))
        × (let s' = observe_event fl roi (replay fl roi s es) e in
            s'.roi_entered && s'.roi_exited ≡ false)
  unfolding new_track
  entries-new_track id name t es e = (
    omega (
      arith,
      entries-exits es (new_track fl id name t),
      ap count_bool (in_roi-replay es (new_track fl id name t)),
      count_bool-if (inside roi false es),
    ),
    never_both _ _ (balance (replay fl roi (new_track fl id name t) es) e).1,
  )
