-- ===== src/Tracker/Matching.antt =====
-- iou_tracker.cc: the greedy matching ends, and what it has matched.
use khadas_yolov8n_multithre.Prelude.{
  ℕ, zero, suc, ◌+◌, ◌<◌, ◌≡◌, refl, ap, subst, ◌⊎◌, true, false, Option, none, some, List, [], ◌∷◌,
  arith, length, length-replicate, get_elem?-replicate, replicate, get_elem?, set, lt-length_of_get,
  inl, inr,
}
use khadas_yolov8n_multithre.Prelude.Float.{Float32}
use khadas_yolov8n_multithre.Tracker.{
  TrackerDetection, Track, Best, Matched, iou, iou_threshold, scan_dets, match_loop, match_frame,
}
use khadas_yolov8n_multithre.Tracker.RowScan.{SameClass, Free, Taken}
use khadas_yolov8n_multithre.Tracker.Scan.{Open, Round, scan_dets-Round}
use khadas_yolov8n_multithre.Tracker.Assign.{Overlaps, IsMatching, assign, assign-IsMatching}
use khadas_yolov8n_multithre.Tracker.Greedy.{IsGreedy, IsHighest, assign-IsGreedy}

replicated {ℓ} : {A : Type ℓ} {a : A} (n i : ℕ) → i < n → get_elem? (replicate n a) i ≡ some a
replicated zero i h = absurd (omega arith)
replicated (suc n) zero h = refl
replicated (suc n) (suc i) h = replicated n i (omega arith)

module _ (fl : Float32) (dets : List TrackerDetection) (xs : List Track) where
  open fl use {F, lt}

  -- How many detections are not matched.
  abbrev count_open : List (Option ℕ) → ℕ
  count_open [] = 0
  count_open (none ∷ ms) = suc (count_open ms)
  count_open (some t ∷ ms) = count_open ms

  count_open-set :
      (ms : List (Option ℕ)) (d t : ℕ)
      → get_elem? ms d ≡ some none
      → suc (count_open (set ms d (some t))) ≡ count_open ms
  count_open-set [] d t h = absurd (cc h)
  count_open-set (none ∷ ms) zero t h = refl
  count_open-set (some m ∷ ms) zero t h = absurd (cc h)
  count_open-set (none ∷ ms) (suc d) t h = ap suc (count_open-set ms d t h)
  count_open-set (some m ∷ ms) (suc d) t h = count_open-set ms d t h

  -- No pair that could still be matched overlaps more than the threshold.
  abbrev pub IsMaximal : Matched → Type 0
  IsMaximal s =
      (d t : ℕ) (det : TrackerDetection) (x : Track)
      → Open s.det_to_track dets d det
      → Free s.track_used xs t x
      → SameClass det x
      → lt (iou_threshold fl) (iou fl det x.det) ≡ false

  abbrev start : Best F
  start = record { best_iou = iou_threshold fl; pair = none }

  -- The cases of a round: the loop ends with nothing to match, or assigns an overlapping pair.
  round_cases :
      (s : Matched)
      → let r = scan_dets fl 0 s.det_to_track dets s.track_used xs start in
        ((r.pair ≡ none) × IsMaximal s)
        ⊎ ((d : ℕ) × (t : ℕ) × (r.pair ≡ some (d, t))
            × (get_elem? s.det_to_track d ≡ some none)
            × (get_elem? s.track_used t ≡ some false)
            × (o : Overlaps fl dets xs d t) × IsHighest fl dets xs s d t o)
  round_cases s = elim found.source [
    | inl e ↦ inl (
      ap (λ b. b.pair) e,
      λ d t det x o f same.
          subst (λ b. lt b.best_iou (iou fl det x.det) ≡ false) e (found.beaten d t det x o f same),
    )
    | inr (d, t, det, x, o, f, taken) ↦ inr (
      d,
      t,
      pair_of d t det x taken,
      o.0,
      f.0,
      record {
        det = det;
        track = x;
        at_d = o.1;
        at_t = f.1;
        same = taken.same;
        above = subst (λ v. lt (iou_threshold fl) v ≡ true) taken.score (higher d t det x taken);
      },
      λ d' t' det' x' o' f' same'.
          subst (λ v. lt v (iou fl det' x'.det) ≡ false) taken.score
            (found.beaten d' t' det' x' o' f' same'),
    )
  ]
    where
      r : Best F
      r = scan_dets fl 0 s.det_to_track dets s.track_used xs start

      found : Round fl 0 s.det_to_track dets s.track_used xs start r
      found = scan_dets-Round fl 0 s.det_to_track dets s.track_used xs start

      pair_of :
          (d t : ℕ) (det : TrackerDetection) (x : Track)
          → Taken fl (0 + d) det t x r
          → r.pair ≡ some (d, t)
      pair_of d t det x taken = subst (λ n. r.pair ≡ some (n, t)) (omega arith) taken.pair

      higher :
          (d t : ℕ) (det : TrackerDetection) (x : Track)
          → Taken fl (0 + d) det t x r
          → lt (iou_threshold fl) r.best_iou ≡ true
      higher d t det x taken = elim found.grows [ inl e ↦ absurd (cc taken.pair) | inr h ↦ h ]

  match_loop-IsMatching :
      (fuel : ℕ) (s : Matched)
      → IsMatching fl dets xs s
      → IsGreedy fl dets xs s
      → count_open s.det_to_track < fuel
      → (s' : Matched) × (match_loop fl fuel dets xs s ≡ some s')
        × IsMatching fl dets xs s'
        × IsMaximal s'
        × IsGreedy fl dets xs s'
  unfolding match_loop
  match_loop-IsMatching zero s m g h = absurd (omega arith)
  match_loop-IsMatching (suc fuel) s m g h = elim (round_cases s) [
    | inl (e, maximal) ↦ (s, rw (e, match_loop), m, maximal, g)
    | inr (d, t, e, o, f, over, highest) ↦
        let (s', e', m', x', g') =
          match_loop-IsMatching fuel (assign fl dets xs d t s)
            (assign-IsMatching fl dets xs s d t m o f over)
            (assign-IsGreedy fl dets xs s d t over o f highest g)
            (omega (arith, count_open-set s.det_to_track d t o)) in
        (s', rw (e, match_loop, e'), m', x', g')
  ]

  count_open-replicate : (n : ℕ) → count_open (replicate n none) ≡ n
  count_open-replicate zero = refl
  count_open-replicate (suc n) = ap suc (count_open-replicate n)

  -- Before the first round nothing is matched.
  start-IsMatching : IsMatching fl dets xs (record {
    det_to_track = replicate (length dets) none;
    track_used = replicate (length xs) false;
  })
  start-IsMatching = record {
    size_d = length-replicate (length dets) none;
    size_t = length-replicate (length xs) false;
    pairs = λ d t g. absurd (cc (get_elem?-replicate (length dets) d g));
    injective = λ d d' t g. absurd (cc (get_elem?-replicate (length dets) d g));
    used = λ t u. absurd (cc (get_elem?-replicate (length xs) t u));
  }

  start-IsGreedy : IsGreedy fl dets xs (record {
    det_to_track = replicate (length dets) none;
    track_used = replicate (length xs) false;
  })
  start-IsGreedy d t det x at_d at_t same = inl (
    replicated (length dets) d (lt-length_of_get dets d at_d),
    replicated (length xs) t (lt-length_of_get xs t at_t),
  )

  -- The greedy matching of a frame always ends. It gives each detection at most one track and each
  -- track to at most one detection; `track_used` marks exactly the tracks given; a matched pair has
  -- one class and overlaps more than the threshold; no detection and track of one class that are
  -- both left over do; and of a detection and a track of one class that are not both left over, one
  -- is matched in a pair that does not overlap less than these two.
  pub match_frame-IsMatching :
      (s : Matched) × (match_frame fl dets xs ≡ some s)
      × IsMatching fl dets xs s
      × IsMaximal s
      × IsGreedy fl dets xs s
  unfolding match_frame
  match_frame-IsMatching =
      match_loop-IsMatching (length dets + 1) _ start-IsMatching start-IsGreedy
        (omega (arith, count_open-replicate (length dets)))
