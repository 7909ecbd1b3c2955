-- ===== src/Tracker/Greedy.antt =====
-- iou_tracker.cc: the matching is greedy: the highest pair that is left over is matched first.
use native.Mathlib.Decide.{ℕ_discrete}
use khadas_yolov8n_multithre.Prelude.{
  ℕ, ◌≡◌, subst, ◌∙◌, ◌⊎◌, true, false, none, some, List, get_elem?, get_elem?-set,
  get_elem?-set_ne, get_elem?-set_self, lt-length_of_get, inl, inr,
}
use khadas_yolov8n_multithre.Prelude.Float.{Float32}
use khadas_yolov8n_multithre.Tracker.{TrackerDetection, Track, Matched, iou}
use khadas_yolov8n_multithre.Tracker.RowScan.{SameClass, Free}
use khadas_yolov8n_multithre.Tracker.Scan.{Open}
use khadas_yolov8n_multithre.Tracker.Assign.{Overlaps, assign}

module _ (fl : Float32) (dets : List TrackerDetection) (xs : List Track) where
  open fl use {F, lt}

  -- A matched pair that shares the detection or the track, and does not overlap less than `v`.
  pub record Prior (s : Matched) (d t : ℕ) (v : F) : Type 0 where
    pub of_d : ℕ
    pub of_t : ℕ
    pub det : TrackerDetection
    pub track : Track
    pub given : get_elem? s.det_to_track of_d ≡ some (some of_t)
    pub shares : (of_d ≡ d) ⊎ (of_t ≡ t)
    pub at_d : get_elem? dets of_d ≡ some det
    pub at_t : get_elem? xs of_t ≡ some track
    pub first : lt (iou fl det track.det) v ≡ false

  -- Every detection and track of one class are both left over, or one was given away for an overlap
  -- that is not lower.
  abbrev pub IsGreedy : Matched → Type 0
  IsGreedy s =
      (d t : ℕ) (det : TrackerDetection) (x : Track)
      → get_elem? dets d ≡ some det
      → get_elem? xs t ≡ some x
      → SameClass det x
      → ((get_elem? s.det_to_track d ≡ some none) × (get_elem? s.track_used t ≡ some false))
        ⊎ Prior s d t (iou fl det x.det)

  -- No pair that is left over overlaps more than this one.
  abbrev pub IsHighest : Matched → (d t : ℕ) → Overlaps fl dets xs d t → Type 0
  IsHighest s d t o =
      (d' t' : ℕ) (det : TrackerDetection) (x : Track)
      → Open s.det_to_track dets d' det
      → Free s.track_used xs t' x
      → SameClass det x
      → lt (iou fl o.det o.track.det) (iou fl det x.det) ≡ false

  -- One round with the highest pair keeps it.
  pub assign-IsGreedy :
      (s : Matched) (d t : ℕ) (o : Overlaps fl dets xs d t)
      → get_elem? s.det_to_track d ≡ some none
      → get_elem? s.track_used t ≡ some false
      → IsHighest s d t o
      → IsGreedy s
      → IsGreedy (assign fl dets xs d t s)
  assign-IsGreedy s d t o open_d free_t highest g d' t' det x at_d at_t same =
      elim (g d' t' det x at_d at_t same) [
        | inr p ↦ inr (earlier p)
        | inl (open_d', free_t') ↦ elim (ℕ_discrete d d') [
          | yes e ↦ inr (now (inl e) open_d' free_t')
          | no n ↦ elim (ℕ_discrete t t') [
            | yes e ↦ inr (now (inr e) open_d' free_t')
            | no m ↦ inl (
              get_elem?-set_ne s.det_to_track (some t) n ∙ open_d',
              get_elem?-set_ne s.track_used true m ∙ free_t',
            )
          ]
        ]
      ]
    where
      now :
          (d ≡ d') ⊎ (t ≡ t')
          → get_elem? s.det_to_track d' ≡ some none
          → get_elem? s.track_used t' ≡ some false
          → Prior (assign fl dets xs d t s) d' t' (iou fl det x.det)
      now shares open_d' free_t' = record {
        of_d = d;
        of_t = t;
        det = o.det;
        track = o.track;
        given =
            get_elem?-set_self s.det_to_track d (some t) (lt-length_of_get s.det_to_track d open_d);
        shares = shares;
        at_d = o.at_d;
        at_t = o.at_t;
        first = highest d' t' det x (open_d', at_d) (free_t', at_t) same;
      }

      earlier :
          Prior s d' t' (iou fl det x.det)
          → Prior (assign fl dets xs d t s) d' t' (iou fl det x.det)
      earlier p = record {
        of_d = p.of_d;
        of_t = p.of_t;
        det = p.det;
        track = p.track;
        given = elim (get_elem?-set s.det_to_track d p.of_d (some t) open_d) [
          | inl (e, h) ↦
              absurd (cc (subst (λ n. get_elem? s.det_to_track n ≡ some none) e open_d, p.given))
          | inr (n, h) ↦ h ∙ p.given
        ];
        shares = p.shares;
        at_d = p.at_d;
        at_t = p.at_t;
        first = p.first;
      }
