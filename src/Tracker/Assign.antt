-- ===== src/Tracker/Assign.antt =====
-- iou_tracker.cc: what one round of the greedy matching keeps.
use khadas_yolov8n_multithre.Prelude.{
  ℕ, ◌≡◌, sym, subst, subst₂, ◌∙◌, true, false, none, some, List, length, length-set, get_elem?,
  set, get_elem?-set, get_elem?-set_self, lt-length_of_get, inl, inr,
}
use khadas_yolov8n_multithre.Prelude.Float.{Float32}
use khadas_yolov8n_multithre.Tracker.{TrackerDetection, Track, Matched, iou, iou_threshold}
use khadas_yolov8n_multithre.Tracker.RowScan.{SameClass}

module _ (fl : Float32) (dets : List TrackerDetection) (xs : List Track) where
  open fl use {F, lt}

  -- A detection and a track of one class that overlap more than the threshold.
  pub record Overlaps (d t : ℕ) : Type 0 where
    pub det : TrackerDetection
    pub track : Track
    pub at_d : get_elem? dets d ≡ some det
    pub at_t : get_elem? xs t ≡ some track
    pub same : SameClass det track
    pub above : lt (iou_threshold fl) (iou fl det track.det) ≡ true

  -- What holds of `det_to_track` and `track_used` after each round.
  pub record IsMatching (s : Matched) : Type 0 where
    pub size_d : length s.det_to_track ≡ length dets
    pub size_t : length s.track_used ≡ length xs
    pub pairs :
        (d t : ℕ)
        → get_elem? s.det_to_track d ≡ some (some t)
        → Overlaps d t × (get_elem? s.track_used t ≡ some true)
    pub injective :
        (d d' t : ℕ)
        → get_elem? s.det_to_track d ≡ some (some t)
        → get_elem? s.det_to_track d' ≡ some (some t)
        → d ≡ d'
    pub used :
        (t : ℕ)
        → get_elem? s.track_used t ≡ some true
        → (d : ℕ) × (get_elem? s.det_to_track d ≡ some (some t))

  abbrev pub assign : ℕ → ℕ → Matched → Matched
  assign d t s = record {
    det_to_track = set s.det_to_track d (some t);
    track_used = set s.track_used t true;
  }

  -- One round keeps it.
  pub assign-IsMatching :
      (s : Matched) (d t : ℕ)
      → IsMatching s
      → get_elem? s.det_to_track d ≡ some none
      → get_elem? s.track_used t ≡ some false
      → Overlaps d t
      → IsMatching (assign d t s)
  assign-IsMatching s d t m open_d free_t o = record {
    size_d = length-set s.det_to_track d (some t) ∙ m.size_d;
    size_t = length-set s.track_used t true ∙ m.size_t;
    pairs = pairs;
    injective = injective;
    used = used;
  }
    where
      now_used : get_elem? (set s.track_used t true) t ≡ some true
      now_used = get_elem?-set_self s.track_used t true (lt-length_of_get s.track_used t free_t)

      still_used :
          (t' : ℕ)
          → get_elem? s.track_used t' ≡ some true
          → get_elem? (set s.track_used t true) t' ≡ some true
      still_used t' u = elim (get_elem?-set s.track_used t t' true free_t) [
        | inl (e, h) ↦ h
        | inr (n, h) ↦ h ∙ u
      ]

      pairs :
          (d' t' : ℕ)
          → get_elem? (set s.det_to_track d (some t)) d' ≡ some (some t')
          → Overlaps d' t' × (get_elem? (set s.track_used t true) t' ≡ some true)
      pairs d' t' g = elim (get_elem?-set s.det_to_track d d' (some t) open_d) [
        | inl (e, h) ↦
            let same : t ≡ t' = cc (h, g) in
            (
              subst₂ Overlaps e same o,
              subst (λ n. get_elem? (set s.track_used t true) n ≡ some true) same now_used,
            )
        | inr (n, h) ↦ let (old, u) = m.pairs d' t' (sym h ∙ g) in (old, still_used t' u)
      ]

      -- The track was free, so no other detection had it.
      no_other : (d' : ℕ) → get_elem? s.det_to_track d' ≡ some (some t) → ⊥
      no_other d' g = cc ((m.pairs d' t g).1, free_t)

      injective :
          (d' d'' t' : ℕ)
          → get_elem? (set s.det_to_track d (some t)) d' ≡ some (some t')
          → get_elem? (set s.det_to_track d (some t)) d'' ≡ some (some t')
          → d' ≡ d''
      injective d' d'' t' g g' = elim (get_elem?-set s.det_to_track d d' (some t) open_d) [
        | inl (e, h) ↦ elim (get_elem?-set s.det_to_track d d'' (some t) open_d) [
          | inl (e', h') ↦ sym e ∙ e'
          | inr (n', h') ↦
              let same : t ≡ t' = cc (h, g) in
              absurd (
                no_other d'' (
                  subst (λ n. get_elem? s.det_to_track d'' ≡ some (some n)) (sym same)
                    (sym h' ∙ g')))
        ]
        | inr (n, h) ↦ elim (get_elem?-set s.det_to_track d d'' (some t) open_d) [
          | inl (e', h') ↦
              let same : t ≡ t' = cc (h', g') in
              absurd (
                no_other d'
                  (subst (λ n. get_elem? s.det_to_track d' ≡ some (some n)) (sym same) (sym h ∙ g)))
          | inr (n', h') ↦ m.injective d' d'' t' (sym h ∙ g) (sym h' ∙ g')
        ]
      ]

      now_at : get_elem? (set s.det_to_track d (some t)) d ≡ some (some t)
      now_at =
          get_elem?-set_self s.det_to_track d (some t) (lt-length_of_get s.det_to_track d open_d)

      used :
          (t' : ℕ)
          → get_elem? (set s.track_used t true) t' ≡ some true
          → (d' : ℕ) × (get_elem? (set s.det_to_track d (some t)) d' ≡ some (some t'))
      used t' u = elim (get_elem?-set s.track_used t t' true free_t) [
        | inl (e, h) ↦
            (d, subst (λ n. get_elem? (set s.det_to_track d (some t)) d ≡ some (some n)) e now_at)
        | inr (n, h) ↦
            let (d', g) = m.used t' (sym h ∙ u) in
            (
              d',
              elim (get_elem?-set s.det_to_track d d' (some t) open_d) [
                | inl (e, h') ↦
                    let g' : get_elem? s.det_to_track d ≡ some (some t') =
                      subst (λ n. get_elem? s.det_to_track n ≡ some (some t')) (sym e) g in
                    cc (g', open_d)
                | inr (n', h') ↦ h' ∙ g
              ],
            )
      ]
