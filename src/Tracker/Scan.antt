-- ===== src/Tracker/Scan.antt =====
-- iou_tracker.cc: one round of the greedy matching finds a best pair.
use khadas_yolov8n_multithre.Prelude.{
  ℕ, zero, suc, ◌+◌, ◌≡◌, refl, sym, subst, subst₂, ◌∙◌, ◌⊎◌, Bool, false, Option, none, some, List,
  [], ◌∷◌, arith, get_elem?, inl, inr,
}
use khadas_yolov8n_multithre.Prelude.Float.{Float32}
use khadas_yolov8n_multithre.Tracker.{TrackerDetection, Track, Best, iou, scan_tracks, scan_dets}
use khadas_yolov8n_multithre.Tracker.RowScan.{
  SameClass, Free, Grows, Grows-trans, Grows-beaten, Taken, Scanned, scan_tracks-Scanned,
}

-- A detection at position `j` that is not matched.
abbrev pub Open : List (Option ℕ) → List TrackerDetection → ℕ → TrackerDetection → Type 0
Open ms dets j det = (get_elem? ms j ≡ some none) × (get_elem? dets j ≡ some det)

module _ (fl : Float32) where
  open fl use {F, lt}

  -- The whole round: it keeps what it was given, or takes an open detection and a free track of one
  -- class; and no such pair has a higher score than its result.
  pub record Round (d : ℕ) (ms : List (Option ℕ)) (dets : List TrackerDetection) (us : List Bool)
      (xs : List Track) (best r : Best F) : Type 0 where
    pub grows : Grows fl best r
    pub source :
        (r ≡ best)
        ⊎ ((j : ℕ) × (i : ℕ) × (det : TrackerDetection) × (x : Track) × Open ms dets j det
            × Free us xs i x
            × Taken fl (d + j) det i x r)
    pub beaten :
        (j i : ℕ) (det : TrackerDetection) (x : Track)
        → Open ms dets j det
        → Free us xs i x
        → SameClass det x
        → lt r.best_iou (iou fl det x.det) ≡ false

  shift_det :
      (d j i : ℕ) (det : TrackerDetection) (x : Track) (r : Best F)
      → Taken fl (d + 1 + j) det i x r
      → Taken fl (d + suc j) det i x r
  shift_det d j i det x r = subst (λ n. Taken fl n det i x r) (omega arith)

  module _ (d : ℕ) (ms : List (Option ℕ)) (det : TrackerDetection) (dets : List TrackerDetection)
      (us : List Bool) (xs : List Track) (best r : Best F) where
    Round-matched :
        (t : ℕ)
        → Round (d + 1) ms dets us xs best r
        → Round d (some t ∷ ms) (det ∷ dets) us xs best r
    Round-matched t later = record {
      grows = later.grows;
      source = elim later.source [
        | inl e ↦ inl e
        | inr (j, i, det', x, o, f, taken) ↦
            inr (suc j, i, det', x, o, f, shift_det d j i det' x r taken)
      ];
      beaten = beaten;
    }
      where
        beaten :
            (j i : ℕ) (det' : TrackerDetection) (x : Track)
            → Open (some t ∷ ms) (det ∷ dets) j det'
            → Free us xs i x
            → SameClass det' x
            → lt r.best_iou (iou fl det' x.det) ≡ false
        beaten zero i det' x o f same = absurd (cc o.0)
        beaten (suc j) i det' x o f same = later.beaten j i det' x o f same

    Round-open :
        (mid : Best F)
        → Scanned fl d det 0 us xs best mid
        → Round (d + 1) ms dets us xs mid r
        → Round d (none ∷ ms) (det ∷ dets) us xs best r
    Round-open mid now later = record {
      grows = Grows-trans fl best mid r now.grows later.grows;
      source = elim later.source [
        | inl e ↦ elim now.source [
          | inl kept ↦ inl (e ∙ kept)
          | inr (i, x, f, taken) ↦ inr (
            0,
            i,
            det,
            x,
            (refl, refl),
            f,
            subst₂ (λ m n. Taken fl m det n x r) (omega arith) (omega arith)
                (subst (Taken fl d det (0 + i) x) (sym e) taken),
          )
        ]
        | inr (j, i, det', x, o, f, taken) ↦
            inr (suc j, i, det', x, o, f, shift_det d j i det' x r taken)
      ];
      beaten = beaten;
    }
      where
        beaten :
            (j i : ℕ) (det' : TrackerDetection) (x : Track)
            → Open (none ∷ ms) (det ∷ dets) j det'
            → Free us xs i x
            → SameClass det' x
            → lt r.best_iou (iou fl det' x.det) ≡ false
        beaten zero i det' x o f same =
            let e : det ≡ det' = cc o.1 in
            Grows-beaten fl mid r (iou fl det' x.det) later.grows (
              subst (λ z. lt mid.best_iou (iou fl z x.det) ≡ false) e
                (now.beaten i x f (subst (λ z. SameClass z x) (sym e) same)))
        beaten (suc j) i det' x o f same = later.beaten j i det' x o f same

  pub scan_dets-Round :
      (d : ℕ) (ms : List (Option ℕ)) (dets : List TrackerDetection) (us : List Bool)
      (xs : List Track) (best : Best F)
      → Round d ms dets us xs best (scan_dets fl d ms dets us xs best)
  unfolding scan_dets
  scan_dets-Round d [] dets us xs best = record {
    grows = inl refl;
    source = inl refl;
    beaten = λ j i det x o. absurd (cc o.0);
  }
  scan_dets-Round d (m ∷ ms) [] us xs best = record {
    grows = inl refl;
    source = inl refl;
    beaten = λ j i det x o. absurd (cc o.1);
  }
  scan_dets-Round d (some t ∷ ms) (det ∷ dets) us xs best =
      Round-matched d ms det dets us xs best _ t (scan_dets-Round (d + 1) ms dets us xs best)
  scan_dets-Round d (none ∷ ms) (det ∷ dets) us xs best =
      Round-open d ms det dets us xs best _ (scan_tracks fl d det 0 us xs best)
        (scan_tracks-Scanned fl d det 0 us xs best)
        (scan_dets-Round (d + 1) ms dets us xs (scan_tracks fl d det 0 us xs best))
