-- ===== src/Tracker/RowScan.antt =====
-- iou_tracker.cc: the inner loop of a matching round, one detection against all tracks.
use khadas_yolov8n_multithre.Prelude.{
  ℕ, zero, suc, ◌+◌, ◌≡◌, refl, sym, subst, ◌∙◌, ◌⊎◌, Bool, true, false, some, List, [], ◌∷◌, arith,
  get_elem?, inl, inr, Bool-cases,
}
use khadas_yolov8n_multithre.Prelude.Float.{Float32}
use khadas_yolov8n_multithre.Tracker.{
  TrackerDetection, Track, Best, same_name, iou, consider, scan_tracks,
}

abbrev pub SameClass : TrackerDetection → Track → Type 0
SameClass det x = same_name 16 det.class_name x.det.class_name ≡ true

-- A free track at position `i`.
abbrev pub Free : List Bool → List Track → ℕ → Track → Type 0
Free us xs i x = (get_elem? us i ≡ some false) × (get_elem? xs i ≡ some x)

module _ (fl : Float32) where
  open fl use {F, lt, lt_irrefl, lt_trans}

  -- The result is the old best, or has a higher score.
  abbrev pub Grows : Best F → Best F → Type 0
  Grows a b = (b ≡ a) ⊎ (lt a.best_iou b.best_iou ≡ true)

  pub Grows-trans : (a b c : Best F) → Grows a b → Grows b c → Grows a c
  Grows-trans a b c (inl e) (inl e') = inl (e' ∙ e)
  Grows-trans a b c (inl e) (inr h) = inr (subst (λ z. lt z.best_iou c.best_iou ≡ true) e h)
  Grows-trans a b c (inr h) (inl e) = inr (subst (λ z. lt a.best_iou z.best_iou ≡ true) (sym e) h)
  Grows-trans a b c (inr h) (inr h') = inr (lt_trans _ _ _ h h')

  -- What did not beat the old best does not beat the new one.
  pub Grows-beaten :
      (a b : Best F) (v : F) → Grows a b → lt a.best_iou v ≡ false → lt b.best_iou v ≡ false
  Grows-beaten a b v (inl e) h = subst (λ z. lt z.best_iou v ≡ false) (sym e) h
  Grows-beaten a b v (inr g) h = elim (Bool-cases (lt b.best_iou v)) [
    | inl back ↦ absurd (cc (lt_trans _ _ _ g back, h))
    | inr beaten ↦ beaten
  ]

  -- `consider` takes the pair exactly when it has the class and a higher score.
  consider-Grows :
      (d : ℕ) (det : TrackerDetection) (t : ℕ) (x : Track) (best : Best F)
      → Grows best (consider fl d det t x best)
  unfolding consider
  consider-Grows d det t x best = elim (Bool-cases (same_name 16 det.class_name x.det.class_name)) [
    | inr other ↦ rw other (inl refl)
    | inl same ↦ elim (Bool-cases (lt best.best_iou (iou fl det x.det))) [
      | inl higher ↦ rw (same, higher) (inr higher)
      | inr lower ↦ rw (same, lower) (inl refl)
    ]
  ]

  consider-beaten :
      (d : ℕ) (det : TrackerDetection) (t : ℕ) (x : Track) (best : Best F)
      → SameClass det x
      → lt (consider fl d det t x best).best_iou (iou fl det x.det) ≡ false
  unfolding consider
  consider-beaten d det t x best same = elim (Bool-cases (lt best.best_iou (iou fl det x.det))) [
    | inl higher ↦ rw (same, higher) (lt_irrefl (iou fl det x.det))
    | inr lower ↦ rw (same, lower) lower
  ]

  -- Where a round got its best pair from.
  pub record Taken (d : ℕ) (det : TrackerDetection) (t : ℕ) (x : Track) (r : Best F) : Type 0 where
    pub same : SameClass det x
    pub score : r.best_iou ≡ iou fl det x.det
    pub pair : r.pair ≡ some (d, t)

  consider-Taken :
      (d : ℕ) (det : TrackerDetection) (t : ℕ) (x : Track) (best : Best F)
      → (consider fl d det t x best ≡ best) ⊎ Taken d det t x (consider fl d det t x best)
  unfolding consider
  consider-Taken d det t x best = elim (Bool-cases (same_name 16 det.class_name x.det.class_name)) [
    | inr other ↦ rw other (inl refl)
    | inl same ↦ elim (Bool-cases (lt best.best_iou (iou fl det x.det))) [
      | inl higher ↦ rw (same, higher) (inr (record { same = same; score = refl; pair = refl }))
      | inr lower ↦ rw (same, lower) (inl refl)
    ]
  ]

  -- The round over the tracks: where its result comes from, and that no free track beats it.
  pub record Scanned (d : ℕ) (det : TrackerDetection) (t : ℕ) (us : List Bool) (xs : List Track)
      (best r : Best F) : Type 0 where
    pub grows : Grows best r
    pub source : (r ≡ best) ⊎ ((i : ℕ) × (x : Track) × Free us xs i x × Taken d det (t + i) x r)
    pub beaten :
        (i : ℕ) (x : Track)
        → Free us xs i x
        → SameClass det x
        → lt r.best_iou (iou fl det x.det) ≡ false

  shift :
      (d : ℕ) (det : TrackerDetection) (t i : ℕ) (y : Track) (r : Best F)
      → Taken d det (t + 1 + i) y r
      → Taken d det (t + suc i) y r
  shift d det t i y r = subst (λ n. Taken d det n y r) (omega arith)

  module _ (d : ℕ) (det : TrackerDetection) (t : ℕ) (us : List Bool) (x : Track) (xs : List Track)
      (best r : Best F) where
    Scanned-used : Scanned d det (t + 1) us xs best r → Scanned d det t (true ∷ us) (x ∷ xs) best r
    Scanned-used later = record {
      grows = later.grows;
      source = elim later.source [
        | inl e ↦ inl e
        | inr (i, y, f, taken) ↦ inr (suc i, y, f, shift d det t i y r taken)
      ];
      beaten = beaten;
    }
      where
        beaten :
            (i : ℕ) (y : Track)
            → Free (true ∷ us) (x ∷ xs) i y
            → SameClass det y
            → lt r.best_iou (iou fl det y.det) ≡ false
        beaten zero y f same = absurd (cc f.0)
        beaten (suc i) y f same = later.beaten i y f same

    Scanned-free :
        Scanned d det (t + 1) us xs (consider fl d det t x best) r
        → Scanned d det t (false ∷ us) (x ∷ xs) best r
    Scanned-free later = record {
      grows =
          Grows-trans best (consider fl d det t x best) r (consider-Grows d det t x best)
            later.grows;
      source = elim later.source [
        | inl e ↦ elim (consider-Taken d det t x best) [
          | inl kept ↦ inl (e ∙ kept)
          | inr taken ↦ inr (
            0,
            x,
            (refl, refl),
            subst (λ n. Taken d det n x r) (omega arith) (subst (Taken d det t x) (sym e) taken),
          )
        ]
        | inr (i, y, f, taken) ↦ inr (suc i, y, f, shift d det t i y r taken)
      ];
      beaten = beaten;
    }
      where
        beaten :
            (i : ℕ) (y : Track)
            → Free (false ∷ us) (x ∷ xs) i y
            → SameClass det y
            → lt r.best_iou (iou fl det y.det) ≡ false
        beaten zero y f same =
            let e : x ≡ y = cc f.1 in
            Grows-beaten (consider fl d det t x best) r (iou fl det y.det) later.grows (
              subst (λ z. lt (consider fl d det t x best).best_iou (iou fl det z.det) ≡ false) e
                (consider-beaten d det t x best (subst (SameClass det) (sym e) same)))
        beaten (suc i) y f same = later.beaten i y f same

  pub scan_tracks-Scanned :
      (d : ℕ) (det : TrackerDetection) (t : ℕ) (us : List Bool) (xs : List Track) (best : Best F)
      → Scanned d det t us xs best (scan_tracks fl d det t us xs best)
  unfolding scan_tracks
  scan_tracks-Scanned d det t [] xs best = record {
    grows = inl refl;
    source = inl refl;
    beaten = λ i x f. absurd (cc f.0);
  }
  scan_tracks-Scanned d det t (u ∷ us) [] best = record {
    grows = inl refl;
    source = inl refl;
    beaten = λ i x f. absurd (cc f.1);
  }
  scan_tracks-Scanned d det t (true ∷ us) (x ∷ xs) best =
      Scanned-used d det t us x xs best _ (scan_tracks-Scanned d det (t + 1) us xs best)
  scan_tracks-Scanned d det t (false ∷ us) (x ∷ xs) best =
      Scanned-free d det t us x xs best _
        (scan_tracks-Scanned d det (t + 1) us xs (consider fl d det t x best))
