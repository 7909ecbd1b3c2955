-- ===== src/Postprocess/Sort/Scan.antt =====
-- The two inner loops of the sort: where they stop, and what they passed.
use khadas_yolov8n_multithre.Prelude.{
  ℕ, zero, suc, ◌+◌, ◌≤◌, ◌<◌, ◌≡◌, ◌⊎◌, inl, inr, true, false, List, arith, ltb, Bool-cases, tests,
}
use khadas_yolov8n_multithre.Prelude.Float.{Float32}
use khadas_yolov8n_multithre.Postprocess.Sort.{Scored, at, scan_high, scan_low}

module _ (fl : Float32) where
  open fl use {F, le}

  pub record ScannedHigh (key : F) (low : ℕ) (a : List (Scored fl)) (high h : ℕ) : Type 0 where
    pub from : low ≤ h
    pub upto : h ≤ high
    pub passed : (i : ℕ) → h < i → i ≤ high → le (at fl a i).0 key ≡ true
    pub stopped : (h ≡ low) ⊎ (le (at fl a h).0 key ≡ false)

  pub scan_high-ScannedHigh :
      (key : F) (low : ℕ) (a : List (Scored fl)) (high : ℕ)
      → low ≤ high
      → ScannedHigh key low a high (scan_high fl key low a high)
  unfolding scan_high
  scan_high-ScannedHigh key low a zero h = record {
    from = h;
    upto = omega arith;
    passed = λ i b c. absurd (omega arith);
    stopped = inl (omega arith);
  }
  scan_high-ScannedHigh key low a (suc high) h = elim (Bool-cases (ltb low (suc high))) [
    | inr end ↦ rw end (record {
      from = h;
      upto = omega arith;
      passed = λ i b c. absurd (omega arith);
      stopped = inl (omega tests);
    })
    | inl more ↦ elim (Bool-cases (le (at fl a (suc high)).0 key)) [
      | inr big ↦
          rw (more, big)
            (record {
              from = h;
              upto = omega arith;
              passed = λ i b c. absurd (omega arith);
              stopped = inr big;
            })
      | inl small ↦
          let s = scan_high-ScannedHigh key low a high (omega tests) in
          rw (more, small)
            (record {
              from = s.from;
              upto = omega (arith, s.upto);
              passed = λ i b c. ground (arith, s.passed i);
              stopped = s.stopped;
            })
    ]
  ]

  pub record ScannedLow (key : F) (high : ℕ) (a : List (Scored fl)) (low l : ℕ) : Type 0 where
    pub from : low ≤ l
    pub upto : l ≤ high
    pub passed : (i : ℕ) → low ≤ i → i < l → le key (at fl a i).0 ≡ true
    pub stopped : (l ≡ high) ⊎ (le key (at fl a l).0 ≡ false)

  pub scan_low-ScannedLow :
      (key : F) (high : ℕ) (a : List (Scored fl)) (n low : ℕ)
      → n + low ≡ high
      → ScannedLow key high a low (scan_low fl key high a n low)
  unfolding scan_low
  scan_low-ScannedLow key high a zero low h = record {
    from = omega arith;
    upto = omega arith;
    passed = λ i b c. absurd (omega arith);
    stopped = inl (omega arith);
  }
  scan_low-ScannedLow key high a (suc n) low h = elim (Bool-cases (le key (at fl a low).0)) [
    | inr small ↦
        let more : ltb low high ≡ true = omega tests in
        rw (more, small)
          (record {
            from = omega arith;
            upto = omega arith;
            passed = λ i b c. absurd (omega arith);
            stopped = inr small;
          })
    | inl big ↦
        let more : ltb low high ≡ true = omega tests in
        let s = scan_low-ScannedLow key high a n (suc low) (omega arith) in
        rw (more, big)
          (record {
            from = omega (arith, s.from);
            upto = s.upto;
            passed = λ i b c. ground (arith, s.passed i);
            stopped = s.stopped;
          })
  ]
