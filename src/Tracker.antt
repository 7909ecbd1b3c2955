-- ===== src/Tracker.antt =====
-- yolov8n_cap_multithread/tracker/include/bytetrack_adapter.h and src/iou_tracker.cc: the greedy
-- tracker. `int` coordinates are unbounded; the `float` arithmetic is a parameter. `-1` for "none"
-- in `det_to_track`, `best_d` and `best_t` is the option `none`.
pub mod RowScan
pub mod Scan
pub mod Assign
pub mod Greedy
pub mod Matching
pub mod Outputs
pub mod Tracks
use khadas_yolov8n_multithre.Prelude.{
  ℕ, zero, suc, ◌+◌, ◌<◌, Bool, true, false, not, ◌&&◌, ◌||◌, Option, none, some, List, [], ◌∷◌,
  ◌++◌, ltb, ◌==◌, if◌then◌else◌, length, set, replicate,
}
use khadas_yolov8n_multithre.Prelude.Int.{ℤ, ◌-ℤ◌, leb_ℤ, min_ℤ, max_ℤ}
use khadas_yolov8n_multithre.Prelude.Float.{Float32}
use khadas_yolov8n_multithre.Prelude.Words.{inc32}

pub record TrackerDetection : Type 0 where
  pub class_name : List ℕ
  pub confidence : ℕ
  pub left : ℤ
  pub top : ℤ
  pub right : ℤ
  pub bottom : ℤ

pub record TrackerOutput : Type 0 where
  pub det : TrackerDetection
  pub track_id : ℕ

-- `kMaxAge`
abbrev pub max_age : ℕ
max_age = 30

pub record Track : Type 0 where
  pub id : ℕ
  pub det : TrackerDetection
  pub frames_unseen : ℕ
  pub last_seen_frame : ℕ

-- `strncmp(a, b, n) == 0`, on arrays of at least `n` bytes
pub same_name : ℕ → List ℕ → List ℕ → Bool
same_name zero a b = true
same_name (suc n) (x ∷ a) (y ∷ b) = x == y && (x == 0 || same_name n a b)
same_name (suc n) [] [] = true
same_name (suc n) _ _ = false

-- `tracks[t]`, changed in place
pub modify {ℓ} : {A : Type ℓ} → ℕ → (A → A) → List A → List A
modify i f [] = []
modify zero f (x ∷ xs) = f x ∷ xs
modify (suc i) f (x ∷ xs) = x ∷ modify i f xs

-- `tracks[t].id`; the matching keeps `t` in range.
pub id_at : List Track → ℕ → ℕ
id_at [] t = 0
id_at (x ∷ xs) zero = x.id
id_at (x ∷ xs) (suc t) = id_at xs t

-- The last two loops: age the tracks that were there and found no detection.
pub age_unused : List Bool → List Track → List Track
age_unused [] tracks = tracks
age_unused (u ∷ us) [] = []
age_unused (u ∷ us) (x ∷ xs) =
    (if u then x else record x { frames_unseen = x.frames_unseen + 1 }) ∷ age_unused us xs

pub drop_old : List Track → List Track
drop_old [] = []
drop_old (x ∷ xs) = let rest = drop_old xs in if ltb max_age x.frames_unseen then rest else x ∷ rest

pub record IouTracker : Type 0 where
  pub tracks : List Track
  pub next_id : ℕ

-- `make_tracker`
unfoldable pub make_tracker : IouTracker
make_tracker = record { tracks = []; next_id = 1 }

pub refresh : ℕ → TrackerDetection → Track → Track
refresh frame_id d x = record x { det = d; frames_unseen = 0; last_seen_frame = frame_id }

-- "Update matched tracks; spawn new ones": the tracks, the next id and the outputs.
pub emit :
    ℕ → List TrackerDetection → List (Option ℕ) → IouTracker → IouTracker × List TrackerOutput
unfolding refresh modify id_at
emit frame_id [] matched k = (k, [])
emit frame_id (d ∷ ds) [] k = (k, [])
emit frame_id (d ∷ ds) (some t ∷ ms) k =
    let (k', outs) =
      emit frame_id ds ms (record k { tracks = modify t (refresh frame_id d) k.tracks }) in
    (k', record { det = d; track_id = id_at k.tracks t } ∷ outs)
emit frame_id (d ∷ ds) (none ∷ ms) k =
    let fresh : Track = record {
      id = k.next_id;
      det = d;
      frames_unseen = 0;
      last_seen_frame = frame_id;
    } in
    let (k', outs) =
      emit frame_id ds ms
        (record { tracks = k.tracks ++ (fresh ∷ []); next_id = inc32 k.next_id }) in
    (k', record { det = d; track_id = k.next_id } ∷ outs)

-- `best_d` and `best_t`, with `best_iou`
pub record Best (F : Type 0) : Type 0 where
  pub best_iou : F
  pub pair : Option (ℕ × ℕ)

-- The state of the matching: `det_to_track` and `track_used`.
pub record Matched : Type 0 where
  pub det_to_track : List (Option ℕ)
  pub track_used : List Bool

-- What follows the matching.
pub finish : ℕ → List TrackerDetection → Matched → IouTracker → IouTracker × List TrackerOutput
unfolding emit age_unused drop_old
finish frame_id dets s k =
    let (k', outs) = emit frame_id dets s.det_to_track k in
    (record k' { tracks = drop_old (age_unused s.track_used k'.tracks) }, outs)

module _ (fl : Float32) where
  open fl use {F, of_int, lit, add, sub, mul, div, lt}

  -- `kIouThreshold`
  pub iou_threshold : F
  iou_threshold = lit 3 10

  pub iou : TrackerDetection → TrackerDetection → F
  iou a b =
      let x_l : ℤ = max_ℤ a.left b.left in
      let y_t : ℤ = max_ℤ a.top b.top in
      let x_r : ℤ = min_ℤ a.right b.right in
      let y_b : ℤ = min_ℤ a.bottom b.bottom in
      let inter : F = mul (of_int (x_r -ℤ x_l)) (of_int (y_b -ℤ y_t)) in
      let area_a : F = mul (of_int (a.right -ℤ a.left)) (of_int (a.bottom -ℤ a.top)) in
      let area_b : F = mul (of_int (b.right -ℤ b.left)) (of_int (b.bottom -ℤ b.top)) in
      let uni : F = sub (add area_a area_b) inter in
      if leb_ℤ x_r x_l || leb_ℤ y_b y_t
      then lit 0 1
      else if lt (lit 0 1) uni
      then div inter uni
      else lit 0 1

  -- One pair of the inner loop, whose track is not in use.
  pub consider : ℕ → TrackerDetection → ℕ → Track → Best F → Best F
  consider d det t x best =
      if not (same_name 16 det.class_name x.det.class_name)
      then best
      else if lt best.best_iou (iou det x.det)
      then record { best_iou = iou det x.det; pair = some (d, t) }
      else best

  -- `for (t = …; t < T; ++t)`
  pub scan_tracks : ℕ → TrackerDetection → ℕ → List Bool → List Track → Best F → Best F
  unfolding consider
  scan_tracks d det t [] xs best = best
  scan_tracks d det t (u ∷ us) [] best = best
  scan_tracks d det t (u ∷ us) (x ∷ xs) best =
      scan_tracks d det (t + 1) us xs (if u then best else consider d det t x best)

  -- `for (d = …; d < D; ++d)`
  pub scan_dets :
      ℕ → List (Option ℕ) → List TrackerDetection → List Bool → List Track → Best F → Best F
  unfolding scan_tracks
  scan_dets d [] dets us xs best = best
  scan_dets d (m ∷ ms) [] us xs best = best
  scan_dets d (m ∷ ms) (det ∷ dets) us xs best =
      scan_dets (d + 1) ms dets us xs
        (elim m [ none ↦ scan_tracks d det 0 us xs best | some t ↦ best ])

  -- `while (true)`, on fuel: each round matches one more detection or ends the loop.
  pub match_loop : ℕ → List TrackerDetection → List Track → Matched → Option Matched
  unfolding scan_dets iou_threshold
  match_loop zero dets xs s = none
  match_loop (suc fuel) dets xs s =
      elim (scan_dets 0 s.det_to_track dets s.track_used xs
        (record { best_iou = iou_threshold; pair = none })).pair [
          | none ↦ some s
          | some (d, t) ↦ match_loop fuel dets xs (record {
            det_to_track = set s.det_to_track d (some t);
            track_used = set s.track_used t true;
          })
        ]

  -- The greedy matching of a frame.
  pub match_frame : List TrackerDetection → List Track → Option Matched
  unfolding match_loop
  match_frame dets xs = match_loop (length dets + 1) dets xs (record {
    det_to_track = replicate (length dets) none;
    track_used = replicate (length xs) false;
  })

  pub update : ℕ → List TrackerDetection → IouTracker → Option (IouTracker × List TrackerOutput)
  unfolding finish
  update frame_id dets k = elim (match_frame dets k.tracks) [
    | none ↦ none
    | some s ↦ some (finish frame_id dets s k)
  ]
