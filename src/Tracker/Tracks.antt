-- ===== src/Tracker/Tracks.antt =====
-- iou_tracker.cc: what holds of the tracks from frame to frame.
use khadas_yolov8n_multithre.Prelude.{
  ℕ, zero, suc, ◌+◌, ◌≤◌, ◌<◌, ◌≡◌, refl, subst, Bool, true, false, Option, none, some, List, [],
  ◌∷◌, ◌++◌, arith, ltb, length, inl, inr, Bool-cases,
}
use khadas_yolov8n_multithre.Prelude.Float.{Float32}
use khadas_yolov8n_multithre.Prelude.Words.{u32_mod, inc32}
use khadas_yolov8n_multithre.Tracker.{
  TrackerDetection, TrackerOutput, Track, IouTracker, max_age, refresh, modify, emit, age_unused,
  drop_old, finish, update,
}
use khadas_yolov8n_multithre.Tracker.Matching.{match_frame-IsMatching}

-- The ids ascend, from `lo` on and below `hi`.
abbrev pub Ascends : ℕ → List Track → ℕ → Type 0
Ascends lo [] hi = lo ≤ hi
Ascends lo (x ∷ xs) hi = (lo ≤ x.id) × Ascends (x.id + 1) xs hi

abbrev pub AllYoung : List Track → Type 0
AllYoung [] = Unit {0}
AllYoung (x ∷ xs) = (x.frames_unseen ≤ max_age) × AllYoung xs

-- The ids are distinct, not 0, and all given out before; no track is too old.
pub record IsTracker (k : IouTracker) : Type 0 where
  pub ascends : Ascends 1 k.tracks k.next_id
  pub young : AllYoung k.tracks

Ascends-weaken :
    (lo lo' : ℕ) (xs : List Track) (hi : ℕ) → lo' ≤ lo → Ascends lo xs hi → Ascends lo' xs hi
Ascends-weaken lo lo' [] hi h a = omega arith
Ascends-weaken lo lo' (x ∷ xs) hi h a = (omega arith, a.1)

Ascends-modify :
    (lo : ℕ) (xs : List Track) (hi t f : ℕ) (d : TrackerDetection)
    → Ascends lo xs hi
    → Ascends lo (modify t (refresh f d) xs) hi
unfolding modify refresh
Ascends-modify lo [] hi t f d a = a
Ascends-modify lo (x ∷ xs) hi zero f d a = a
Ascends-modify lo (x ∷ xs) hi (suc t) f d a = (a.0, Ascends-modify (x.id + 1) xs hi t f d a.1)

Ascends-append :
    (lo : ℕ) (xs : List Track) (hi : ℕ) (y : Track)
    → y.id ≡ hi
    → Ascends lo xs hi
    → Ascends lo (xs ++ (y ∷ [])) (hi + 1)
Ascends-append lo [] hi y e a = (omega arith, omega arith)
Ascends-append lo (x ∷ xs) hi y e a = (a.0, Ascends-append (x.id + 1) xs hi y e a.1)

Ascends-age :
    (lo : ℕ) (us : List Bool) (xs : List Track) (hi : ℕ)
    → Ascends lo xs hi
    → Ascends lo (age_unused us xs) hi
unfolding age_unused
Ascends-age lo [] xs hi a = a
Ascends-age lo (u ∷ us) [] hi a = a
Ascends-age lo (true ∷ us) (x ∷ xs) hi a = (a.0, Ascends-age (x.id + 1) us xs hi a.1)
Ascends-age lo (false ∷ us) (x ∷ xs) hi a = (a.0, Ascends-age (x.id + 1) us xs hi a.1)

Ascends-drop_old :
    (lo : ℕ) (xs : List Track) (hi : ℕ) → Ascends lo xs hi → Ascends lo (drop_old xs) hi
unfolding drop_old
Ascends-drop_old lo [] hi a = a
Ascends-drop_old lo (x ∷ xs) hi a =
    let later = Ascends-drop_old (x.id + 1) xs hi a.1 in
    elim (Bool-cases (ltb max_age x.frames_unseen)) [
      | inl old ↦ rw old (Ascends-weaken (x.id + 1) lo (drop_old xs) hi (omega (arith, a.0)) later)
      | inr young ↦ rw young (a.0, later)
    ]

AllYoung-drop_old : (xs : List Track) → AllYoung (drop_old xs)
unfolding drop_old
AllYoung-drop_old [] = tt
AllYoung-drop_old (x ∷ xs) = ground (arith, AllYoung-drop_old xs)

emit-Ascends :
    (f : ℕ) (ds : List TrackerDetection) (ms : List (Option ℕ)) (k : IouTracker)
    → Ascends 1 k.tracks k.next_id
    → k.next_id + length ds < u32_mod
    → Ascends 1 (emit f ds ms k).0.tracks (emit f ds ms k).0.next_id
      × (k.next_id ≤ (emit f ds ms k).0.next_id)
      × ((emit f ds ms k).0.next_id ≤ k.next_id + length ds)
unfolding emit
emit-Ascends f [] ms k a h = (a, omega arith, omega arith)
emit-Ascends f (d ∷ ds) [] k a h = (a, omega arith, omega arith)
emit-Ascends f (d ∷ ds) (some t ∷ ms) k a h =
    let k' : IouTracker = record k { tracks = modify t (refresh f d) k.tracks } in
    let (x, y, z) =
      emit-Ascends f ds ms k' (Ascends-modify 1 k.tracks k.next_id t f d a) (omega arith) in
    (x, y, omega arith)
emit-Ascends f (d ∷ ds) (none ∷ ms) k a h =
    let fresh : Track = record {
      id = k.next_id;
      det = d;
      frames_unseen = 0;
      last_seen_frame = f;
    } in
    let k' : IouTracker = record { tracks = k.tracks ++ (fresh ∷ []); next_id = inc32 k.next_id } in
    let next : k.next_id + 1 ≡ inc32 k.next_id = omega arith in
    let grown : Ascends 1 k'.tracks k'.next_id =
      subst (Ascends 1 k'.tracks) next (Ascends-append 1 k.tracks k.next_id fresh refl a) in
    let (x, y, z) = emit-Ascends f ds ms k' grown (omega arith) in (x, omega arith, omega arith)

pub update-IsTracker :
    (fl : Float32) (f : ℕ) (ds : List TrackerDetection) (k : IouTracker)
    → IsTracker k
    → k.next_id + length ds < u32_mod
    → (r : IouTracker × List TrackerOutput) × (update fl f ds k ≡ some r)
      × IsTracker r.0
      × (k.next_id ≤ r.0.next_id)
      × (r.0.next_id ≤ k.next_id + length ds)
unfolding update finish
update-IsTracker fl f ds k v h =
    let (s, e, _, _, _) = match_frame-IsMatching fl ds k.tracks in
    let (a, low, high) = emit-Ascends f ds s.det_to_track k v.ascends h in
    let k' : IouTracker = (emit f ds s.det_to_track k).0 in
    (
      finish f ds s k,
      rw (e, update),
      record {
        ascends =
            Ascends-drop_old 1 (age_unused s.track_used k'.tracks) k'.next_id
              (Ascends-age 1 s.track_used k'.tracks k'.next_id a);
        young = AllYoung-drop_old (age_unused s.track_used k'.tracks);
      },
      low,
      high,
    )
