-- ===== src/Tracker/Outputs.antt =====
-- iou_tracker.cc: what a frame returns.
use khadas_yolov8n_multithre.Prelude.{
  ℕ, zero, suc, ◌+◌, ◌≤◌, ◌<◌, ◌≡◌, refl, sym, ap, subst, ◌∙◌, ◌⊎◌, Option, none, some,
  some-injective, List, [], ◌∷◌, ◌++◌, map, arith, length, length-append, inl, inr, get_elem?,
  lt-length_of_get,
}
use native.Mathlib.Decide.{dec_lt}
use khadas_yolov8n_multithre.Prelude.Float.{Float32}
use khadas_yolov8n_multithre.Prelude.Words.{u32_mod, inc32}
use khadas_yolov8n_multithre.Tracker.{
  TrackerDetection, TrackerOutput, Track, IouTracker, Matched, refresh, modify, id_at, emit, finish,
  update,
}
use khadas_yolov8n_multithre.Tracker.Assign.{IsMatching}
use khadas_yolov8n_multithre.Tracker.Matching.{match_frame-IsMatching}
use khadas_yolov8n_multithre.Tracker.Tracks.{Ascends, IsTracker}

id_at-modify :
    (xs : List Track) (i t f : ℕ) (d : TrackerDetection)
    → id_at (modify i (refresh f d) xs) t ≡ id_at xs t
unfolding id_at modify refresh
id_at-modify [] i t f d = refl
id_at-modify (x ∷ xs) zero zero f d = refl
id_at-modify (x ∷ xs) zero (suc t) f d = refl
id_at-modify (x ∷ xs) (suc i) zero f d = refl
id_at-modify (x ∷ xs) (suc i) (suc t) f d = id_at-modify xs i t f d

length-modify :
    (xs : List Track) (i f : ℕ) (d : TrackerDetection)
    → length (modify i (refresh f d) xs) ≡ length xs
unfolding modify
length-modify [] i f d = refl
length-modify (x ∷ xs) zero f d = refl
length-modify (x ∷ xs) (suc i) f d = ap suc (length-modify xs i f d)

id_at-append : (xs ys : List Track) (t : ℕ) → t < length xs → id_at (xs ++ ys) t ≡ id_at xs t
unfolding id_at
id_at-append [] ys t h = absurd (omega arith)
id_at-append (x ∷ xs) ys zero h = refl
id_at-append (x ∷ xs) ys (suc t) h = id_at-append xs ys t (omega arith)

-- The ids of the tracks are below the next id, and ascend with the position.
id_at-range :
    (lo : ℕ) (xs : List Track) (hi t : ℕ)
    → Ascends lo xs hi
    → t < length xs
    → (lo + t ≤ id_at xs t) × (id_at xs t < hi)
unfolding id_at
id_at-range lo [] hi t a h = absurd (omega arith)
id_at-range lo (x ∷ xs) hi zero a h = (omega (arith, a.0), omega (arith, ends (x.id + 1) xs hi a.1))
  where
    ends : (lo : ℕ) (xs : List Track) (hi : ℕ) → Ascends lo xs hi → lo ≤ hi
    ends lo [] hi a = a
    ends lo (x ∷ xs) hi a = omega (arith, a.0, ends (x.id + 1) xs hi a.1)
id_at-range lo (x ∷ xs) hi (suc t) a h =
    let (l, u) = id_at-range (x.id + 1) xs hi t a.1 (omega arith) in (omega (arith, a.0), u)

id_at-injective :
    (lo : ℕ) (xs : List Track) (hi t t' : ℕ)
    → Ascends lo xs hi
    → t < length xs
    → t' < length xs
    → id_at xs t ≡ id_at xs t'
    → t ≡ t'
unfolding id_at
id_at-injective lo [] hi t t' a h h' e = absurd (omega arith)
id_at-injective lo (x ∷ xs) hi zero zero a h h' e = refl
id_at-injective lo (x ∷ xs) hi zero (suc t') a h h' e =
    absurd (omega (arith, id_at-range (x.id + 1) xs hi t' a.1 (omega arith)))
id_at-injective lo (x ∷ xs) hi (suc t) zero a h h' e =
    absurd (omega (arith, id_at-range (x.id + 1) xs hi t a.1 (omega arith)))
id_at-injective lo (x ∷ xs) hi (suc t) (suc t') a h h' e =
    ap suc (id_at-injective (x.id + 1) xs hi t t' a.1 (omega arith) (omega arith) e)

-- How many of the first `i` detections are not matched.
abbrev opens : List (Option ℕ) → ℕ → ℕ
opens ms zero = 0
opens [] (suc i) = 0
opens (none ∷ ms) (suc i) = suc (opens ms i)
opens (some t ∷ ms) (suc i) = opens ms i

-- The output for a detection carries the id of its track, or the next id not yet given out.
abbrev IdOf : List (Option ℕ) → IouTracker → ℕ → ℕ → Type 0
IdOf ms k i id =
    ((t : ℕ) × (get_elem? ms i ≡ some (some t)) × (id ≡ id_at k.tracks t))
    ⊎ ((get_elem? ms i ≡ some none) × (id ≡ k.next_id + opens ms i))

abbrev InRange : List (Option ℕ) → ℕ → Type 0
InRange ms n = (d t : ℕ) → get_elem? ms d ≡ some (some t) → t < n

emit-IdOf :
    (f : ℕ) (ds : List TrackerDetection) (ms : List (Option ℕ)) (k : IouTracker) (i : ℕ)
    (o : TrackerOutput)
    → k.next_id + length ds < u32_mod
    → InRange ms (length k.tracks)
    → get_elem? (emit f ds ms k).1 i ≡ some o
    → IdOf ms k i o.track_id
unfolding emit
emit-IdOf f [] ms k i o h r e = absurd (cc e)
emit-IdOf f (d ∷ ds) [] k i o h r e = absurd (cc e)
emit-IdOf f (d ∷ ds) (some t ∷ ms) k zero o h r e =
    inl (t, refl, sym (ap (λ o. o.track_id) (some-injective _ _ e)))
emit-IdOf f (d ∷ ds) (none ∷ ms) k zero o h r e =
    inr (refl, omega (arith, ap (λ o. o.track_id) (some-injective _ _ e)))
emit-IdOf f (d ∷ ds) (some t ∷ ms) k (suc i) o h r e =
    elim (emit-IdOf f ds ms (record k { tracks = modify t (refresh f d) k.tracks }) i o
      (omega arith) (λ d' t' g. rw (length-modify k.tracks t f d) (r (suc d') t' g)) e) [
        | inl (t', g, s) ↦ inl (t', g, s ∙ id_at-modify k.tracks t t' f d)
        | inr (g, s) ↦ inr (g, s)
      ]
emit-IdOf f (d ∷ ds) (none ∷ ms) k (suc i) o h r e =
    let fresh : Track = record {
      id = k.next_id;
      det = d;
      frames_unseen = 0;
      last_seen_frame = f;
    } in
    let k' : IouTracker = record { tracks = k.tracks ++ (fresh ∷ []); next_id = inc32 k.next_id } in
    elim (emit-IdOf f ds ms k' i o (omega arith)
      (λ d' t' g. omega (arith, r (suc d') t' g, length-append k.tracks (fresh ∷ []))) e) [
        | inl (t', g, s) ↦ inl (t', g, s ∙ id_at-append k.tracks (fresh ∷ []) t' (r (suc i) t' g))
        | inr (g, s) ↦ inr (g, omega arith)
      ]

opens-ascend :
    (ms : List (Option ℕ)) (i j : ℕ) → i < j → get_elem? ms i ≡ some none → opens ms i < opens ms j
opens-ascend [] i j h e = absurd (cc e)
opens-ascend ms i zero h e = absurd (omega arith)
opens-ascend (none ∷ ms) zero (suc j) h e = omega arith
opens-ascend (some t ∷ ms) zero (suc j) h e = absurd (cc e)
opens-ascend (none ∷ ms) (suc i) (suc j) h e = omega (arith, opens-ascend ms i j (omega arith) e)
opens-ascend (some t ∷ ms) (suc i) (suc j) h e = opens-ascend ms i j (omega arith) e

opens-injective :
    (ms : List (Option ℕ)) (i j : ℕ)
    → get_elem? ms i ≡ some none
    → get_elem? ms j ≡ some none
    → opens ms i ≡ opens ms j
    → i ≡ j
opens-injective ms i j e e' h = elim (dec_lt i j) [
  | yes below ↦ absurd (omega (arith, opens-ascend ms i j below e))
  | no above ↦ elim (dec_lt j i) [
    | yes below' ↦ absurd (omega (arith, opens-ascend ms j i below' e'))
    | no above' ↦ omega arith
  ]
]

dets-emit :
    (f : ℕ) (ds : List TrackerDetection) (ms : List (Option ℕ)) (k : IouTracker)
    → length ms ≡ length ds
    → map (λ (o : TrackerOutput). o.det) (emit f ds ms k).1 ≡ ds
unfolding emit
dets-emit f [] ms k h = refl
dets-emit f (d ∷ ds) [] k h = absurd (omega arith)
dets-emit f (d ∷ ds) (some t ∷ ms) k h =
    ap (◌∷◌ d)
      (dets-emit f ds ms (record k { tracks = modify t (refresh f d) k.tracks }) (omega arith))
dets-emit f (d ∷ ds) (none ∷ ms) k h = ap (◌∷◌ d) (dets-emit f ds ms _ (omega arith))

-- Two outputs of one frame with one id are the same output.
abbrev pub DistinctIds : List TrackerOutput → Type 0
DistinctIds outs =
    (i j : ℕ) (o o' : TrackerOutput)
    → get_elem? outs i ≡ some o
    → get_elem? outs j ≡ some o'
    → o.track_id ≡ o'.track_id
    → i ≡ j

module _ (fl : Float32) (f : ℕ) (ds : List TrackerDetection) (s : Matched) (k : IouTracker)
    (m : IsMatching fl ds k.tracks s) (v : IsTracker k)
    (fits : k.next_id + length ds < u32_mod) where
  in_range : InRange s.det_to_track (length k.tracks)
  in_range d t g = lt-length_of_get k.tracks t (m.pairs d t g).0.at_t

  ids-distinct : DistinctIds (emit f ds s.det_to_track k).1
  ids-distinct i j o o' e e' same =
      by_kind (emit-IdOf f ds s.det_to_track k i o fits in_range e)
        (emit-IdOf f ds s.det_to_track k j o' fits in_range e')
    where
      low : (n t : ℕ) → get_elem? s.det_to_track n ≡ some (some t) → id_at k.tracks t < k.next_id
      low n t g = (id_at-range 1 k.tracks k.next_id t v.ascends (in_range n t g)).1

      by_kind : IdOf s.det_to_track k i o.track_id → IdOf s.det_to_track k j o'.track_id → i ≡ j
      by_kind (inl (t, g, a)) (inl (t', g', a')) =
          let one : t ≡ t' =
            id_at-injective 1 k.tracks k.next_id t t' v.ascends (in_range i t g) (in_range j t' g')
              (sym a ∙ same ∙ a') in
          m.injective i j t g (subst (λ n. get_elem? s.det_to_track j ≡ some (some n)) (sym one) g')
      by_kind (inl (t, g, a)) (inr (g', a')) = absurd (omega (arith, low i t g))
      by_kind (inr (g, a)) (inl (t', g', a')) = absurd (omega (arith, low j t' g'))
      by_kind (inr (g, a)) (inr (g', a')) = opens-injective s.det_to_track i j g g' (omega arith)

pub outputs-update :
    (fl : Float32) (f : ℕ) (ds : List TrackerDetection) (k : IouTracker)
    → IsTracker k
    → k.next_id + length ds < u32_mod
    → (r : IouTracker × List TrackerOutput) × (update fl f ds k ≡ some r)
      × (map (λ (o : TrackerOutput). o.det) r.1 ≡ ds)
      × DistinctIds r.1
unfolding update finish
outputs-update fl f ds k v h =
    let (s, e, m, _, _) = match_frame-IsMatching fl ds k.tracks in
    (
      finish f ds s k,
      rw (e, update),
      dets-emit f ds s.det_to_track k m.size_d,
      ids-distinct fl f ds s k m v h,
    )
