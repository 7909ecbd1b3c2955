-- ===== src/Camera/Shared.antt =====
-- No frame is read from a buffer that the driver may write.
use khadas_yolov8n_multithre.Prelude.{
  ℕ, ◌+◌, ◌-◌, ◌<◌, ◌≤◌, ◌≡◌, refl, ap, ◌∙◌, subst, Bool, true, false, not, ◌&&◌, Option, none,
  some, List, [], ◌∷◌, ◌++◌, map, arith, tests, ltb, leb, ◌==◌, if◌then◌else◌, if-cases, length,
  get_elem?, remove, count, count-remove,
}
use khadas_yolov8n_multithre.Camera.{
  req_count, Outcome, returns, exits, undefined, Camera, closed, Plane, Device, map_at, map_one,
  then_do, map_buffers, load_mipi_camera, Frame, read_mipi_frame_nv12, release_mipi_frame, capture,
  captures_all,
}

-- The driver has each buffer once.
pub record IsQueued (c : Camera) : Type 0 where
  pub each : (x : ℕ) → count x c.queued ≡ (if ltb x (length c.starts) then 1 else 0)
  pub few : length c.starts ≤ req_count

abbrev OnReturn {ℓ} : {A : Type ℓ} → (A → Type 0) → Outcome A → Type 0
OnReturn P (returns a) = P a
OnReturn P exits = Unit {0}
OnReturn P undefined = Unit {0}

then_do-OnReturn {ℓ} :
    {A B : Type ℓ} (P : A → Type 0) (Q : B → Type 0) (o : Outcome A) (f : A → Outcome B)
    → OnReturn P o
    → ((a : A) → P a → OnReturn Q (f a))
    → OnReturn Q (then_do o f)
unfolding then_do
then_do-OnReturn P Q (returns a) f h k = k a h
then_do-OnReturn P Q exits f h k = tt
then_do-OnReturn P Q undefined f h k = tt

count-snoc :
    (x y : ℕ) (l : List ℕ) → count x (l ++ (y ∷ [])) ≡ count x l + (if x == y then 1 else 0)
unfolding count
count-snoc x y [] = ground arith
count-snoc x y (z ∷ l) = ground (arith, count-snoc x y l)

length-snoc : (l : List ℕ) (y : ℕ) → length (l ++ (y ∷ [])) ≡ length l + 1
length-snoc [] y = refl
length-snoc (z ∷ l) y = omega (arith, length-snoc l y)

one_more :
    (x n : ℕ)
    → (if ltb x n then 1 else 0) + (if x == n then 1 else 0) ≡ (if ltb x (n + 1) then 1 else 0)
one_more x n = ground arith

map_at-IsQueued :
    (o : Option ℕ) (queue : Bool) (c : Camera)
    → length c.starts < req_count
    → IsQueued c
    → OnReturn IsQueued (map_at o queue c)
unfolding map_at
map_at-IsQueued none queue c room v = tt
map_at-IsQueued (some a) false c room v = tt
map_at-IsQueued (some a) true c room v = record {
  each = λ x. rw (length-snoc c.starts a) (
      count-snoc x (length c.starts) c.queued
      ∙ ap (λ n. n + (if x == length c.starts then 1 else 0)) (v.each x)
      ∙ one_more x (length c.starts));
  few = omega (arith, room, length-snoc c.starts a);
}

map_one-IsQueued : (p : Plane) (c : Camera) → IsQueued c → OnReturn IsQueued (map_one p c)
unfolding map_one
map_one-IsQueued p c v =
    if-cases (OnReturn IsQueued) p.query _ _
      (λ _.
        if-cases (OnReturn IsQueued) (leb req_count (length c.starts)) _ _ (λ _. tt)
          (λ room. map_at-IsQueued p.mapped p.queue c (grind (tests, room)) v))
      (λ _. tt)

map_buffers-IsQueued :
    (ps : List Plane) (c : Camera) → IsQueued c → OnReturn IsQueued (map_buffers ps c)
unfolding map_buffers
map_buffers-IsQueued [] c v = v
map_buffers-IsQueued (p ∷ ps) c v =
    then_do-OnReturn IsQueued IsQueued (map_one p c) (map_buffers ps) (map_one-IsQueued p c v)
      (map_buffers-IsQueued ps)

-- A camera that was loaded.
abbrev IsLoaded : ℕ × Camera → Type 0
IsLoaded r = r.0 ≡ 0 → IsQueued r.1

load-IsLoaded : (d : Device) → OnReturn IsLoaded (load_mipi_camera d closed)
unfolding load_mipi_camera closed count
load-IsLoaded d =
    if-cases (OnReturn IsLoaded) (not d.opened) _ _ (λ _ e. absurd (omega (arith, e)))
      (λ _.
        if-cases (OnReturn IsLoaded) (not d.query_cap) _ _ (λ _. tt)
          (λ _.
            if-cases (OnReturn IsLoaded) (not d.captures) _ _ (λ _ e. absurd (omega (arith, e)))
              (λ _.
                if-cases (OnReturn IsLoaded) (not (d.set_format && d.request_buffers)) _ _ (λ _. tt)
                  (λ _.
                    then_do-OnReturn IsQueued IsLoaded _ _
                      (map_buffers-IsQueued d.planes _
                        (record { each = λ x. ground arith; few = omega arith }))
                      (λ m v.
                        if-cases (OnReturn IsLoaded) d.stream_on _ _
                          (λ _ _. record { each = v.each; few = v.few }) (λ _. tt))))))

-- The calls succeed, and the driver hands out one of its `n` buffers.
abbrev pub AllGranted : ℕ → List Frame → Type 0
AllGranted n [] = Unit {0}
AllGranted n (f ∷ fs) = (f.dequeues ≡ true) × (f.requeues ≡ true) × (f.buffer < n) × AllGranted n fs

-- What a frame reads, and that the driver has its buffer no more.
abbrev pub read_apart : Camera → Frame → Option ℕ × ℕ
read_apart c f = (get_elem? c.starts f.buffer, 0)

-- Behind a frame.
abbrev after_frame : Frame → Camera → Camera
after_frame f c = record c {
  queued = remove f.buffer c.queued ++ (f.buffer ∷ []);
  index = f.buffer;
}

capture-apart :
    (f : Frame) (c : Camera)
    → f.dequeues ≡ true
    → f.requeues ≡ true
    → count f.buffer (remove f.buffer c.queued) ≡ 0
    → capture f c ≡ returns (read_apart c f, after_frame f c)
unfolding capture read_mipi_frame_nv12 release_mipi_frame then_do
capture-apart f c d r n = rw (d, r, n) refl

-- Taken out once, and put back.
put_back :
    (x b n : ℕ)
    → b < n
    → (if ltb x n then 1 else 0) - (if x == b then 1 else 0) + (if x == b then 1 else 0)
      ≡ (if ltb x n then 1 else 0)
put_back x b n h = ground arith

taken_out : (b n : ℕ) → b < n → (if ltb b n then 1 else 0) - (if b == b then 1 else 0) ≡ 0
taken_out b n h = ground arith

after-IsQueued :
    (f : Frame) (c : Camera) → f.buffer < length c.starts → IsQueued c → IsQueued (after_frame f c)
after-IsQueued f c h v = record {
  each = λ x.
      let one = if x == f.buffer then 1 else 0 in
      count-snoc x f.buffer (remove f.buffer c.queued)
      ∙ ap (λ n. n + one) (count-remove x f.buffer c.queued ∙ ap (λ n. n - one) (v.each x))
      ∙ put_back x f.buffer (length c.starts) h;
  few = v.few;
}

then_do-returns {ℓ} :
    {A B : Type ℓ} (o : Outcome A) (a : A) (f : A → Outcome B) → o ≡ returns a → then_do o f ≡ f a
unfolding then_do
then_do-returns o a f h = ap (λ r. then_do r f) h

captures_all-apart :
    (fs : List Frame) (c : Camera)
    → AllGranted (length c.starts) fs
    → IsQueued c
    → (c' : Camera) × (captures_all fs c ≡ returns (map (read_apart c) fs, c'))
      × (c'.starts ≡ c.starts)
      × IsQueued c'
unfolding captures_all
captures_all-apart [] c g v = (c, refl, refl, v)
captures_all-apart (f ∷ fs) c (d, r, h, g) v =
    let gone =
      count-remove f.buffer f.buffer c.queued
      ∙ ap (λ n. n - (if f.buffer == f.buffer then 1 else 0)) (v.each f.buffer)
      ∙ taken_out f.buffer (length c.starts) h in
    let (c', e, s, v') = captures_all-apart fs (after_frame f c) g (after-IsQueued f c h v) in
    (
      c',
      then_do-returns (capture f c) _ _ (capture-apart f c d r gone)
          ∙ then_do-returns (captures_all fs (after_frame f c)) _ _ e,
      s,
      v',
    )

-- After the camera was loaded, with as many buffers as the array has room for, and over any frames
-- that the driver hands out: each frame is read where its buffer is mapped, while the driver does
-- not have that buffer, and at the end the driver has each buffer once.
pub captures_all-IsQueued :
    (d : Device) (c : Camera) (fs : List Frame)
    → load_mipi_camera d closed ≡ returns (0, c)
    → AllGranted (length c.starts) fs
    → (c' : Camera) × (captures_all fs c ≡ returns (map (read_apart c) fs, c'))
      × (c'.starts ≡ c.starts)
      × IsQueued c'
captures_all-IsQueued d c fs h g =
    captures_all-apart fs c g (subst (OnReturn IsLoaded) h (load-IsLoaded d) refl)
