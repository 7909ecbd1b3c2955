-- ===== src/Camera.antt =====
-- src/camera_util.cc of yolov8n_cap_multithread: the buffers that the camera driver and the program share. What a
-- system call gives is an argument; `CHECK_IOCTL` ends the process when its call fails.
pub mod Shared
use khadas_yolov8n_multithre.Prelude.{
  ℕ, Bool, true, false, not, ◌&&◌, Option, none, some, List, [], ◌∷◌, ◌++◌, leb, if◌then◌else◌,
  length, get_elem?, remove, count,
}

-- `REQ_COUNT`
abbrev pub req_count : ℕ
req_count = 4

-- A call returns, ends the process, or writes past the array.
pub data Outcome {ℓ} (A : Type ℓ) : Type ℓ where
  returns : A → Outcome A
  exits : Outcome A
  undefined : Outcome A

-- `starts` are the entries of `buffers` that are set, `queued` the indices that the driver has, and
-- `index` is that of `buf`.
pub record Camera : Type 0 where
  pub is_open : Bool
  pub starts : List ℕ
  pub queued : List ℕ
  pub index : ℕ
  pub streaming : Bool

unfoldable pub closed : Camera
closed = record { is_open = false; starts = []; queued = []; index = 0; streaming = false }

-- A buffer of the driver: whether it can be queried, where it is mapped, if it is, and whether it can
-- be queued.
pub record Plane : Type 0 where
  pub query : Bool
  pub mapped : Option ℕ
  pub queue : Bool

-- The device; `planes` has one entry for each buffer that the driver granted.
pub record Device : Type 0 where
  pub opened : Bool
  pub query_cap : Bool
  pub captures : Bool
  pub set_format : Bool
  pub request_buffers : Bool
  pub planes : List Plane
  pub stream_on : Bool

map_at : Option ℕ → Bool → Camera → Outcome Camera
map_at none queue c = exits
map_at (some start) queue c =
    if queue
    then returns (record c {
      starts = c.starts ++ (start ∷ []);
      queued = c.queued ++ (length c.starts ∷ []);
    })
    else exits

-- One round of the loop over the buffers.
pub map_one : Plane → Camera → Outcome Camera
unfolding map_at
map_one p c =
    if p.query
    then (if leb req_count (length c.starts) then undefined else map_at p.mapped p.queue c)
    else exits

pub then_do {ℓ} : {A B : Type ℓ} → Outcome A → (A → Outcome B) → Outcome B
then_do (returns a) f = f a
then_do exits f = exits
then_do undefined f = undefined

pub map_buffers : List Plane → Camera → Outcome Camera
unfolding map_one then_do
map_buffers [] c = returns c
map_buffers (p ∷ ps) c = then_do (map_one p c) (map_buffers ps)

-- `load_mipi_camera`, with its exit code
unfoldable pub load_mipi_camera : Device → Camera → Outcome (ℕ × Camera)
unfolding map_buffers then_do
load_mipi_camera d c =
    if not d.opened
    then returns (1, c)
    else if not d.query_cap
    then exits
    else if not d.captures
    then returns (1, c)
    else if not (d.set_format && d.request_buffers)
    then exits
    else then_do (map_buffers d.planes (record c { is_open = true }))
        (λ m. if d.stream_on then returns (0, record m { streaming = true }) else exits)

-- A frame: whether the two calls succeed, and the buffer that the driver hands out.
pub record Frame : Type 0 where
  pub dequeues : Bool
  pub buffer : ℕ
  pub requeues : Bool

-- `read_mipi_frame_nv12`, with the pointer that it stores
pub read_mipi_frame_nv12 : Frame → Camera → Outcome (Option ℕ × Camera)
read_mipi_frame_nv12 f c =
    if f.dequeues
    then returns (
      get_elem? c.starts f.buffer,
      record c { queued = remove f.buffer c.queued; index = f.buffer },
    )
    else exits

pub release_mipi_frame : Frame → Camera → Outcome Camera
release_mipi_frame f c =
    if f.requeues then returns (record c { queued = c.queued ++ (c.index ∷ []) }) else exits

-- A frame is read and released; the pointer, and how often the driver has its buffer meanwhile.
pub capture : Frame → Camera → Outcome ((Option ℕ × ℕ) × Camera)
unfolding read_mipi_frame_nv12 release_mipi_frame then_do
capture f c = then_do (read_mipi_frame_nv12 f c) (λ r.
    then_do (release_mipi_frame f r.1) (λ next. returns ((r.0, count r.1.index r.1.queued), next)))

pub captures_all : List Frame → Camera → Outcome (List (Option ℕ × ℕ) × Camera)
unfolding capture then_do
captures_all [] c = returns ([], c)
captures_all (f ∷ fs) c =
    then_do (capture f c)
      (λ r. then_do (captures_all fs r.1) (λ rest. returns (r.0 ∷ rest.0, rest.1)))

-- `close_mipi_camera`, with whether `VIDIOC_STREAMOFF` succeeds
unfoldable close_mipi_camera : Bool → Camera → Outcome Camera
close_mipi_camera stream_off c =
    if stream_off
    then returns (record c { is_open = false; starts = []; queued = []; streaming = false })
    else exits
