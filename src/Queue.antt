-- ===== src/Queue.antt =====
-- yolov8n_cap_multithread/include/ipc/bounded_queue.h: the bounded FIFO between the pipeline and
-- the IPC sender thread. Each operation holds the mutex for its whole body, so it is one step.
pub mod Bound
pub mod Latest
pub mod Order
use khadas_yolov8n_multithre.Prelude.{
  ℕ, Bool, true, false, not, ◌||◌, Option, none, some, List, [], ◌∷◌, ◌++◌, leb, length,
  if◌then◌else◌,
}

-- `DropPolicy`
pub data DropPolicy : Type 0 where
  drop_oldest drop_newest : DropPolicy

pub record BoundedQueue {ℓ} (A : Type ℓ) : Type ℓ where
  pub capacity : ℕ
  pub policy : DropPolicy
  pub closed : Bool
  pub items : List A

module _ {ℓ} {A : Type ℓ} where
  pub new : ℕ → DropPolicy → BoundedQueue A
  new capacity policy = record { capacity = capacity; policy = policy; closed = false; items = [] }

  -- `deque::pop_front`; on an empty deque its behaviour is undefined.
  pop_front : List A → Option (List A)
  pop_front [] = none
  pop_front (x ∷ xs) = some xs

  abbrev is_empty : List A → Bool
  is_empty [] = true
  is_empty (x ∷ xs) = false

  -- A full queue: make room by the policy, or refuse the item. `none` is undefined behaviour.
  push_full : DropPolicy → BoundedQueue A → A → Option (BoundedQueue A × Bool)
  unfolding pop_front
  push_full drop_oldest q item = elim (pop_front q.items) [
    | none ↦ none
    | some rest ↦ some (record q { items = rest ++ (item ∷ []) }, false)
  ]
  push_full drop_newest q item = some (q, false)

  -- `push`: the new queue, and whether nothing was dropped.
  pub push : BoundedQueue A → A → Option (BoundedQueue A × Bool)
  unfolding push_full
  push q item =
      if q.closed
      then some (q, false)
      else if leb q.capacity (length q.items)
      then push_full q.policy q item
      else some (record q { items = q.items ++ (item ∷ []) }, true)

  -- What `pop` sees when its wait ends: the wait fails on a timeout, while the queue is open and
  -- empty. `none` is the result `false`.
  take_front : BoundedQueue A → List A → Option A × BoundedQueue A
  take_front q [] = (none, q)
  take_front q (x ∷ xs) = (some x, record q { items = xs })

  pub pop : BoundedQueue A → Option A × BoundedQueue A
  unfolding take_front
  pop q = if not (not (is_empty q.items) || q.closed) then (none, q) else take_front q q.items

  pub size : BoundedQueue A → ℕ
  size q = length q.items

  pub close : BoundedQueue A → BoundedQueue A
  close q = record q { closed = true }

-- The calls of the producers and the consumers, in the order in which they get the mutex.
pub data Op {ℓ} (A : Type ℓ) : Type ℓ where
  pushes : A → Op A
  pops : Op A
  closes : Op A

-- What one call leaves in the queue, and what it hands to its caller.
pub step {ℓ} : {A : Type ℓ} → BoundedQueue A → Op A → Option (BoundedQueue A × List A)
unfolding push pop close
step q (pushes x) = elim (push q x) [ none ↦ none | some (q', accepted) ↦ some (q', []) ]
step q pops =
    let (out, q') = pop q in elim out [ none ↦ some (q', []) | some x ↦ some (q', x ∷ []) ]
step q closes = some (close q, [])

-- What the rest of a schedule hands out comes after `out`.
pub prepend {ℓ} :
    {A : Type ℓ} → List A → Option (BoundedQueue A × List A) → Option (BoundedQueue A × List A)
prepend out none = none
prepend out (some (q, outs)) = some (q, out ++ outs)

-- A whole schedule, with all that the consumers received.
unfoldable pub run {ℓ} :
    {A : Type ℓ} → BoundedQueue A → List (Op A) → Option (BoundedQueue A × List A)
unfolding step prepend
run q [] = some (q, [])
run q (o ∷ os) = elim (step q o) [ none ↦ none | some (q', out) ↦ prepend out (run q' os) ]
