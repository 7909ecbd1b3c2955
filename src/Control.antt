-- ===== src/Control.antt =====
-- The control plane: yolov8n_cap_multithread/include/ipc/yolo_control_state.h and src/ipc/unix_control_server.cc.
-- Bytes of a message are numbers. The answer of a handler that waits for the main loop takes as an
-- argument whether the awaited flag was seen before the timeout.
mod Words
pub mod Parse
pub mod Texts
pub mod Server
use khadas_yolov8n_multithre.Prelude.{
  ℕ, zero, suc, ◌+◌, ◌%◌, ◌^◌, Bool, true, false, not, ◌&&◌, ◌||◌, Option, none, some, List, [],
  ◌∷◌, ◌++◌, ltb, ◌==◌, if◌then◌else◌, length, drop,
}
use khadas_yolov8n_multithre.Stream.{Input, Sent, read_exact, write_exact, and_then}
use khadas_yolov8n_multithre.Wire.{le, word}
pub use Words.*

-- The atomics; `fps` is left to the main loop's statistics.
pub record YoloControlState : Type 0 where
  pub inference_enabled : Bool
  pub dump_enabled : Bool
  pub shutdown_requested : Bool
  pub frame_id : ℕ
  pub blackout_requested : Bool
  pub blackout_active : Bool
  pub resume_requested : Bool
  pub resume_done : Bool

abbrev pub initial_state : YoloControlState
initial_state = record {
  inference_enabled = true;
  dump_enabled = false;
  shutdown_requested = false;
  frame_id = 0;
  blackout_requested = false;
  blackout_active = false;
  resume_requested = false;
  resume_done = false;
}

-- The text after a prefix, where it is one.
starts_with : List ℕ → List ℕ → Option (List ℕ)
starts_with [] s = some s
starts_with (p ∷ ps) [] = none
starts_with (p ∷ ps) (c ∷ s) = if p == c then starts_with ps s else none

-- `find`: the text after the first occurrence of a pattern.
pub find : List ℕ → List ℕ → Option (List ℕ)
unfolding starts_with
find pattern [] = starts_with pattern []
find pattern (c ∷ s) =
    let later = find pattern s in
    elim (starts_with pattern (c ∷ s)) [ some rest ↦ some rest | none ↦ later ]

-- The text before the next `"`.
up_to_quote : List ℕ → Option (List ℕ)
up_to_quote [] = none
up_to_quote (c ∷ s) =
    let later = up_to_quote s in
    if c == 34 then some [] else elim later [ none ↦ none | some t ↦ some (c ∷ t) ]

-- `"key":"value"`; the empty string where there is none
pub extract_string : List ℕ → List ℕ → List ℕ
unfolding find up_to_quote
extract_string json key = elim (find (34 ∷ (key ++ (34 ∷ 58 ∷ 34 ∷ []))) json) [
  | none ↦ []
  | some rest ↦ elim (up_to_quote rest) [ none ↦ [] | some value ↦ value ]
]

-- `"key":true` or `"key":false`
pub extract_bool : List ℕ → List ℕ → Option Bool
unfolding find
extract_bool json key = elim (find (34 ∷ (key ++ (34 ∷ 58 ∷ true_text))) json) [
  | some rest ↦ some true
  | none ↦ elim (find (34 ∷ (key ++ (34 ∷ 58 ∷ false_text))) json) [
    | some rest ↦ some false
    | none ↦ none
  ]
]

-- The commands that `dispatchCommand` tells apart; `set_dump_enabled` with its parameter.
pub data Command : Type 0 where
  pause_yolo resume_yolo get_status : Command
  set_dump_enabled : Option Bool → Command
  shutdown blackout resume unknown : Command

unfoldable pub same_text : List ℕ → List ℕ → Bool
same_text [] [] = true
same_text (a ∷ s) (b ∷ t) = a == b && same_text s t
same_text _ _ = false

unfoldable pub parse_command : List ℕ → Command
unfolding extract_string extract_bool same_text
parse_command json =
    let cmd = extract_string json cmd_key in
    if same_text cmd pause_yolo_text
    then pause_yolo
    else if same_text cmd resume_yolo_text
    then resume_yolo
    else if same_text cmd get_status_text
    then get_status
    else if same_text cmd set_dump_enabled_text
    then set_dump_enabled (extract_bool json enabled_key)
    else if same_text cmd shutdown_text
    then shutdown
    else if same_text cmd blackout_text
    then blackout
    else if same_text cmd resume_text
    then resume
    else unknown

-- What a command stores in the shared state before its handler answers or waits.
unfoldable pub request : Command → YoloControlState → YoloControlState
request pause_yolo s = record s { inference_enabled = false }
request resume_yolo s = record s { inference_enabled = true }
request get_status s = s
request (set_dump_enabled none) s = s
request (set_dump_enabled (some enabled)) s = record s { dump_enabled = enabled }
request shutdown s = record s { shutdown_requested = true }
request blackout s = record s { inference_enabled = false; blackout_requested = true }
request resume s = if s.blackout_active then record s { resume_requested = true } else s
request unknown s = s

-- Whether the handler then waits for the main loop, and the flag that it waits for.
unfoldable pub waits : Command → YoloControlState → Bool
waits blackout before = true
waits resume before = before.blackout_active
waits _ before = false

unfoldable pub awaited : Command → YoloControlState → Bool
awaited blackout s = s.blackout_active
awaited resume s = s.resume_done
awaited _ s = false

-- The state at the end of the handler: `meanwhile` is what the other threads do during a wait.
unfoldable pub settled :
    (YoloControlState → YoloControlState) → Command → YoloControlState → YoloControlState
unfolding waits request
settled meanwhile c before =
    if waits c before then meanwhile (request c before) else request c before

pub data Response : Type 0 where
  ok : Response
  status : (inference_enabled dump_enabled : Bool) → (frame_id queue_depth : ℕ) → Response
  missing_enabled blackout_timeout not_in_blackout resume_timeout unknown_command : Response

-- The answer: `before` is the state in which the handler starts, `seen` whether a wait ends with
-- its flag set.
unfoldable pub answer : Command → YoloControlState → Bool → ℕ → Response
answer pause_yolo before seen depth = ok
answer resume_yolo before seen depth = ok
answer get_status before seen depth =
    status before.inference_enabled before.dump_enabled before.frame_id depth
answer (set_dump_enabled none) before seen depth = missing_enabled
answer (set_dump_enabled (some enabled)) before seen depth = ok
answer shutdown before seen depth = ok
answer blackout before seen depth = if seen then ok else blackout_timeout
answer resume before seen depth =
    if before.blackout_active then (if seen then ok else resume_timeout) else not_in_blackout
answer unknown before seen depth = unknown_command

-- `recvMsg`, with `none` for the empty string, and `sendMsg`
unfoldable pub recv_msg : Input → Option (List ℕ × Input)
recv_msg input = elim (read_exact 4 input) [
  | none ↦ none
  | some (prefix, rest) ↦
      let len : ℕ = (word 4 prefix).0 in
      if len == 0 || ltb (2 ^ 20) len then none else read_exact len rest
]

unfoldable pub send_msg : List ℕ → List ℕ → Sent
send_msg msg sends = and_then (write_exact (le 4 (length msg % 2 ^ 32)) sends) (write_exact msg)

-- `buildCommand` of tools/control_client.cc, from the arguments after the device; `none` is its
-- usage error.
unfoldable pub build_command : List ℕ → List (List ℕ) → Option (List ℕ)
unfolding same_text
build_command cmd [] =
    if same_text cmd set_dump_enabled_text
    then none
    else some (open_request ++ (cmd ++ close_request))
build_command cmd (arg ∷ args) =
    if same_text cmd set_dump_enabled_text
    then some (
        enabled_middle
        ++ ((if same_text arg true_text || same_text arg (49 ∷ []) then true_text else false_text)
            ++ close_params))
    else some (open_request ++ (cmd ++ close_request))
