-- ===== src/Control/Server.antt =====
-- The connections of the control server and its client: handleConnection, listenerLoop and
-- dispatchCommand of yolov8n_cap_multithread/src/ipc/unix_control_server.cc, and `main` of tools/control_client.cc.
pub mod Agree
pub mod Exchange
use khadas_yolov8n_multithre.Prelude.{
  ℕ, Bool, true, false, Option, none, some, List, [], ◌∷◌, ◌++◌, if◌then◌else◌,
}
use khadas_yolov8n_multithre.Stream.{Input, Sent}
use khadas_yolov8n_multithre.Control.{
  YoloControlState, Command, parse_command, settled, awaited, Response, answer, recv_msg, send_msg,
  build_command,
}
use khadas_yolov8n_multithre.Control.Texts.{
  ok_text, err_response, status_text, missing_text, blackout_timeout_text, not_in_blackout_text,
  resume_timeout_text, unknown_text,
}

-- What the rest of the process does around one round of a connection: `others` and `meanwhile` are
-- what the other threads do to the shared state before it and while its handler waits; then the
-- depth of the data queue and the text of the frame rate.
pub record Env : Type 0 where
  pub running : Bool
  pub others : YoloControlState → YoloControlState
  pub meanwhile : YoloControlState → YoloControlState
  pub depth : ℕ
  pub fps : List ℕ

unfoldable pub response_text : List ℕ → Response → List ℕ
response_text fps Response.ok = ok_text
response_text fps (Response.status inference dump frame_id depth) =
    status_text inference dump frame_id depth fps
response_text fps Response.missing_enabled = err_response missing_text
response_text fps Response.blackout_timeout = err_response blackout_timeout_text
response_text fps Response.not_in_blackout = err_response not_in_blackout_text
response_text fps Response.resume_timeout = err_response resume_timeout_text
response_text fps Response.unknown_command = err_response unknown_text

-- The state that a request leaves, and the text that answers it; a wait ends with its flag set, or
-- after its time with the flag tested once more, so the flag in the state that it leaves decides.
unfoldable pub dispatch_command : Env → List ℕ → YoloControlState → YoloControlState × List ℕ
unfolding response_text settled awaited
dispatch_command e json before =
    let c = parse_command json in
    let after = settled e.meanwhile c before in
    (after, response_text e.fps (answer c before (awaited c after) e.depth))

-- A connection: the state it leaves, and the bytes it sent.
pub record Served : Type 0 where
  pub state : YoloControlState
  pub bytes : List ℕ

-- One unit of `envs` for each round; where they end, the run is cut short.
unfoldable pub handle_connection : List Env → Input → List ℕ → YoloControlState → Served
unfolding dispatch_command
handle_connection [] input sends s = record { state = s; bytes = [] }
handle_connection (e ∷ envs) input sends s =
    let before = e.others s in
    let round : Served = elim (recv_msg input) [
      | none ↦ record { state = before; bytes = [] }
      | some (req, left) ↦
          let (after, resp) = dispatch_command e req before in
          let sent = send_msg resp sends in
          let next = handle_connection envs left sent.sends after in
          if sent.ok
          then record next { bytes = sent.bytes ++ next.bytes }
          else record { state = after; bytes = sent.bytes }
    ] in
    if e.running then round else record { state = before; bytes = [] }

-- What `accept` gives, with the life of the connection; `none` is its failure, which ends the loop.
pub record Connection : Type 0 where
  pub envs : List Env
  pub input : Input
  pub sends : List ℕ

pub listener_loop : List (Option Connection) → YoloControlState → YoloControlState
unfolding handle_connection
listener_loop [] s = s
listener_loop (none ∷ conns) s = s
listener_loop (some c ∷ conns) s =
    listener_loop conns (handle_connection c.envs c.input c.sends s).state

-- The client, connected: its exit code, what it sent, and the response that it prints.
pub record Exit : Type 0 where
  pub code : ℕ
  pub bytes : List ℕ
  pub printed : Option (List ℕ)

-- `main`, from the arguments after the device.
client_reads : Sent → Input → Exit
client_reads sent input = elim (recv_msg input) [
  | none ↦ record { code = 1; bytes = sent.bytes; printed = none }
  | some (resp, left) ↦ record { code = 0; bytes = sent.bytes; printed = some resp }
]

client_sends : List ℕ → List ℕ → Input → Exit
unfolding client_reads
client_sends json sends input =
    let sent = send_msg json sends in
    if sent.ok
    then client_reads sent input
    else record { code = 1; bytes = sent.bytes; printed = none }

pub client_main : List (List ℕ) → List ℕ → Input → Exit
unfolding client_sends
client_main [] sends input = record { code = 1; bytes = []; printed = none }
client_main (cmd ∷ args) sends input = elim (build_command cmd args) [
  | none ↦ record { code = 1; bytes = []; printed = none }
  | some json ↦ client_sends json sends input
]
