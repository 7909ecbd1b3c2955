-- ===== src/Control/Server/Exchange.antt =====
-- A whole exchange between the control client and the server.
use khadas_yolov8n_multithre.Prelude.{
  ℕ, ◌≤◌, ◌<◌, ◌^◌, ◌≡◌, refl, sym, ap, subst, ◌∙◌, true, none, some, List, [], ◌∷◌, append-nil,
  arith, length,
}
use khadas_yolov8n_multithre.Stream.{Input}
use khadas_yolov8n_multithre.Stream.Read.{flat, Lively}
use khadas_yolov8n_multithre.Control.{
  YoloControlState, Command, parse_command, settled, awaited, Response, answer, send_msg,
  build_command,
}
use khadas_yolov8n_multithre.Control.Parse.{recv-send_msg}
use khadas_yolov8n_multithre.Control.Texts.{err_response, status_text_bounds}
use khadas_yolov8n_multithre.Control.Server.{
  Env, Served, response_text, dispatch_command, handle_connection, client_main, client_sends,
  client_reads,
}
use khadas_yolov8n_multithre.Control.Server.Agree.{command_line, Sendable, parse-build_command}

-- Every response is a message that the client takes.
response_bounds :
    (fps : List ℕ) (r : Response)
    → (0 < length (response_text fps r)) × (length (response_text fps r) ≤ 2 ^ 20)
unfolding response_text err_response
response_bounds fps Response.ok = omega arith
response_bounds fps (Response.status inference dump frame_id depth) =
    omega (arith, status_text_bounds inference dump frame_id depth fps)
response_bounds fps Response.missing_enabled = omega arith
response_bounds fps Response.blackout_timeout = omega arith
response_bounds fps Response.not_in_blackout = omega arith
response_bounds fps Response.resume_timeout = omega arith
response_bounds fps Response.unknown_command = omega arith

-- The request that the client builds from its arguments.
abbrev pub built : List (List ℕ) → List ℕ
built [] = []
built (cmd ∷ args) = elim (build_command cmd args) [ none ↦ [] | some json ↦ json ]

abbrev served_as : YoloControlState → List ℕ → Served
served_as after bytes = record { state = after; bytes = bytes }

-- One round of the server on a request that was sent whole.
serve_one :
    (e : Env) (s : YoloControlState) (json sends server_sends : List ℕ) (input : Input)
    → e.running ≡ true
    → 0 < length json
    → length json ≤ 2 ^ 20
    → (send_msg json sends).ok ≡ true
    → Lively input
    → flat input ≡ (send_msg json sends).bytes
    → let (after, resp) = dispatch_command e json (e.others s) in
      (send_msg resp server_sends).ok ≡ true
      → handle_connection (e ∷ []) input server_sends s
        ≡ record { state = after; bytes = (send_msg resp server_sends).bytes }
unfolding handle_connection
serve_one e s json sends server_sends input running some_bytes few sent v i answered =
    let (left, got, _) =
      recv-send_msg json sends [] input some_bytes few sent v
        (i ∙ sym (append-nil (send_msg json sends).bytes)) in
    let (after, resp) = dispatch_command e json (e.others s) in
    rw (running, got, answered)
      (ap (λ (bs : List ℕ). served_as after bs) (append-nil (send_msg resp server_sends).bytes))

client_one :
    (json sends : List ℕ) (resp server_sends : List ℕ) (input : Input)
    → 0 < length resp
    → length resp ≤ 2 ^ 20
    → (send_msg json sends).ok ≡ true
    → (send_msg resp server_sends).ok ≡ true
    → Lively input
    → flat input ≡ (send_msg resp server_sends).bytes
    → client_sends json sends input
      ≡ record { code = 0; bytes = (send_msg json sends).bytes; printed = some resp }
unfolding client_sends client_reads
client_one json sends resp server_sends input some_bytes few sent answered v i =
    let (left, got, _) =
      recv-send_msg resp server_sends [] input some_bytes few answered v
        (i ∙ sym (append-nil (send_msg resp server_sends).bytes)) in
    rw (sent, got, client_reads) refl

-- A whole exchange, for every command that the client can send: when both messages are sent whole
-- and arrive in any pieces, the client ends well and prints the answer of exactly this command. The
-- state is then the one that the command asks for of the state that the other threads had left, or,
-- where the handler waits for the main loop, what the other threads make of that; and a handler that
-- waits answers by its flag in this state.
pub client_main-handle_connection :
    (c : Command) (e : Env) (s : YoloControlState) (sends server_sends : List ℕ)
    (to_server to_client : Input)
    → Sendable c
    → e.running ≡ true
    → let json = built (command_line c) in
      let after = settled e.meanwhile c (e.others s) in
      let resp = response_text e.fps (answer c (e.others s) (awaited c after) e.depth) in
      let served = handle_connection (e ∷ []) to_server server_sends s in
      (send_msg json sends).ok ≡ true
      → (send_msg resp server_sends).ok ≡ true
      → Lively to_server
      → Lively to_client
      → flat to_server ≡ (send_msg json sends).bytes
      → flat to_client ≡ served.bytes
      → (client_main (command_line c) sends to_client
          ≡ record { code = 0; bytes = (send_msg json sends).bytes; printed = some resp })
        × (served.state ≡ after)
unfolding client_main dispatch_command
client_main-handle_connection c e s sends server_sends to_server to_client ok running sent answered
      v w i o =
    let (cmd, args, json, line, build, parse, some_bytes, few) = parse-build_command c ok in
    let asked = built (command_line c) in
    let before = e.others s in
    let after = settled e.meanwhile c before in
    let resp = response_text e.fps (answer c before (awaited c after) e.depth) in
    let whole : built (cmd ∷ args) ≡ json = rw (build, built) refl in
    let same : json ≡ asked = sym (ap built line ∙ whole) in
    let read_back : parse_command asked ≡ c = ap parse_command (sym same) ∙ parse in
    let dispatched : dispatch_command e asked before ≡ (after, resp) =
      ap
        (λ k.
          let done = settled e.meanwhile k before in
          (done, response_text e.fps (answer k before (awaited k done) e.depth)))
        read_back in
    let served =
      serve_one e s asked sends server_sends to_server running
        (subst (λ j. 0 < length j) same some_bytes) (subst (λ j. length j ≤ 2 ^ 20) same few) sent v
        i
        (ap (λ (d : YoloControlState × List ℕ). (send_msg d.1 server_sends).ok) dispatched
          ∙ answered) in
    let run : client_main (cmd ∷ args) sends to_client ≡ client_sends json sends to_client =
      rw (build, client_main) refl in
    let bounds = response_bounds e.fps (answer c before (awaited c after) e.depth) in
    (
      ap (λ l. client_main l sends to_client) line
          ∙ run
          ∙ ap (λ j. client_sends j sends to_client) same
          ∙ client_one asked sends resp server_sends to_client bounds.0 bounds.1 sent answered w (
              o
              ∙ ap (λ (r : Served). r.bytes) served
              ∙ ap (λ (d : YoloControlState × List ℕ). (send_msg d.1 server_sends).bytes)
                  dispatched),
      ap (λ (r : Served). r.state) served ∙ ap (λ (d : YoloControlState × List ℕ). d.0) dispatched,
    )
