-- ===== src/Summarizer/Commands.antt =====
-- tools/event_summarizer.cc: send_control, and what the control server reads of its two commands.
use khadas_yolov8n_multithre.Prelude.{
  ℕ, ◌≡◌, refl, ◌∙◌, Bool, true, false, some, List, [], ◌∷◌, append-nil, arith, if◌then◌else◌, sym,
}
use khadas_yolov8n_multithre.Stream.{Input, Sent}
use khadas_yolov8n_multithre.Stream.Read.{Lively, flat}
use khadas_yolov8n_multithre.Control.{blackout, resume, parse_command, recv_msg, send_msg}
use khadas_yolov8n_multithre.Control.Parse.{recv-send_msg}

-- `socket` and `connect`, and the command; the response is read and dropped.
unfoldable pub send_control : Bool → List ℕ → List ℕ → Sent
send_control connects cmd sends =
    if connects then send_msg cmd sends else record { ok = false; bytes = []; sends = sends }

-- {"cmd":"blackout"}
abbrev blackout_json : List ℕ
blackout_json =
    123 ∷ 34 ∷ 99 ∷ 109 ∷ 100 ∷ 34 ∷ 58 ∷ 34 ∷ 98 ∷ 108 ∷ 97 ∷ 99 ∷ 107 ∷ 111 ∷ 117 ∷ 116 ∷ 34 ∷ 125
    ∷ []

-- {"cmd":"resume"}
abbrev resume_json : List ℕ
resume_json =
    123 ∷ 34 ∷ 99 ∷ 109 ∷ 100 ∷ 34 ∷ 58 ∷ 34 ∷ 114 ∷ 101 ∷ 115 ∷ 117 ∷ 109 ∷ 101 ∷ 34 ∷ 125 ∷ []

-- Before the model runs, and behind it.
unfoldable pub command_json : Bool → List ℕ
command_json false = blackout_json
command_json true = resume_json

parsed :
    (behind : Bool) → parse_command (command_json behind) ≡ (if behind then resume else blackout)
unfolding command_json parse_command
parsed false = refl
parsed true = refl

sent_whole :
    (connects behind : Bool) (sends : List ℕ) (input : Input)
    → (send_control connects (command_json behind) sends).ok ≡ true
    → Lively input
    → flat input ≡ (send_control connects (command_json behind) sends).bytes
    → (left : Input) × (recv_msg input ≡ some (command_json behind, left)) × (flat left ≡ [])
unfolding send_control command_json
sent_whole false behind sends input h l e = absurd (cc h)
sent_whole true false sends input h l e =
    recv-send_msg blackout_json sends [] input (omega arith) (omega arith) h l
      (e ∙ sym (append-nil (send_msg blackout_json sends).bytes))
sent_whole true true sends input h l e =
    recv-send_msg resume_json sends [] input (omega arith) (omega arith) h l
      (e ∙ sym (append-nil (send_msg resume_json sends).bytes))

-- When `send_control` succeeds with one of its two commands, the control server, reading what was
-- sent in whatever pieces it comes, gets the text whole and takes it for that command.
pub recv-send_control :
    (connects behind : Bool) (sends : List ℕ) (input : Input)
    → (send_control connects (command_json behind) sends).ok ≡ true
    → Lively input
    → flat input ≡ (send_control connects (command_json behind) sends).bytes
    → (left : Input) × (recv_msg input ≡ some (command_json behind, left))
      × (flat left ≡ [])
      × (parse_command (command_json behind) ≡ (if behind then resume else blackout))
recv-send_control connects behind sends input h l e =
    let (left, got, empty) = sent_whole connects behind sends input h l e in
    (left, got, empty, parsed behind)
