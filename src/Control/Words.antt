-- ===== src/Control/Words.antt =====
-- The command names and keys of the control plane, as bytes, from yolov8n_cap_multithread/src/ipc/unix_control_server.cc
-- and tools/control_client.cc.
use khadas_yolov8n_multithre.Prelude.{ℕ, List, [], ◌∷◌}

-- "pause_yolo"
abbrev pub pause_yolo_text : List ℕ
pause_yolo_text = 112 ∷ 97 ∷ 117 ∷ 115 ∷ 101 ∷ 95 ∷ 121 ∷ 111 ∷ 108 ∷ 111 ∷ []

-- "resume_yolo"
abbrev pub resume_yolo_text : List ℕ
resume_yolo_text = 114 ∷ 101 ∷ 115 ∷ 117 ∷ 109 ∷ 101 ∷ 95 ∷ 121 ∷ 111 ∷ 108 ∷ 111 ∷ []

-- "get_status"
abbrev pub get_status_text : List ℕ
get_status_text = 103 ∷ 101 ∷ 116 ∷ 95 ∷ 115 ∷ 116 ∷ 97 ∷ 116 ∷ 117 ∷ 115 ∷ []

-- "set_dump_enabled"
abbrev pub set_dump_enabled_text : List ℕ
set_dump_enabled_text =
    115 ∷ 101 ∷ 116 ∷ 95 ∷ 100 ∷ 117 ∷ 109 ∷ 112 ∷ 95 ∷ 101 ∷ 110 ∷ 97 ∷ 98 ∷ 108 ∷ 101 ∷ 100 ∷ []

-- "shutdown"
abbrev pub shutdown_text : List ℕ
shutdown_text = 115 ∷ 104 ∷ 117 ∷ 116 ∷ 100 ∷ 111 ∷ 119 ∷ 110 ∷ []

-- "blackout"
abbrev pub blackout_text : List ℕ
blackout_text = 98 ∷ 108 ∷ 97 ∷ 99 ∷ 107 ∷ 111 ∷ 117 ∷ 116 ∷ []

-- "resume"
abbrev pub resume_text : List ℕ
resume_text = 114 ∷ 101 ∷ 115 ∷ 117 ∷ 109 ∷ 101 ∷ []

-- "cmd"
abbrev pub cmd_key : List ℕ
cmd_key = 99 ∷ 109 ∷ 100 ∷ []

-- "enabled"
abbrev pub enabled_key : List ℕ
enabled_key = 101 ∷ 110 ∷ 97 ∷ 98 ∷ 108 ∷ 101 ∷ 100 ∷ []

-- "true"
abbrev pub true_text : List ℕ
true_text = 116 ∷ 114 ∷ 117 ∷ 101 ∷ []

-- "false"
abbrev pub false_text : List ℕ
false_text = 102 ∷ 97 ∷ 108 ∷ 115 ∷ 101 ∷ []

-- The parts of a request that the client puts around a command name and around `enabled`.
abbrev pub open_request : List ℕ
open_request = 123 ∷ 34 ∷ 99 ∷ 109 ∷ 100 ∷ 34 ∷ 58 ∷ 34 ∷ []

abbrev pub close_request : List ℕ
close_request = 34 ∷ 125 ∷ []

abbrev pub enabled_middle : List ℕ
enabled_middle =
    123 ∷ 34 ∷ 99 ∷ 109 ∷ 100 ∷ 34 ∷ 58 ∷ 34 ∷ 115 ∷ 101 ∷ 116 ∷ 95 ∷ 100 ∷ 117 ∷ 109 ∷ 112 ∷ 95
    ∷ 101 ∷ 110 ∷ 97 ∷ 98 ∷ 108 ∷ 101 ∷ 100 ∷ 34 ∷ 44 ∷ 34 ∷ 112 ∷ 97 ∷ 114 ∷ 97 ∷ 109 ∷ 115 ∷ 34
    ∷ 58 ∷ 123 ∷ 34 ∷ 101 ∷ 110 ∷ 97 ∷ 98 ∷ 108 ∷ 101 ∷ 100 ∷ 34 ∷ 58 ∷ []

abbrev pub close_params : List ℕ
close_params = 125 ∷ 125 ∷ []
