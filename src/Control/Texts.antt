-- ===== src/Control/Texts.antt =====
-- The response texts of the control server, as bytes, from yolov8n_cap_multithread/src/ipc/unix_control_server.cc.
use khadas_yolov8n_multithre.Prelude.{
  ℕ, zero, suc, ◌+◌, ◌/◌, ◌%◌, ◌≤◌, ◌<◌, Bool, List, [], ◌∷◌, ◌++◌, arith, length, take,
  length-take, if◌then◌else◌, ltb,
}
use khadas_yolov8n_multithre.Control.Words.{true_text, false_text}

-- `{"ok":true}`
abbrev pub ok_text : List ℕ
ok_text = 123 ∷ 34 ∷ 111 ∷ 107 ∷ 34 ∷ 58 ∷ 116 ∷ 114 ∷ 117 ∷ 101 ∷ 125 ∷ []

-- `{"ok":false,"error":"`
abbrev pub open_error : List ℕ
open_error =
    123 ∷ 34 ∷ 111 ∷ 107 ∷ 34 ∷ 58 ∷ 102 ∷ 97 ∷ 108 ∷ 115 ∷ 101 ∷ 44 ∷ 34 ∷ 101 ∷ 114 ∷ 114 ∷ 111
    ∷ 114 ∷ 34 ∷ 58 ∷ 34 ∷ []

-- `"}`
abbrev pub close_error : List ℕ
close_error = 34 ∷ 125 ∷ []

-- "missing `enabled` param (expected true/false)"
abbrev pub missing_text : List ℕ
missing_text =
    109 ∷ 105 ∷ 115 ∷ 115 ∷ 105 ∷ 110 ∷ 103 ∷ 32 ∷ 39 ∷ 101 ∷ 110 ∷ 97 ∷ 98 ∷ 108 ∷ 101 ∷ 100 ∷ 39
    ∷ 32 ∷ 112 ∷ 97 ∷ 114 ∷ 97 ∷ 109 ∷ 32 ∷ 40 ∷ 101 ∷ 120 ∷ 112 ∷ 101 ∷ 99 ∷ 116 ∷ 101 ∷ 100 ∷ 32
    ∷ 116 ∷ 114 ∷ 117 ∷ 101 ∷ 47 ∷ 102 ∷ 97 ∷ 108 ∷ 115 ∷ 101 ∷ 41 ∷ []

-- `blackout timeout`
abbrev pub blackout_timeout_text : List ℕ
blackout_timeout_text =
    98 ∷ 108 ∷ 97 ∷ 99 ∷ 107 ∷ 111 ∷ 117 ∷ 116 ∷ 32 ∷ 116 ∷ 105 ∷ 109 ∷ 101 ∷ 111 ∷ 117 ∷ 116 ∷ []

-- `not in blackout`
abbrev pub not_in_blackout_text : List ℕ
not_in_blackout_text =
    110 ∷ 111 ∷ 116 ∷ 32 ∷ 105 ∷ 110 ∷ 32 ∷ 98 ∷ 108 ∷ 97 ∷ 99 ∷ 107 ∷ 111 ∷ 117 ∷ 116 ∷ []

-- `resume timeout`
abbrev pub resume_timeout_text : List ℕ
resume_timeout_text =
    114 ∷ 101 ∷ 115 ∷ 117 ∷ 109 ∷ 101 ∷ 32 ∷ 116 ∷ 105 ∷ 109 ∷ 101 ∷ 111 ∷ 117 ∷ 116 ∷ []

-- `unknown command`
abbrev pub unknown_text : List ℕ
unknown_text =
    117 ∷ 110 ∷ 107 ∷ 110 ∷ 111 ∷ 119 ∷ 110 ∷ 32 ∷ 99 ∷ 111 ∷ 109 ∷ 109 ∷ 97 ∷ 110 ∷ 100 ∷ []

-- `{"ok":true,"payload":{"inference_enabled":`
abbrev pub open_status : List ℕ
open_status =
    123 ∷ 34 ∷ 111 ∷ 107 ∷ 34 ∷ 58 ∷ 116 ∷ 114 ∷ 117 ∷ 101 ∷ 44 ∷ 34 ∷ 112 ∷ 97 ∷ 121 ∷ 108 ∷ 111
    ∷ 97 ∷ 100 ∷ 34 ∷ 58 ∷ 123 ∷ 34 ∷ 105 ∷ 110 ∷ 102 ∷ 101 ∷ 114 ∷ 101 ∷ 110 ∷ 99 ∷ 101 ∷ 95 ∷ 101
    ∷ 110 ∷ 97 ∷ 98 ∷ 108 ∷ 101 ∷ 100 ∷ 34 ∷ 58 ∷ []

-- `,"dump_enabled":`
abbrev pub dump_part : List ℕ
dump_part =
    44 ∷ 34 ∷ 100 ∷ 117 ∷ 109 ∷ 112 ∷ 95 ∷ 101 ∷ 110 ∷ 97 ∷ 98 ∷ 108 ∷ 101 ∷ 100 ∷ 34 ∷ 58 ∷ []

-- `,"frame_id":`
abbrev pub frame_part : List ℕ
frame_part = 44 ∷ 34 ∷ 102 ∷ 114 ∷ 97 ∷ 109 ∷ 101 ∷ 95 ∷ 105 ∷ 100 ∷ 34 ∷ 58 ∷ []

-- `,"queue_depth":`
abbrev pub depth_part : List ℕ
depth_part = 44 ∷ 34 ∷ 113 ∷ 117 ∷ 101 ∷ 117 ∷ 101 ∷ 95 ∷ 100 ∷ 101 ∷ 112 ∷ 116 ∷ 104 ∷ 34 ∷ 58 ∷ []

-- `,"fps":`
abbrev pub fps_part : List ℕ
fps_part = 44 ∷ 34 ∷ 102 ∷ 112 ∷ 115 ∷ 34 ∷ 58 ∷ []

-- `}}`
abbrev pub close_status : List ℕ
close_status = 125 ∷ 125 ∷ []

-- `%llu` and `%zu`: the digits of `n` in front of `acc`, at most 20 of them.
digits : ℕ → ℕ → List ℕ → List ℕ
digits zero n acc = acc
digits (suc fuel) n acc =
    let more = digits fuel (n / 10) ((48 + n % 10) ∷ acc) in
    if ltb n 10 then (48 + n) ∷ acc else more

unfoldable pub decimal : ℕ → List ℕ
unfolding digits
decimal n = digits 20 n []

unfoldable pub bool_text : Bool → List ℕ
bool_text b = if b then true_text else false_text

-- `errResponse`
unfoldable pub err_response : List ℕ → List ℕ
err_response msg = open_error ++ (msg ++ close_error)

-- The text of `get_status`; `fps` is that of `%.1f`.
whole_status : Bool → Bool → ℕ → ℕ → List ℕ → List ℕ
unfolding bool_text decimal
whole_status inference dump frame_id depth fps =
    open_status
    ++ (bool_text inference
        ++ (dump_part
            ++ (bool_text dump
                ++ (frame_part
                    ++ (decimal frame_id
                        ++ (depth_part
                            ++ (decimal depth ++ (fps_part ++ (fps ++ close_status)))))))))

-- `snprintf` into a `char[320]`
unfoldable pub status_text : Bool → Bool → ℕ → ℕ → List ℕ → List ℕ
unfolding whole_status
status_text inference dump frame_id depth fps =
    take 319 (whole_status inference dump frame_id depth fps)

pub status_text_bounds :
    (inference dump : Bool) (frame_id depth : ℕ) (fps : List ℕ)
    → let n : ℕ = length (status_text inference dump frame_id depth fps) in (0 < n) × (n ≤ 319)
unfolding status_text
status_text_bounds inference dump frame_id depth fps =
    (omega arith, omega (arith, length-take 319 (whole_status inference dump frame_id depth fps)))
