-- ===== src/Summarizer/Receive.antt =====
-- `recv_frame` of yolov8n_cap_multithread/tools/event_summarizer.cc: a frame of the events socket, or the reason why
-- there is none. `quiet` says that the first `read` times out; a later one that does is a failed
-- read like any other.
pub mod Frame
use khadas_yolov8n_multithre.Prelude.{
  ℕ, ◌-◌, Bool, true, false, Option, none, some, List, ◌++◌, map, ltb, ◌==◌, if◌then◌else◌, length,
}
use khadas_yolov8n_multithre.Stream.{Input, read, read_exact}
use khadas_yolov8n_multithre.Wire.{
  WireFrameHeader, WireTrackSummary, header_size, summary_size, decode_header, decode_summary, word,
}
use khadas_yolov8n_multithre.Frames.{read_records}

-- `RecvResult`, with the records of a frame and the input behind it
pub data RecvResult : Type 0 where
  frame : List WireTrackSummary → Input → RecvResult
  timeout : RecvResult
  disconnect : RecvResult

recv_body : List (List ℕ) × Option Input → RecvResult
recv_body (records, none) = disconnect
recv_body (records, some left) = frame (map decode_summary records) left

recv_header : Input → RecvResult
unfolding recv_body
recv_header input = elim (read_exact header_size input) [
  | none ↦ disconnect
  | some (bytes, rest) ↦ recv_body (read_records (decode_header bytes).count summary_size rest)
]

-- What follows the length, which must leave room for a header and is not looked at again.
recv_rest : List ℕ → Input → RecvResult
unfolding recv_header
recv_rest prefix rest = if ltb (word 4 prefix).0 header_size then disconnect else recv_header rest

-- The bytes of the length that the first `read` did not give.
recv_prefix : List ℕ → Input → RecvResult
unfolding recv_rest
recv_prefix got rest =
    if length got == 4 then recv_rest got rest else elim (read_exact (4 - length got) rest) [
      | none ↦ disconnect
      | some (more, left) ↦ recv_rest (got ++ more) left
    ]

pub recv_frame : Bool → Input → RecvResult
unfolding recv_prefix
recv_frame true input = timeout
recv_frame false input =
    let (got, rest) = read 4 input in if length got == 0 then disconnect else recv_prefix got rest
