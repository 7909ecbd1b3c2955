-- ===== src/Tests/Handshake.antt =====
-- A blackout of yolov8n_cap_multithread, from its request to the answer.
use khadas_yolov8n_multithre.Prelude.{refl, true, List, [], ◌∷◌, ◌++◌, replicate}
use khadas_yolov8n_multithre.Control.{blackout, request}
use khadas_yolov8n_multithre.Pipeline.{empty_group, Outside, start}
use khadas_yolov8n_multithre.Pipeline.Handshake.{
  Move, main_moves, worker_moves, begins, controlled, moves,
}
use khadas_yolov8n_multithre.Pipeline.Handshake.Honest.{Promise, moves-Promise}

abbrev outside : Outside
outside = record { scale_w = 1; scale_h = 1; now_us = 5; init_ok = true; servers_ended = true }

abbrev worker_round : List Move
worker_round = worker_moves 1 empty_group 0 ∷ worker_moves 1 empty_group 0 ∷ []

-- Three frames under way come back unused, and the contexts go.
abbrev to_blackout : List Move
to_blackout =
    begins blackout
    ∷ (replicate 8 (main_moves outside)
        ++ (worker_round ++ (worker_round ++ (worker_round ++ replicate 4 (main_moves outside)))))

moves-Promise_example : Promise (moves to_blackout controlled)
unfolding moves start request
moves-Promise_example = moves-Promise to_blackout refl refl
