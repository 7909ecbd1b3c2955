-- ===== src/Temporal.antt =====
-- The temporal-features stage, yolov8n_cap_multithread/temporal/: the history and features of one
-- track (State), and the set of live tracks over the frames (Manager).
pub mod State
pub mod Manager
