-- ===== src/Tests.antt =====
-- Concrete runs of yolov8n_cap_multithread, one for each theorem that has conditions or parameters.
mod Fixed
mod Threads
mod Planes
mod Tracks
mod Parts
mod Exchange
mod Sorting
mod Board
mod Handshake
