-- ===== src/Lib.antt =====
-- The program of yolov8n_cap_multithread/ is a set of processes on one board: the pipeline captures camera
-- frames, runs a detector on three NPU threads and publishes detections; a tracker service turns them
-- into tracks; a temporal service turns tracks into per-track summaries; the event summarizer watches
-- these, and when a drone has been gone for a while takes the NPU from the pipelines for a language
-- model and gives it back. They talk over Unix sockets in length-prefixed frames.
--
-- Files, with paths from yolov8n_cap_multithread/:
--   Prelude      shared names, tests, lists, integers, C strings, maps, and `float` as an interface
--   Queue        include/ipc/bounded_queue.h: BoundedQueue with push, pop and close
--   Wire         include/ipc/wire_protocol.h: the packed structs and their bytes
--   Stream       readExact and writeExact, as src/ipc/unix_control_server.cc and the services repeat them
--   Frames       src/ipc/unix_data_publisher.cc (sendFrame, senderLoop), send_tracks of tracker/src/bytetrack_service.cc,
--                and the reading of frames in the frame loops
--   Tracker      tracker/src/iou_tracker.cc: IouTracker::update
--   Temporal     temporal/src/track_state.cc (State) and track_manager.cc (Manager)
--   Services     the frame loops of bytetrack_service.cc and temporal_service.cc, one round at a time
--   Control      src/ipc/unix_control_server.cc, include/ipc/yolo_control_state.h, tools/control_client.cc;
--                its connections and the client's main are Control.Server
--   Pipeline     src/main.cc: BufPool, TSQueue, inference_thread and the main loop with its blackout; its drawing, its
--                statistics, release_rknpu_fds and the model's dimensions (Board); the handlers of
--                blackout and resume in src/ipc/unix_control_server.cc beside it (Handshake)
--   Summarizer   tools/event_summarizer.cc: recv_frame (Receive), send_control (Commands), update_aggregate and
--                the state machine of main, with what it does over many rounds (Cycles)
--   Receivers    the receive loops of tools/data_receiver.cc, tracks_receiver.cc and events_receiver.cc
--   Postprocess  src/postprocess.cc: process (Candidates), quick_sort_indice_inverse (Sort), CalculateOverlap, nms and
--                the filling of the result group, the label file (Labels), and post_process (Whole)
--   Drawing      src/rga_func.cc: draw_box_sw, and the sizes of rga_letterbox_rgb
--   Display      src/rtsp_stream.cc (Rtsp) and src/local_display.cc (Window): the GStreamer objects that they own
--   Camera       src/camera_util.cc: the buffers shared with the driver
--   Sockets      the descriptors of bytetrack_service.cc and temporal_service.cc (bind_output, connect_input, try_accept,
--                main) and of UnixControlServer and UnixDataPublisher (start, stop)
--   Tests        concrete runs
--
-- How the code is modelled. The shared state of the pipeline is one record, and a schedule is a list of
-- thread steps and control requests in any order; a thread that waits does nothing in its step. Sockets
-- are data: the pieces in which input arrives and the number of bytes that each send accepts. Unsigned
-- integers wrap around where the code lets them; `int` coordinates are unbounded integers. A `float` is
-- a type with the operations that the code calls, of which only the laws of comparison are used; on the
-- wire it is its bit pattern. Strings are lists of bytes. The unordered maps of the temporal service and
-- the map of the summarizer are association lists.
--
-- Fuel. read_loop gets one unit more than the bytes asked for, and each of its rounds reads at least one
-- byte; match_loop gets one unit more than there are detections, and each of its rounds matches one. The
-- sort gets one unit more than its segment is long, and its loop around the key the segment's end,
-- which each round comes nearer; a receiver gets one unit more than there are messages.
--
-- Not modelled: the RGA, RKNN and GStreamer calls, whose results enter as arguments; addresses and
-- flags of sockets; option parsing and the number formats of printed texts. When the joins of the two server
-- threads in the teardown return, and whether a command of the summarizer gets through, are arguments.
pub mod Prelude
pub mod Queue
pub mod Wire
pub mod Stream
pub mod Sockets
pub mod Tracker
pub mod Frames
pub mod Temporal
pub mod Services
pub mod Receivers
pub mod Control
pub mod Pipeline
pub mod Summarizer
pub mod Postprocess
pub mod Drawing
pub mod Display
pub mod Tests
pub mod Camera
