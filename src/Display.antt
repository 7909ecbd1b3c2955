-- ===== src/Display.antt =====
-- The outputs of yolov8n_cap_multithread: src/rtsp_stream.cc and src/local_display.cc, as far as they own GStreamer
-- objects. An element is a number, and `held` has one entry for each reference that the program owns, so that
-- `gst_object_unref` is `remove`.
-- A step is what one thread does under the mutex, or between two uses of it.
pub mod Rtsp
pub mod Window
