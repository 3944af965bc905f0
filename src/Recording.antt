-- ===== src/Recording.antt =====
-- The recorders' buffers: reference/modules/drive_log.py.
pub mod DriveLog
