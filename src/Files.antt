-- ===== src/Files.antt =====
-- The files of records: the buffered writer of internal/asyncbufio, the LJH files of internal/ljh
-- and the OFF files of internal/off.
pub mod AsyncFile
pub mod Ljh
pub mod Off
mod Runs
