-- ===== src/System.antt =====
-- What surrounds the program: the disk and the processes that it starts.
pub mod Disk
