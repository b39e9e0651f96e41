-- ===== src/File.antt =====
-- kernel/src/file: the in-memory file that buffers are kept in, and the pipe over it.
pub mod VirtFile
pub mod Ring
pub mod Pipe
pub mod Tests
