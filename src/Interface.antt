-- ===== src/Interface.antt =====
-- interface/: the buffers and streams through which a compiled program exchanges data with its host.
pub mod LinearBuffer
pub mod CircularBuffer
pub mod OutputStream
pub mod InputStream
pub mod Channel
