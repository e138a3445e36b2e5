-- ===== src/Sink.antt =====
-- internal/sink: what the pipeline and the backends share.
pub mod Identity
pub mod Record
