-- ===== src/Streams.antt =====
-- wruster/src/streams: what the server wraps around a stream.
pub mod Base
pub mod Timeout
pub mod Observed
pub mod Cancellable
pub mod Tls
pub mod Wrapped
