-- ===== src/Http.antt =====
-- wruster/src/http: the messages of the protocol, read from and written to bytes.
pub mod Error
pub mod Io
pub mod Chars
pub mod Header
pub mod Headers
pub mod RequestLine
pub mod ResponseLine
pub mod Response
pub mod Body
pub mod Request
pub mod Method
pub mod Status
pub mod Version
