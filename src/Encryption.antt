-- ===== src/Encryption.antt =====
-- gday_encryption/src: a byte stream in encrypted frames.
pub mod HelperBuf
pub mod Frame
pub mod Writer
pub mod Reader
pub mod RoundTrip
pub mod Session
mod Tests
