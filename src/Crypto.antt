-- ===== src/Crypto.antt =====
-- shared/sha256.h and shared/hmac_sha256.h.
pub mod Sha256
pub mod Hmac
pub mod Compare
