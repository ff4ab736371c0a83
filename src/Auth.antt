-- ===== src/Auth.antt =====
-- src/modules/auth/auth.service.ts: registration, the challenge that a wallet signs, and the sessions.
pub mod Types
pub mod Challenge
pub mod Service
pub mod Signatures
pub mod Schemes
pub mod Nonces
pub mod OwnChallenge
pub mod RoundTrip
pub mod Sessions
pub mod Rotation
pub mod Refresh
pub mod Registration
mod Tests
