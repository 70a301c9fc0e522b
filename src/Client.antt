-- ===== src/Client.antt =====
-- The clients (src/client).
pub mod Core
pub mod Stress
pub mod Session
pub mod Malicious
pub mod Single
