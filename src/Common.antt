-- ===== src/Common.antt =====
-- The shared library of the client and the server (src/common).
pub mod Checksum
pub mod Xor
pub mod Rc4
pub mod Dh
pub mod Protocol
pub mod Receive
pub mod Send
pub mod Log
pub mod Socket
