-- ===== src/Examples.antt =====
-- The theorems at concrete inputs.
mod Common
mod Server
mod Map
mod Monitor
mod Dispatcher
mod Client
mod Host
mod System
mod Limit
mod Screen
