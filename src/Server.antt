-- ===== src/Server.antt =====
-- The server (src/server) and the data that its processes share.
pub mod Double
pub mod State
pub mod Dispatch
pub mod Pricing
pub mod RateLimit
pub mod Resource
pub mod Ride
pub mod Pathfinding
pub mod MapMonitor
pub mod MapView
pub mod Screen
pub mod Start
pub mod Coordinator
pub mod Ipc
pub mod Dump
pub mod Dispatcher
pub mod InsecureDispatcher
pub mod System
pub mod Processes
pub mod Main
