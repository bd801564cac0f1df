-- ===== src/Tests.antt =====
-- Concrete instances of what the model takes as a parameter, and each theorem at a concrete input.
pub mod Fixed
pub mod Cases
mod Levels
mod Controller
mod Flights
mod Window
pub mod Store
mod Shared
mod Settings
pub mod Server
mod Requests
mod Adaptation
mod Backend
pub mod Change
mod Runs
mod Locks
mod Origins
mod Repeats
mod Writers
mod Fleet
mod Cleared
mod Routed
