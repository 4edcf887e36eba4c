-- ===== src/Tests.antt =====
-- Tests on concrete inputs, and each theorem applied to one.
pub mod Sample
mod Building
mod Bindings
mod Loading
mod Events
mod Requests
mod Devices
mod Starting
mod Editing
mod Sockets
mod Relaying
mod Threads
mod Commands
