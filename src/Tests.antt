-- ===== src/Tests.antt =====
-- The theorems at concrete inputs, and runs of the definitions.
mod Signals
mod Planning
mod Wire
mod Frames
mod Peers
mod Routes
mod Rendezvous
mod Sessions
mod Bootstraps
mod Clients
mod Servers
mod Mobiles
mod Consoles
mod Connects
