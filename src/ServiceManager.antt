-- ===== src/ServiceManager.antt =====
-- FreeTAKServer/controllers/services/FTS.py: the process that starts and stops the services, and
-- the queues over which they share data.
pub mod FilterGroup
pub mod State
pub mod Starting
pub mod Stopping
pub mod StartAll
pub mod Services
pub mod Sound
pub mod Reached
pub mod Crossed
pub mod Users
pub mod Queues
pub mod Pipes
pub mod Commands
pub mod Examples
