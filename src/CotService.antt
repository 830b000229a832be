-- ===== src/CotService.antt =====
-- The TCP CoT service (FreeTAKServer/services/tcp_cot_service).
pub mod Wire
pub mod SendData
pub mod ComponentData
pub mod ActiveThreads
pub mod Service
pub mod MainLoop
pub mod Reception
pub mod ReceiveConnections
mod Examples
