-- ===== src/CotService/Examples.antt =====
-- The theorems on the TCP CoT service at concrete inputs.
mod Sending
mod Clients
mod Accepting
