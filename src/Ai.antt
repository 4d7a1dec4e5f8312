-- ===== src/Ai.antt =====
-- services/ai and the tables of apps/ai_center: which model answers, what it costs, and the calls.
pub mod Models
pub mod Registry
pub mod Metering
pub mod Gateway
