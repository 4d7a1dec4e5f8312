-- ===== src/Reception.antt =====
-- services/reception and apps/reception: the conversations of the digital receptionist.
pub mod Models
pub mod Language
pub mod Guardrails
pub mod Guidance
pub mod Words
pub mod Turns
pub mod Offers
pub mod Agent
pub mod Confirm
pub mod BookingTurn
pub mod Respond
