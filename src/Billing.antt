-- ===== src/Billing.antt =====
-- Billing: the tables of apps/billing and the services of services/billing.
pub mod Models
pub mod Folio
pub mod Invoice
pub mod Audit
