-- ===== src/Pricing.antt =====
-- Pricing: the Claude price table, and the pricing models of the providers.
pub mod Claude
pub mod Oracle
pub mod Repository
pub mod Service
