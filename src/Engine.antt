-- ===== src/Engine.antt =====
-- The provider-agnostic core (internal/engine): arbitration of competing claims, and the store of
-- observed state with its debounce.
pub mod Arbiter
pub mod Store
