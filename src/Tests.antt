-- ===== src/Tests.antt =====
-- Runs of the model at concrete inputs, and each theorem at an input that meets its hypotheses.
mod Arbiter
mod Store
mod Claims
mod Targets
mod Unifi
mod Actions
mod Write
mod Reconcile
mod Adopt
