-- ===== src/Controller.antt =====
-- The reconciler (internal/controller) over the Automation resource (api/v1alpha1): which levels an
-- Automation asks of its targets, and how one target is brought to the level that all agree on.
pub mod Automation
pub mod Handlers
pub mod Claims
pub mod Evaluate
pub mod Peers
pub mod Cluster
pub mod Holding
pub mod Target
pub mod Finalizer
pub mod Sweep
pub mod Retry
pub mod Edges
pub mod Reconcile
pub mod Poller
