-- ===== src/Actions.antt =====
-- internal/actions: requests that leave the cluster.
pub mod Destination
pub mod Exchange
pub mod Client
pub mod Credentials
