-- ===== src/Unifi.antt =====
-- internal/providers/unifi: how what a console reports becomes the state that Automations match.
pub mod Vocabulary
pub mod Slug
pub mod Device
pub mod Levels
pub mod Fleet
pub mod Draw
pub mod Outlets
pub mod Wan
pub mod Health
pub mod Observe
pub mod Write
