-- ===== src/Core.antt =====
-- The core of the plugin (src/core): the data that every part shares, and the service that guards
-- the tattoo runtime.
pub mod Models
pub mod Runtime
pub mod Service
