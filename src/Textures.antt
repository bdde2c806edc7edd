-- ===== src/Textures.antt =====
-- The textures (src/textures): the cache that keeps the ones in use.
pub mod Manager
pub mod Loading
pub mod Cache
pub mod Recency
pub mod Pruning
pub mod Uses
pub mod Resolver
