-- ===== src/Repository.antt =====
-- The catalog of tattoos (src/repository): its data, its order, its search and its facets.
pub mod Models
pub mod Sort
pub mod Facets
pub mod Query
pub mod Paging
pub mod Order
pub mod Matches
