-- ===== src/Ds.antt =====
-- The data structures under ds/.
pub mod Lists
pub mod ByteSets
