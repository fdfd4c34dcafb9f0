-- ===== src/Tests.antt =====
-- Tests and examples of the modules.
mod DsLists
pub mod Codec
mod SetStores
mod ByteSets
pub mod Recoveries
mod Transactions
mod Trees
mod TxSets
mod TxBuckets
