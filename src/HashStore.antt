-- ===== src/HashStore.antt =====
-- internal/hashstore/hashstore.go: the keys and values that the hash store keeps in its ordered byte
-- store, the hashes of files, and the records of sources.
pub mod Kinds
pub mod Parts
pub mod Varint
pub mod Values
pub mod ValueLaws
pub mod Actuals
pub mod ActualRows
pub mod ActualLaws
pub mod Keys
pub mod KeyLaws
pub mod Range
pub mod Ordered
pub mod Sources
pub mod Queries
pub mod Writes
pub mod Mappings
pub mod SourceParts
pub mod SourceRows
pub mod SourcePuts
pub mod SourceScan
pub mod SourceGone
pub mod SourceLaws
pub mod ReplaceLaws
pub mod DictLaws
pub mod DictRounds
pub mod DictTotal
pub mod SourceReads
pub mod SourceRounds
pub mod Success
pub mod SourceSuccess
mod Runs
mod ActualRuns
mod MemoryDb
mod SourceRuns
