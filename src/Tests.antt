-- ===== src/Tests.antt =====
-- Runs of the modelled code on small inputs, and the theorems at concrete inputs.
mod Ingest
mod Streams
mod Sinking
mod Dashboard
mod Namespaces
mod Deduplication
mod Trending
mod Wars
mod Pages
mod Transactions
mod Cleaning
mod Flushing
mod Operations
mod Partitions
