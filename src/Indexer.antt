-- ===== src/Indexer.antt =====
-- indexer/indexer.h and indexer/indexer.cpp: the indexer that copies tables of MySQL into Redis.
pub mod Values
pub mod World
pub mod Copy
pub mod Init
