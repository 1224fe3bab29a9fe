-- ===== src/LogIndex.antt =====
-- `Index` of src/log/index.cpp: the index of a log space, its queries, and the records that it has
-- received and not indexed yet.
mod State
mod Queries
pub mod Complete
pub mod Shard
pub mod Content
pub mod Reads
pub mod Answers
pub mod Settles
pub mod Waiting
pub mod Tests
unfoldable pub use State.*
unfoldable pub use Queries.*
