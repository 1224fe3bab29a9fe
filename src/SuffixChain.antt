-- ===== src/SuffixChain.antt =====
-- `SeqnumSuffixChain` of src/log/index_local_suffix.cpp: the newest cuts of one sequencer, over all
-- views, which answer the reads that ask for no tag.
mod Link
unfoldable pub use Link.*
mod Chain
mod Reads
unfoldable pub use Chain.*
unfoldable pub use Reads.*
mod Owner
mod Shard
mod Search
mod Points
mod Trim
mod Grow
mod Tests
