-- ===== src/TagCache.antt =====
-- `TagCache` of src/log/index_local_tag_cache.cpp: the newest sequence numbers of the tags of one
-- sequencer, over all views. `fatal` is also what the language leaves undefined.
mod Entry
mod Space
mod Views
mod State
mod Queries
mod Advance
mod Held
mod Ends
mod Next
mod Cached
mod Evict
mod Extend
mod Add
mod Tags
mod Told
mod Spaces
mod Sizes
mod Rounds
mod Tests
unfoldable pub use Entry.*
unfoldable pub use Space.*
unfoldable pub use Views.*
unfoldable pub use State.*
unfoldable pub use Queries.*
unfoldable pub use Advance.*
