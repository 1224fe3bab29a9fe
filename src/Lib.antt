-- ===== src/Lib.antt =====
-- The shared log of Ixe: the log spaces of src/log, which order the records of a distributed log.
--
-- A sequencer node runs a `MetaLogPrimary` for its log space. Storage nodes report how far they hold
-- each shard, and the primary cuts the log: a `NEW_LOGS` meta log gives the next sequence numbers to
-- the records that all storage nodes of a shard hold. Meta logs reach the other nodes over the
-- network, out of order and more than once. There a `LogStorage` gives the records that it holds their
-- numbers, answers the reads that wait for them and hands them over for persistence, and a
-- `LogProducer` tells its callers the numbers of their appends. An `IndexComplete` receives the tags of
-- the records, indexes them cut by cut and answers the queries that ask for the next or the previous
-- record with a tag; a query that starts in a later view than it asks for goes from index to index. An
-- engine keeps the newest part of the log itself: a `SeqnumSuffixChain` of the cuts and a `TagCache` of
-- the tags, which answer a query or say that it must go to an index.
--
-- Prelude (and Prelude/): passes on library names; Boolean tests, lists, maps as lists of pairs, and
--   `Outcome`, in which `fatal` is the end of the process (`LOG(FATAL)`, a failing `at`).
-- Bits: src/utils/bits.h and the accessors of a sequence number in src/log/utils.cpp.
-- Protocol: `SharedLogMessage` of src/common/protocol.h, the records of src/log/common.h and the
--   metadata conversions of src/log/utils.cpp; Protocol/Payload has the payload of a message.
-- View: the parts of src/log/view.h that the log spaces read.
-- LogSpace/Data: the messages of src/proto/shared_log.proto.
-- LogSpace/Base: `LogSpaceBase` of src/log/log_space_base.cpp. `Core` has its fields and the state of
--   the derived class, `Space` adds `pending_metalogs_`, and `Hooks` has the virtual methods. Progress,
--   Replay, Delivery, Order and Stall are about `ProvideMetaLog` and `AdvanceMetaLogProgress`.
-- LogSpace/Primary: `MetaLogPrimary` of src/log/log_space.cpp; Durable, CutShards, MarkCut, Quorum and
--   Reach are about it.
-- LogSpace/Producer: `LogProducer` of src/log/log_space.cpp; Fifo is about it.
-- LogSpace/Storage: `LogStorage` of src/log/log_space.cpp; ShardProgress, Reads, Live, Cut and Persist
--   are about it.
-- LogSpace/Collection: `LogSpaceCollection` of src/log/log_space_base.h; Sets and Life are about it.
-- Index: `PerSpaceIndex` of src/log/index.cpp, the sequence numbers of a user log space by tag. The
--   binary searches of a sorted vector are searches from its start. Index/Add and Index/Nearest are
--   about it.
-- Query: the queries and results of src/log/index_dto.cpp. Query/Messages has the conversions between
--   them and messages in src/log/engine.cpp, src/log/indexer.cpp and src/log/indexer_base.cpp, and
--   Query/Aggregate is `EngineIndexReadOp` of src/log/aggregating.cpp; the modules below are about them.
-- LogIndex: `Index` of src/log/index.cpp: State has the records, Queries the queries and how they wait.
--   LogIndex/Complete is `IndexComplete` of src/log/index_complete.cpp and LogIndex/Shard is
--   `IndexShard` of src/log/index_shard.cpp. Content, Reads, Answers, Settles and Waiting are about
--   every index; Cuts, Receive and Advance below Complete
--   are about `IndexComplete`, and Reports and Enough below Shard are about `IndexShard`.
-- SuffixChain: src/log/index_local_suffix.cpp: Link has `SeqnumSuffixLink` and its entries, Chain
--   `SeqnumSuffixChain` and Reads its queries. Owner, Shard, Search, Points, Trim and Grow are about
--   them.
-- TagCache: src/log/index_local_tag_cache.cpp: Entry has the numbers of a tag by view, Space the tags of
--   a user log space, Views the progress of a view, State, Queries and Advance the operations of
--   `TagCache`. Held, Ends, Next, Cached, Evict, Extend, Add, Tags, Told, Spaces,
--   Sizes and Rounds are about them.
-- FutureRequests: the requests for later views of src/log/utils.cpp; Release is about them.
-- RoundRobin: src/utils/round_robin_set.h; Turns and Members are about it.
-- Tests, and a module Tests below each component: runs at concrete inputs.
--
-- Names are those of the source in snake case. Numbers of w bits are natural numbers whose sums are
-- taken modulo 2 ^ w. A call reads the clock once. Hash maps and sets are lists in any order,
-- `std::map` and `std::multimap` are lists by rising key. `DCHECK`s are left out, as in a release.
-- The loops of `AdvanceShardProgress` and `ProvideIndexData` that look for a gap run on fuel, one
-- round more than there are entries in the map: each round finds another of them. The loop of
-- `IndexShard` runs on fuel, one round more than there are updates: each round takes one away. So
-- does that of the tag cache, and its eviction runs on one round more than there are popularities.
-- In the two caches `fatal` is also a read that the language leaves undefined, and the two products
-- with a floating-point number are parameters: `trim_count` and `ceil_fifth`.
--
-- Not modelled: logging, `SerializeToProto`, and `RemovePendingEntries`, whose loop does not end on an
-- entry of another shard. The constructor of a view is not modelled: a view is given by its maps. The
-- sequence number cache, which calls a library, the statistics of the `Aggregate` methods, the message
-- handlers of the nodes and everything outside src/log but the files above are not modelled.
pub mod Prelude
pub mod Bits
pub mod Protocol
pub mod View
pub mod LogSpace
pub mod Index
pub mod Query
pub mod LogIndex
pub mod FutureRequests
pub mod RoundRobin
pub mod TagCache
pub mod SuffixChain
pub mod Tests
