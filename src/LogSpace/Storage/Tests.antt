-- ===== src/LogSpace/Storage/Tests.antt =====
-- Runs of `LogStorage` (src/log/log_space.cpp).
use ixe.Prelude.{
  ℕ, ◌≤◌, ◌<◌, ◌≡◌, ◌≢◌, ◌⊎◌, arith, true, false, ◌||◌, List, [], ◌∷◌, ◌++◌, elem, ltb, none, some,
  ok,
}
use ixe.Prelude.Maps.{find?, contains}
use ixe.Bits.{join_two32}
use ixe.Protocol.{SharedLogMessage, LogEntry}
use ixe.LogSpace.Data.{log_storage}
use ixe.LogSpace.Base.{Core, new_core}
use ixe.LogSpace.Storage.{
  Storage, ReadResult, empty_index_data, get_or_zero, advance_shard_progress,
  grab_log_entries_for_persistence, storage_on_new_logs,
}
use ixe.LogSpace.Storage.ShardProgress.{advance_shard_progress_lem}
use ixe.LogSpace.Storage.Reads.{
  take_below, drop_below, failures, Answers, IsRecordOf, storage_on_new_logs_reads,
}
use ixe.LogSpace.Storage.Live.{Live}
use ixe.LogSpace.Storage.Cut.{Retained, storage_on_new_logs-Retained}
use ixe.LogSpace.Storage.Persist.{Holds, InOrder, grab_lem}

abbrev record_of : ℕ → ℕ → LogEntry
record_of seqnum localid = record {
  metadata = record {
    user_logspace = 0;
    seqnum = seqnum;
    localid = localid;
    num_tags = 0;
    data_size = 1;
  };
  user_tags = [];
  data_bytes = 65 ∷ [];
}

abbrev request : ℕ → SharedLogMessage
request seqnum_lowhalf = record {
  op_type = 3;
  flags = 0;
  origin_node_id = 4;
  hop_times = 1;
  payload_size = 0;
  logspace_id = 0;
  user_logspace = 0;
  seqnum_lowhalf = seqnum_lowhalf;
  query_tag = 0;
  user_metalog_progress = 0;
  localid = 0;
  client_data = 9;
  prev_found_seqnum = 0;
}

-- Record 4 is live, two records wait in shard 0, and reads wait for 3, 5 and 8.
abbrev node : Storage
node = record {
  storage_shard_ids = 0 ∷ [];
  shard_progress_dirty = false;
  shard_progresses = (0, 0) ∷ [];
  persisted_seqnum_position = 4;
  live_seqnums = 4 ∷ [];
  live_log_entries = (4, record_of 4 9) ∷ [];
  pending_log_entries = (0, record_of 0 0) ∷ (1, record_of 0 1) ∷ [];
  pending_read_requests = (3, request 3) ∷ (5, request 5) ∷ (8, request 8) ∷ [];
  pending_read_results = [];
  index_data = empty_index_data;
  index_data_packages = [];
}

abbrev node_core : Core Storage
node_core = new_core log_storage 0 0 [] node

node-Live : Live 5 node
unfolding elem find? contains
node-Live = record {
  ordered = (omega arith, omega arith, tt);
  same = λ k. ground arith;
  stamped = λ k e h. ground arith;
}

node_core-Live : Live 5 node_core.derived
unfolding new_core
node_core-Live = node-Live

advance_shard_progress_lem_example :
    let s' = advance_shard_progress 0 node in
    let current = get_or_zero 0 s'.shard_progresses in
    (0 ≤ current)
    × ((i : ℕ) → 0 ≤ i → i < current → contains (join_two32 0 i) node.pending_log_entries ≡ true)
    × (contains (join_two32 0 current) node.pending_log_entries ≡ false)
    × (s'.shard_progress_dirty ≡ (ltb 0 current || false))
    × ((other : ℕ)
        → other ≢ 0
        → get_or_zero other s'.shard_progresses ≡ get_or_zero other node.shard_progresses)
unfolding find?
advance_shard_progress_lem_example = advance_shard_progress_lem 0 (omega arith) node (omega arith)

storage_on_new_logs_reads_example :
    (s' : Storage) × (xs : List ReadResult) × (storage_on_new_logs 10 node_core 0 5 0 2 0 ≡ ok s')
    × (s'.pending_read_requests ≡ drop_below 7 node_core.derived.pending_read_requests)
    × (s'.pending_read_results
        ≡ node_core.derived.pending_read_results
          ++ (failures (take_below 5 node_core.derived.pending_read_requests) ++ xs))
    × Answers
        (IsRecordOf node_core.derived.pending_log_entries 5 0)
        (take_below 7 (drop_below 5 node_core.derived.pending_read_requests))
        xs
unfolding new_core contains
storage_on_new_logs_reads_example =
    storage_on_new_logs_reads 10 0 5 0 2 0 3 node_core (omega arith) (omega arith) (ground arith)
      (λ i h. ground arith)

grab_lem_example :
    ((grab_log_entries_for_persistence node ≡ ok none)
      × ((k : ℕ) → elem k node.live_seqnums ≡ true → k < 4))
    ⊎ ((es : List LogEntry) × (pos : ℕ) × (grab_log_entries_for_persistence node
          ≡ ok (some (es, pos)))
        × InOrder 4 es
        × ((k : ℕ) (e : LogEntry)
            → 4 ≤ k
            → find? k node.live_log_entries ≡ some e
            → Holds e es × (k < pos)))
grab_lem_example = grab_lem 5 node (omega arith) node-Live

-- The cut of the two records that wait.
node_cut : (s' : Storage) × (storage_on_new_logs 10 node_core 0 5 0 2 0 ≡ ok s')
unfolding new_core contains
node_cut =
    let (s', xs, e, waiting, results, answers) =
      storage_on_new_logs_reads 10 0 5 0 2 0 3 node_core (omega arith) (omega arith) (ground arith)
        (λ i h. ground arith) in
    (s', e)

storage_on_new_logs-Retained_example : Retained 7 node_core.derived node_cut.0
storage_on_new_logs-Retained_example =
    storage_on_new_logs-Retained 10 0 5 0 2 0 node_core node_cut.0 (omega arith) node_cut.1
      node_core-Live
