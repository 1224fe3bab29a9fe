-- ===== src/LogSpace/Storage.antt =====
-- `LogStorage` of src/log/log_space.cpp: the records that one storage node holds for a log space.
pub mod ShardProgress
pub mod Reads
pub mod Live
pub mod Cut
pub mod Persist
pub mod Tests
use ixe.Prelude.{
  ℕ, zero, suc, ◌+◌, ◌-◌, ◌%◌, ◌^◌, Bool, true, false, ◌&&◌, Option, none, some, List, [], ◌∷◌,
  ◌++◌, ltb, leb, ◌==◌, if◌then◌else◌, length, Outcome, ok, fatal, ◌>>=◌, at_or_fatal,
}
use ixe.Prelude.Search.{first_missing}
use ixe.Prelude.Maps.{insert_multi, find?, contains, put, erase}
use ixe.Bits.{join_two32, low_half32, low_half64, high_half64}
use ixe.Protocol.{SharedLogMessage, LogMetaData, LogEntry}
use ixe.LogSpace.Data.{MetaLog, MetaLogType, invalid, new_logs, trim, log_storage, normal}
use ixe.LogSpace.Base.{
  Core, Hooks, new_core, add_interested_shard, identifier, global_seqnum_position,
}

pub data ReadStatus : Type 0 where
  read_ok lookup_db read_failed : ReadStatus

pub record ReadResult : Type 0 where
  pub status : ReadStatus
  pub log_entry : Option LogEntry
  pub original_request : SharedLogMessage

-- `IndexDataProto`.
pub record IndexDataProto : Type 0 where
  pub metalog_position : ℕ
  pub end_seqnum_position : ℕ
  pub num_productive_storage_shards : ℕ
  pub my_productive_storage_shards : List ℕ
  pub user_logspaces : List ℕ
  pub seqnum_halves : List ℕ
  pub engine_ids : List ℕ
  pub user_tag_sizes : List ℕ
  pub user_tags : List ℕ

abbrev pub empty_index_data : IndexDataProto
empty_index_data = record {
  metalog_position = 0;
  end_seqnum_position = 0;
  num_productive_storage_shards = 0;
  my_productive_storage_shards = [];
  user_logspaces = [];
  seqnum_halves = [];
  engine_ids = [];
  user_tag_sizes = [];
  user_tags = [];
}

-- `storage_shard_ids` are those of the node in the view. The packages are those of
-- `index_data_packages_`, whose log space id is that of the log space.
pub record Storage : Type 0 where
  pub storage_shard_ids : List ℕ
  pub shard_progress_dirty : Bool
  pub shard_progresses : List (ℕ × ℕ)
  pub persisted_seqnum_position : ℕ
  pub live_seqnums : List ℕ
  pub live_log_entries : List (ℕ × LogEntry)
  pub pending_log_entries : List (ℕ × LogEntry)
  pub pending_read_requests : List (ℕ × SharedLogMessage)
  pub pending_read_results : List ReadResult
  pub index_data : IndexDataProto
  pub index_data_packages : List IndexDataProto

-- `m[k]` on a hash map of numbers: a missing key gets a zero.
abbrev pub get_or_zero : ℕ → List (ℕ × ℕ) → ℕ
get_or_zero k m = elim (find? k m) [ none ↦ 0 | some v ↦ v ]

unfoldable pub local_shards : List ℕ → List (ℕ × ℕ)
local_shards [] = []
local_shards (g ∷ gs) = put (low_half32 g) 0 (local_shards gs)

unfoldable pub add_interested_shards : List ℕ → Core Storage → Core Storage
add_interested_shards [] c = c
add_interested_shards (g ∷ gs) c = add_interested_shards gs (add_interested_shard (low_half32 g) c)

-- The constructor.
unfoldable pub new_storage : List ℕ → ℕ → ℕ → List ℕ → Core Storage
new_storage global_ids view_id sequencer_id shard_ids =
    let s : Storage = record {
      storage_shard_ids = global_ids;
      shard_progress_dirty = false;
      shard_progresses = local_shards global_ids;
      persisted_seqnum_position = 0;
      live_seqnums = [];
      live_log_entries = [];
      pending_log_entries = [];
      pending_read_requests = [];
      pending_read_results = [];
      index_data = empty_index_data;
      index_data_packages = [];
    } in
    let c =
      add_interested_shards global_ids (new_core log_storage view_id sequencer_id shard_ids s) in
    record c { state = normal }

-- Each round of the loop finds another record, so there are no more rounds than records.
unfoldable pub advance_shard_progress : ℕ → Storage → Storage
advance_shard_progress shard s =
    let old = get_or_zero shard s.shard_progresses in
    let m = s.pending_log_entries in
    let current = first_missing (join_two32 shard) (length m + 1) old m in
    if ltb old current
    then record s {
      shard_progress_dirty = true;
      shard_progresses = put shard current s.shard_progresses;
    }
    else s

unfoldable pub store : LogMetaData → List ℕ → List ℕ → Storage → Storage
store metadata user_tags log_data s =
    let entry : LogEntry = record {
      metadata = metadata;
      user_tags = user_tags;
      data_bytes = log_data;
    } in
    advance_shard_progress (high_half64 metadata.localid % 2 ^ 16)
      (record s { pending_log_entries = put metadata.localid entry s.pending_log_entries })

abbrev pub push_read : ReadStatus → Option LogEntry → SharedLogMessage → Storage → Storage
push_read status entry request s = record s {
  pending_read_results =
      s.pending_read_results
      ++ record { status = status; log_entry = entry; original_request = request } ∷ [];
}

unfoldable pub read_at : SharedLogMessage → Core Storage → Storage
read_at request c =
    let s = c.derived in
    let seqnum = join_two32 request.logspace_id request.seqnum_lowhalf in
    if leb (global_seqnum_position c) seqnum
    then record s { pending_read_requests = insert_multi seqnum request s.pending_read_requests }
    else elim (find? seqnum s.live_log_entries) [
      | some entry ↦ push_read read_ok (some entry) request s
      | none ↦
          if ltb seqnum s.persisted_seqnum_position
          then push_read lookup_db none request s
          else push_read read_failed none request s
    ]

-- The loop of `ShrinkLiveEntriesIfNeeded`; `max_size` is the flag `slog_storage_max_live_entries`.
unfoldable pub shrink : ℕ → ℕ → List ℕ → List (ℕ × LogEntry) → List ℕ × List (ℕ × LogEntry)
shrink max_size persisted [] entries = ([], entries)
shrink max_size persisted (k ∷ ks) entries =
    let rest = shrink max_size persisted ks (erase k entries) in
    if ltb max_size (length (k ∷ ks)) && ltb k persisted then rest else (k ∷ ks, entries)

unfoldable pub shrink_live_entries_if_needed : ℕ → Storage → Storage
shrink_live_entries_if_needed max_size s =
    let (ks, entries) =
      shrink max_size s.persisted_seqnum_position s.live_seqnums s.live_log_entries in
    record s { live_seqnums = ks; live_log_entries = entries }

abbrev pub last_or {ℓ} : {A : Type ℓ} → A → List A → A
last_or d [] = d
last_or d (x ∷ xs) = last_or x xs

-- `lower_bound` on a rising list: from the first number that is not below.
unfoldable pub from_bound : ℕ → List ℕ → List ℕ
from_bound bound [] = []
from_bound bound (k ∷ ks) = let rest = from_bound bound ks in if ltb k bound then rest else k ∷ ks

unfoldable pub entries_at : List (ℕ × LogEntry) → List ℕ → Outcome (List LogEntry)
entries_at m [] = ok []
entries_at m (k ∷ ks) = do e ← at_or_fatal (find? k m); es ← entries_at m ks; ok (e ∷ es)

-- The entries to persist and the new position, or `none` for the answer `false`.
unfoldable pub grab_log_entries_for_persistence : Storage → Outcome (Option (List LogEntry × ℕ))
grab_log_entries_for_persistence s = elim s.live_seqnums [
  | [] ↦ ok none
  | k ∷ ks ↦
      if ltb (last_or k ks) s.persisted_seqnum_position
      then ok none
      else (entries_at s.live_log_entries (from_bound s.persisted_seqnum_position (k ∷ ks))
          >>= λ es. ok (some (es, (last_or k ks + 1) % 2 ^ 64)))
]

unfoldable pub log_entries_persisted : ℕ → ℕ → Storage → Storage
log_entries_persisted max_size new_position s =
    shrink_live_entries_if_needed max_size (record s { persisted_seqnum_position = new_position })

unfoldable pub poll_read_results : Storage → List ReadResult × Storage
poll_read_results s = (s.pending_read_results, record s { pending_read_results = [] })

unfoldable pub poll_index_data : Storage → Option (List IndexDataProto) × Storage
poll_index_data s = elim s.index_data_packages [
  | [] ↦ (none, s)
  | d ∷ ds ↦ (some (d ∷ ds), record s { index_data_packages = [] })
]

unfoldable pub progress_vector : List (ℕ × ℕ) → List ℕ → List ℕ
progress_vector m [] = []
progress_vector m (g ∷ gs) = get_or_zero (low_half32 g) m ∷ progress_vector m gs

unfoldable pub grab_shard_progress_for_sending : Storage → Option (List ℕ) × Storage
grab_shard_progress_for_sending s =
    if s.shard_progress_dirty
    then (
      some (progress_vector s.shard_progresses s.storage_shard_ids),
      record s { shard_progress_dirty = false },
    )
    else (none, s)

-- The first loop of `OnNewLogs`: reads below the cut fail.
unfoldable pub expire_reads : ℕ → List (ℕ × SharedLogMessage) → Storage → Storage
expire_reads start [] s = record s { pending_read_requests = [] }
expire_reads start ((k, r) ∷ rest) s =
    let next = expire_reads start rest (push_read read_failed none r s) in
    if ltb k start then next else record s { pending_read_requests = (k, r) ∷ rest }

-- The inner loop of `OnNewLogs`: reads that wait for this record get it.
unfoldable pub answer_reads : ℕ → LogEntry → List (ℕ × SharedLogMessage) → Storage → Storage
answer_reads seqnum entry [] s = record s { pending_read_requests = [] }
answer_reads seqnum entry ((k, r) ∷ rest) s =
    let next = answer_reads seqnum entry rest (push_read read_ok (some entry) r s) in
    if k == seqnum then next else record s { pending_read_requests = (k, r) ∷ rest }

unfoldable pub add_to_index_data : ℕ → ℕ → LogEntry → IndexDataProto → IndexDataProto
add_to_index_data seqnum localid entry d = record d {
  seqnum_halves = d.seqnum_halves ++ low_half64 seqnum ∷ [];
  engine_ids = d.engine_ids ++ high_half64 localid ∷ [];
  user_logspaces = d.user_logspaces ++ entry.metadata.user_logspace ∷ [];
  user_tag_sizes = d.user_tag_sizes ++ (length entry.user_tags % 2 ^ 32) ∷ [];
  user_tags = d.user_tags ++ entry.user_tags;
}

abbrev pub stamp : ℕ → LogEntry → LogEntry
stamp seqnum e = record e { metadata = record e.metadata { seqnum = seqnum } }

-- The record joins the index data and the live records.
unfoldable pub make_live : ℕ → ℕ → ℕ → LogEntry → Storage → Storage
make_live max_size seqnum localid e s = shrink_live_entries_if_needed max_size (record s {
  pending_log_entries = erase localid s.pending_log_entries;
  index_data = add_to_index_data seqnum localid e s.index_data;
  live_seqnums = s.live_seqnums ++ seqnum ∷ [];
  live_log_entries = put seqnum e s.live_log_entries;
})

-- One round of the main loop of `OnNewLogs`: the record under `localid` gets its sequence number.
unfoldable pub finalize_entry : ℕ → ℕ → ℕ → Storage → Outcome Storage
finalize_entry max_size seqnum localid s = do
  entry ← at_or_fatal (find? localid s.pending_log_entries)
  let s' = make_live max_size seqnum localid (stamp seqnum entry) s
  ok (answer_reads seqnum (stamp seqnum entry) s'.pending_read_requests s')

unfoldable pub finalize_entries : ℕ → ℕ → ℕ → ℕ → Storage → Outcome Storage
finalize_entries max_size seqnum localid zero s = ok s
finalize_entries max_size seqnum localid (suc n) s = do
  s' ← finalize_entry max_size seqnum localid s
  finalize_entries max_size ((seqnum + 1) % 2 ^ 64) ((localid + 1) % 2 ^ 64) n s'

unfoldable pub storage_on_new_logs : ℕ → Core Storage → ℕ → ℕ → ℕ → ℕ → ℕ → Outcome Storage
storage_on_new_logs max_size c metalog_seqnum start_seqnum start_localid delta shard = do
  let s = expire_reads start_seqnum c.derived.pending_read_requests c.derived
  s' ← finalize_entries max_size start_seqnum start_localid delta s
  let d = s'.index_data
  ok (record s' {
    index_data = record d {
      my_productive_storage_shards = d.my_productive_storage_shards ++ shard ∷ [];
    };
  })

unfoldable pub storage_on_meta_log_applied : Core Storage → MetaLog → Outcome Storage
storage_on_meta_log_applied c m =
    let s = c.derived in
    elim m.kind [
      | new_logs ↦
          if ltb 0 (length s.index_data.seqnum_halves)
          then ok (record s {
            index_data_packages =
                s.index_data_packages
                ++ record s.index_data {
                  metalog_position = c.metalog_position;
                  end_seqnum_position = c.seqnum_position;
                  num_productive_storage_shards = length m.new_logs_proto.shard_ids % 2 ^ 32;
                }
                  ∷ [];
            index_data = empty_index_data;
          })
          else ok s
      | _ ↦ ok s
    ]

unfoldable pub storage_on_finalized : Core Storage → ℕ → Outcome Storage
storage_on_finalized c metalog_position =
    let s = c.derived in
    elim s.pending_read_requests [ [] ↦ ok (record s { pending_log_entries = [] }) | _ ↦ fatal ]

abbrev pub storage_hooks : ℕ → Hooks Storage
storage_hooks max_size = record {
  on_new_logs = storage_on_new_logs max_size;
  on_new_cuts = λ c _. ok c.derived;
  on_trim = λ c _ _ _ _. ok c.derived;
  on_meta_log_applied = storage_on_meta_log_applied;
  on_finalized = storage_on_finalized;
}
