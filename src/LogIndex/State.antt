-- ===== src/LogIndex/State.antt =====
-- The state of `Index` of src/log/index.cpp, and how it takes records and looks for them.
use ixe.Prelude.{
  ℕ, ◌+◌, ◌-◌, ◌%◌, ◌^◌, true, false, Option, none, some, List, [], ◌∷◌, ◌++◌, leb, Outcome, ok,
}
use ixe.Prelude.Maps.{find?, put}
use ixe.LogSpace.Data.{MetaLog, new_logs}
use ixe.Query.{IndexQuery, IndexQueryResult}
use ixe.Index.{PerSpaceIndex, add, find_next, find_prev}

-- `Index::IndexData`.
pub record IndexData : Type 0 where
  pub engine_id : ℕ
  pub user_logspace : ℕ
  pub user_tags : List ℕ

-- The fields of `Index` itself; those of the log space are in `Core`.
pub record Index : Type 0 where
  pub index : List (ℕ × PerSpaceIndex)
  pub pending_queries : List (ℕ × IndexQuery)
  pub blocking_reads : List (ℕ × IndexQuery)
  pub pending_query_results : List IndexQueryResult
  pub cuts : List (ℕ × ℕ)
  pub indexed_metalog_position : ℕ
  pub received_data : List (ℕ × IndexData)
  pub data_received_seqnum_position : ℕ
  pub indexed_seqnum_position : ℕ

-- The constructor, of the fields of `Index`.
abbrev pub new_index : Index
new_index = record {
  index = [];
  pending_queries = [];
  blocking_reads = [];
  pending_query_results = [];
  cuts = [];
  indexed_metalog_position = 0;
  received_data = [];
  data_received_seqnum_position = 0;
  indexed_seqnum_position = 0;
}

abbrev pub max_metalog_position : ℕ
max_metalog_position = 2 ^ 32 - 1

-- `kBlockingQueryTimeout` in microseconds.
abbrev pub blocking_query_timeout : ℕ
blocking_query_timeout = 1000000

-- The loop of `OnMetaLogApplied`.
unfoldable pub cut_end : ℕ → List ℕ → ℕ
cut_end seqnum [] = seqnum
cut_end seqnum (d ∷ ds) = cut_end ((seqnum + d) % 2 ^ 32) ds

unfoldable pub index_on_meta_log_applied : MetaLog → Index → Index
index_on_meta_log_applied m s = elim m.kind [
  | new_logs ↦ record s {
    cuts =
        s.cuts
        ++ (m.metalog_seqnum, cut_end m.new_logs_proto.start_seqnum m.new_logs_proto.shard_deltas)
          ∷ [];
  }
  | _ ↦ s
]

unfoldable pub poll_query_results : List IndexQueryResult → Index → List IndexQueryResult × Index
poll_query_results results s =
    (results ++ s.pending_query_results, record s { pending_query_results = [] })

unfoldable pub index_find_next : IndexQuery → Index → Outcome (Option (ℕ × ℕ))
index_find_next q s = elim (find? q.user_logspace s.index) [
  | none ↦ ok none
  | some p ↦ find_next q.query_seqnum q.user_tag p
]

unfoldable pub index_find_prev : IndexQuery → Index → Outcome (Option (ℕ × ℕ))
index_find_prev q s = elim (find? q.user_logspace s.index) [
  | none ↦ ok none
  | some p ↦ find_prev q.query_seqnum q.user_tag p
]

abbrev pub push_result : IndexQueryResult → Index → Index
push_result r s = record s { pending_query_results = s.pending_query_results ++ r ∷ [] }

module _ (identifier : ℕ) where
  unfoldable pub get_or_create_index : ℕ → Index → PerSpaceIndex
  get_or_create_index user_logspace s = elim (find? user_logspace s.index) [
    | some p ↦ p
    | none ↦ record {
      logspace_id = identifier;
      user_logspace = user_logspace;
      engine_ids = [];
      seqnums = [];
      seqnums_by_tag = [];
    }
  ]

  -- One record goes to the index of its user log space.
  unfoldable pub index_record : ℕ → IndexData → Index → Index
  index_record seqnum d s = record s {
    index =
        put d.user_logspace
          (add seqnum d.engine_id d.user_tags (get_or_create_index d.user_logspace s)) s.index;
  }

  -- The loop over `received_data_` up to the end of a cut.
  unfoldable pub index_until : ℕ → List (ℕ × IndexData) → Index → Index
  index_until end_seqnum [] s = record s { received_data = [] }
  index_until end_seqnum ((k, d) ∷ rest) s = elim (leb end_seqnum k) [
    | true ↦ record s { received_data = (k, d) ∷ rest }
    | false ↦ index_until end_seqnum rest (index_record k d s)
  ]
