-- ===== src/LogIndex/Queries.antt =====
-- The queries of `Index` of src/log/index.cpp: their results, and how they wait.
use ixe.Prelude.{
  ℕ, ◌+◌, ◌-◌, ◌%◌, ◌^◌, Bool, true, false, Option, none, some, List, [], ◌∷◌, ◌++◌, ltb, leb, ◌==◌,
  if◌then◌else◌, Outcome, ok, fatal, ◌>>=◌,
}
use ixe.Prelude.Maps.{insert_multi}
use ixe.Bits.{low_half64, get_view_id}
use ixe.Query.{
  k_read_next, k_read_prev, k_read_next_b, k_found, k_empty, k_continue, IndexFoundResult,
  IndexQuery, IndexQueryResult, invalid_log_seqnum, no_result,
}
use ixe.LogIndex.State.{
  Index, push_result, index_find_next, index_find_prev, blocking_query_timeout,
  max_metalog_position,
}

-- The id of the view, and `index_metalog_progress()`, a virtual method, as a function of
-- `indexed_metalog_position_`.
module _ (view_id : ℕ) (index_metalog_progress : ℕ → ℕ) where
  abbrev pub result_progress : IndexQuery → Index → ℕ
  result_progress q s =
      if q.initial then index_metalog_progress s.indexed_metalog_position else q.metalog_progress

  unfoldable pub build_found_result : IndexQuery → ℕ → ℕ → ℕ → Index → IndexQueryResult
  build_found_result q found_view seqnum storage_shard_id s = record {
    state = k_found;
    metalog_progress = result_progress q s;
    next_view_id = 0;
    original_query = q;
    found_result = record {
      view_id = found_view;
      storage_shard_id = storage_shard_id;
      seqnum = seqnum;
    };
  }

  unfoldable pub build_empty_result : IndexQuery → Index → IndexQueryResult
  build_empty_result q s = record {
    state = k_empty;
    metalog_progress = result_progress q s;
    next_view_id = 0;
    original_query = q;
    found_result = no_result;
  }

  abbrev pub continue_query : IndexQuery → IndexQuery
  continue_query q = elim q.direction [
    | k_read_next_b ↦ record q { direction = k_read_next }
    | _ ↦ q
  ]

  -- `found` and the two values after it are an option.
  abbrev pub continue_found : IndexQuery → Option (ℕ × ℕ) → IndexFoundResult
  continue_found q (some (seqnum, storage_shard_id)) = record {
    view_id = view_id;
    storage_shard_id = storage_shard_id;
    seqnum = seqnum;
  }
  continue_found q none = if q.initial then no_result else q.prev_found_result

  unfoldable pub build_continue_result : IndexQuery → Option (ℕ × ℕ) → Index → IndexQueryResult
  build_continue_result q answer s = record {
    state = k_continue;
    metalog_progress = result_progress q s;
    next_view_id = (view_id + 2 ^ 16 - 1) % 2 ^ 16;
    original_query = continue_query q;
    found_result = continue_found q answer;
  }

  -- A query of this view for which the index of this view has no record.
  unfoldable pub next_from_prev_result : IndexQuery → Index → IndexQueryResult
  next_from_prev_result q s =
      let r = q.prev_found_result in
      if r.seqnum == invalid_log_seqnum
      then build_empty_result q s
      else build_found_result q r.view_id r.seqnum r.storage_shard_id s

  unfoldable pub next_result : IndexQuery → Option (ℕ × ℕ) → Index → IndexQueryResult
  next_result q answer s =
      if get_view_id q.query_seqnum == view_id
      then elim answer [
        | some (seqnum, shard) ↦ build_found_result q view_id seqnum shard s
        | none ↦ next_from_prev_result q s
      ]
      else build_continue_result q answer s

  unfoldable pub process_read_next : IndexQuery → Index → Outcome Index
  process_read_next q s =
      if ltb view_id (get_view_id q.query_seqnum)
      then ok (push_result (build_empty_result q s) s)
      else (index_find_next q s >>= λ answer. ok (push_result (next_result q answer s) s))

  unfoldable pub prev_result : IndexQuery → Option (ℕ × ℕ) → Index → IndexQueryResult
  prev_result q (some (seqnum, shard)) s = build_found_result q view_id seqnum shard s
  prev_result q none s =
      if ltb 0 view_id then build_continue_result q none s else build_empty_result q s

  unfoldable pub process_read_prev : IndexQuery → Index → Outcome Index
  process_read_prev q s =
      if ltb (get_view_id q.query_seqnum) view_id
      then ok (push_result (build_continue_result q none s) s)
      else (index_find_prev q s >>= λ answer. ok (push_result (prev_result q answer s) s))

  abbrev pub blocking_answer : IndexQuery → Option (ℕ × ℕ) → Index → Index × Bool
  blocking_answer q answer s =
      if get_view_id q.query_seqnum == view_id
      then elim answer [
        | some (seqnum, shard) ↦ (push_result (build_found_result q view_id seqnum shard s) s, true)
        | none ↦ (s, false)
      ]
      else (push_result (build_continue_result q answer s) s, true)

  -- The Boolean says whether the query has its answer.
  unfoldable pub process_blocking_query : IndexQuery → Index → Outcome (Index × Bool)
  process_blocking_query q s =
      if ltb view_id (get_view_id q.query_seqnum)
      then ok (push_result (build_empty_result q s) s, true)
      else (index_find_next q s >>= λ answer. ok (blocking_answer q answer s))

  -- `now` is `GetMonotonicMicroTimestamp()`.
  unfoldable pub process_query : ℕ → IndexQuery → Index → Outcome Index
  process_query now q s = elim q.direction [
    | k_read_next_b ↦ process_blocking_query q s >>= λ r.
        ok
          (if r.1 then r.0 else record r.0 { blocking_reads = r.0.blocking_reads ++ (now, q) ∷ [] })
    | k_read_next ↦ process_read_next q s
    | k_read_prev ↦ process_read_prev q s
  ]

  abbrev pub wait_at : ℕ → IndexQuery → Index → Index
  wait_at position q s = record s { pending_queries = insert_multi position q s.pending_queries }

  -- `closed` is `finalized()`.
  unfoldable pub make_query : Bool → ℕ → IndexQuery → Index → Outcome Index
  make_query closed now q s =
      if q.initial
      then if ltb view_id (get_view_id q.metalog_progress)
        then fatal
        else if ltb (get_view_id q.metalog_progress) view_id
        then process_query now q s
        else if leb (low_half64 q.metalog_progress) s.indexed_metalog_position
        then process_query now q s
        else ok (wait_at (low_half64 q.metalog_progress) q s)
      else if closed
      then process_query now q s
      else ok (wait_at max_metalog_position q s)

  -- The loop over `pending_queries_` up to a position; `OnFinalized` has none.
  unfoldable pub process_pending : ℕ → List (ℕ × IndexQuery) → Index → Outcome Index
  process_pending now [] s = ok (record s { pending_queries = [] })
  process_pending now ((k, q) ∷ rest) s = elim (ltb s.indexed_metalog_position k) [
    | true ↦ ok (record s { pending_queries = (k, q) ∷ rest })
    | false ↦ process_query now q s >>= λ s'. process_pending now rest s'
  ]

  unfoldable pub process_all : ℕ → List (ℕ × IndexQuery) → Index → Outcome Index
  process_all now [] s = ok (record s { pending_queries = [] })
  process_all now ((k, q) ∷ rest) s = process_query now q s >>= λ s'. process_all now rest s'

  unfoldable pub index_on_finalized : ℕ → Index → Outcome Index
  index_on_finalized now s = process_all now s.pending_queries s

  -- The loop over `blocking_reads_`: those that go on waiting stay in their order.
  abbrev pub keep_or_expire : ℕ → ℕ → IndexQuery → Index → Index
  keep_or_expire now start q s =
      if ltb (now - start) blocking_query_timeout
      then record s { blocking_reads = s.blocking_reads ++ (start, q) ∷ [] }
      else push_result (build_empty_result q s) s

  unfoldable pub retry_blocking : ℕ → List (ℕ × IndexQuery) → Index → Outcome Index
  retry_blocking now [] s = ok s
  retry_blocking now ((start, q) ∷ rest) s = process_blocking_query q s >>= λ r.
      retry_blocking now rest (if r.1 then r.0 else keep_or_expire now start q r.0)

  -- Both loops, as they stand in `AdvanceIndexProgress`.
  unfoldable pub answer_queries : ℕ → Index → Outcome Index
  answer_queries now s =
      retry_blocking now s.blocking_reads (record s { blocking_reads = [] }) >>= λ s'.
      process_pending now s'.pending_queries s'
