-- ===== src/TagCache/Queries.antt =====
-- The queries of `TagCache` of src/log/index_local_tag_cache.cpp.
use ixe.Prelude.{
  ℕ, true, false, List, [], ◌∷◌, ◌++◌, ltb, leb, ◌==◌, if◌then◌else◌, Outcome, ok, fatal, ◌>>=◌,
  none, some,
}
use ixe.Prelude.Maps.{find?, insert_multi, put}
use ixe.Bits.{low_half64, get_view_id}
use ixe.Query.{
  k_read_next, k_read_prev, k_read_next_b, k_found, k_empty, k_miss, IndexQuery, IndexQueryResult,
  no_result,
}
use ixe.TagCache.Space.{
  PerSpaceTagCache, TagAnswer, found, empty, miss, space_find_next, space_find_prev,
}
use ixe.TagCache.State.{
  TagCache, latest_metalog_position, cache_metalog_progress, current_popularity,
}

unfoldable pub cache_found_result : IndexQuery → ℕ → ℕ → ℕ → ℕ → IndexQueryResult
cache_found_result q metalog_progress view_id seqnum storage_shard_id = record {
  state = k_found;
  metalog_progress = metalog_progress;
  next_view_id = 0;
  original_query = q;
  found_result = record { view_id = view_id; storage_shard_id = storage_shard_id; seqnum = seqnum };
}

unfoldable pub cache_miss_result : IndexQuery → ℕ → IndexQueryResult
cache_miss_result q metalog_progress = record {
  state = k_miss;
  metalog_progress = metalog_progress;
  next_view_id = 0;
  original_query = q;
  found_result = no_result;
}

unfoldable pub cache_empty_result : IndexQuery → ℕ → IndexQueryResult
cache_empty_result q metalog_progress = record {
  state = k_empty;
  metalog_progress = metalog_progress;
  next_view_id = 0;
  original_query = q;
  found_result = no_result;
}

abbrev pub push_answer : IndexQueryResult → TagCache → TagCache
push_answer r c = record c { pending_query_results = c.pending_query_results ++ r ∷ [] }

-- The `switch` over the state.
unfoldable pub cache_result : IndexQuery → ℕ → ℕ → TagAnswer → IndexQueryResult
cache_result q progress view_id (found seqnum shard) =
    cache_found_result q progress view_id seqnum shard
cache_result q progress view_id empty = cache_empty_result q progress
cache_result q progress view_id miss = cache_miss_result q progress

abbrev pub search_space :
    IndexQuery → ℕ → ℕ → PerSpaceTagCache → Outcome (PerSpaceTagCache × TagAnswer)
search_space q sequencer_id popularity s = elim q.direction [
  | k_read_next ↦ space_find_next q.query_seqnum q.user_tag sequencer_id popularity s
  | k_read_prev ↦ space_find_prev q.query_seqnum q.user_tag sequencer_id popularity s
  | k_read_next_b ↦ fatal
]

unfoldable pub cache_process_query : IndexQuery → TagCache → Outcome TagCache
cache_process_query q c = cache_metalog_progress c >>= λ progress.
    elim (find? q.user_logspace c.per_space_cache) [
      | none ↦ ok (push_answer (cache_miss_result q progress) c)
      | some s ↦ current_popularity c >>= λ popularity.
          search_space q c.sequencer_id popularity s >>= λ r. ok (
            push_answer (cache_result q progress c.latest_view_id r.1)
              (record c { per_space_cache = put q.user_logspace r.0 c.per_space_cache }))
    ]

unfoldable pub cache_make_query : IndexQuery → TagCache → Outcome TagCache
cache_make_query q c =
    let view_id = get_view_id q.metalog_progress in
    let position = low_half64 q.metalog_progress in
    if ltb c.latest_view_id view_id
    then fatal
    else if view_id == c.latest_view_id
    then (latest_metalog_position c >>= λ latest.
        if leb position latest
        then cache_process_query q c
        else ok (record c { pending_queries = insert_multi position q c.pending_queries }))
    else cache_process_query q c

unfoldable pub cache_poll_query_results :
    List IndexQueryResult → TagCache → List IndexQueryResult × TagCache
cache_poll_query_results results c =
    (results ++ c.pending_query_results, record c { pending_query_results = [] })

-- The loop of `Finalize`: the queries that wait are not found.
unfoldable pub miss_all : List (ℕ × IndexQuery) → TagCache → Outcome TagCache
miss_all [] c = ok (record c { pending_queries = [] })
miss_all ((k, q) ∷ rest) c = cache_metalog_progress c >>= λ progress.
    miss_all rest (push_answer (cache_miss_result q progress) c)

unfoldable pub cache_finalize : TagCache → Outcome TagCache
cache_finalize c = miss_all c.pending_queries c

-- The loop over the queries that wait for a position that is reached.
unfoldable pub cache_process_pending : List (ℕ × IndexQuery) → TagCache → Outcome TagCache
cache_process_pending [] c = ok (record c { pending_queries = [] })
cache_process_pending ((k, q) ∷ rest) c = latest_metalog_position c >>= λ latest.
    elim (ltb latest k) [
      | true ↦ ok (record c { pending_queries = (k, q) ∷ rest })
      | false ↦ cache_process_query q c >>= cache_process_pending rest
    ]
