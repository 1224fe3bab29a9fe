-- ===== src/Query/Tests.antt =====
-- Runs of the messages about queries and of the joining of results.
use ixe.Prelude.{◌≡◌, refl, true, false, none, [], ◌∷◌, elem, arith, inl, inr, ok, ◌>>=◌}
use ixe.Prelude.Maps.{find?}
use ixe.Query.{
  read_next, k_read_next, k_found, k_empty, k_continue, IndexQuery, IndexQueryResult, no_result,
}
use ixe.Query.Messages.{
  LocalOp, build_index_tier_request_message, build_index_query_of_op, build_indexer_query,
}
use ixe.Query.Messages.Roundtrip.{engine_query_roundtrip}
use ixe.Query.Aggregate.{IndexReadOp}
use ixe.Query.Aggregate.Joined.{
  AllFresh, AllResults, aggregate_all, IsJoined, aggregate_all-IsJoined,
}

abbrev a_read : LocalOp
a_read = record {
  kind = read_next;
  user_logspace = 7;
  id = 9;
  metalog_progress = 3;
  query_tag = 5;
  seqnum = 11;
}

engine_query_roundtrip_example :
    let m = build_index_tier_request_message 4 a_read 2 65534 in
    build_indexer_query m m.origin_node_id ≡ (
      build_index_query_of_op 4 a_read >>= λ q.
      ok (record q { hop_times = 1; master_node_id = 2; aggregate_type = 65534 }))
engine_query_roundtrip_example = engine_query_roundtrip 4 2 65534 a_read (omega arith) (inr refl)

abbrev the_query : IndexQuery
the_query = record {
  direction = k_read_next;
  origin_node_id = 4;
  hop_times = 1;
  initial = true;
  client_data = 9;
  user_logspace = 7;
  user_tag = 5;
  query_seqnum = 11;
  metalog_progress = 3;
  master_node_id = 2;
  aggregate_type = 65534;
  prev_found_result = no_result;
}

abbrev to_continue : IndexQueryResult
to_continue = record {
  state = k_continue;
  metalog_progress = 3;
  next_view_id = 1;
  original_query = the_query;
  found_result = record { view_id = 2; storage_shard_id = 8; seqnum = 100 };
}

abbrev a_found : IndexQueryResult
a_found = record to_continue { state = k_found; next_view_id = 0 }

abbrev none_found : IndexQueryResult
none_found = record to_continue { state = k_empty; next_view_id = 0; found_result = no_result }

absent : find? {V = IndexReadOp} 9 [] ≡ none
unfolding find?
absent = refl

fresh : AllFresh [] ((1, a_found) ∷ (2, none_found) ∷ [])
unfolding elem
fresh = (refl, (ground arith, tt))

results : AllResults 9 false ((1, a_found) ∷ (2, none_found) ∷ [])
results = (
  record { same_key = refl; same_direction = refl; settled = inl refl },
  (record { same_key = refl; same_direction = refl; settled = inr refl }, tt),
)

aggregate_all-IsJoined_example :
    IsJoined 9 false 2
      ((2, none_found) ∷ (1, a_found) ∷ [])
      (aggregate_all 2 ((1, a_found) ∷ (2, none_found) ∷ []) [])
aggregate_all-IsJoined_example =
    aggregate_all-IsJoined 9 false 2 1 a_found ((2, none_found) ∷ []) [] absent (omega arith) fresh
      results
