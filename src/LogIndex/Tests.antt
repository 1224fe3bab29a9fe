-- ===== src/LogIndex/Tests.antt =====
-- Runs of the index of a log space (src/log/index.cpp, src/log/index_complete.cpp): two records of user
-- log space 7 with tag 5, and one cut.
use ixe.Prelude.{
  ℕ, ◌+◌, ◌^◌, ◌*◌, ◌-◌, ◌<◌, ◌≤◌, ◌⊎◌, ◌≡◌, refl, true, false, ◌&&◌, ◌||◌, Option, List, [], ◌∷◌,
  elem, arith, leb, ok, fatal,
}
use ixe.Prelude.Maps.{contains, insert_multi}
use ixe.Bits.{get_view_id, low_half64}
use ixe.LogSpace.Storage.{IndexDataProto}
use ixe.Query.{IndexQuery, IndexQueryResult, k_read_next, k_read_prev, k_read_next_b, no_result}
use ixe.LogIndex.{
  Index, IndexData, new_index, push_result, process_read_next, process_read_prev, make_query,
  answer_queries,
}
use ixe.LogIndex.Content.{Content, Content-empty}
use ixe.LogIndex.Reads.{IsFirst, IsLast}
use ixe.LogIndex.Answers.{
  IsQuery, IsNextResult, IsPrevResult, process_read_next_lem, process_read_prev_lem,
}
use ixe.LogIndex.Settles.{Answered, one}
use ixe.LogIndex.Waiting.{FirstAfter, SameQueries, answer_queries_lem, make_query_lem}
use ixe.LogIndex.Complete.{
  apply_cuts, index_metalog_progress, provide_index_data, advance_index_progress,
}
use ixe.LogIndex.Complete.Cuts.{IsIndexed, Stopped, apply_cuts-IsIndexed, IsApplied}
use ixe.LogIndex.Complete.Receive.{provide_index_data-IsIndexed}
use ixe.LogIndex.Complete.Advance.{Content-ReadsRun, advance_index_progress-IsIndexed}

abbrev the_log : ℕ → IndexData
the_log j = record { engine_id = 13; user_logspace = 7; user_tags = 5 ∷ [] }

abbrev received : List (ℕ × IndexData)
received = (0, the_log 0) ∷ (1, the_log 1) ∷ []

abbrev started : Index
started = record new_index {
  cuts = (0, 2) ∷ [];
  received_data = received;
  data_received_seqnum_position = 2;
}

started-IsIndexed : IsIndexed the_log 65537 started
unfolding contains
started-IsIndexed = record {
  content = Content-empty the_log 65537 started refl (omega arith);
  from = (refl, omega arith, (refl, omega arith, tt));
  rising = (omega arith, (omega arith, tt));
  order = omega arith;
  all = λ j a b. ground arith;
  cuts = (omega arith, tt);
}

-- Both records are indexed.
abbrev indexed : Index
indexed = apply_cuts 65537 ((0, 2) ∷ []) started

indexed-IsIndexed : IsIndexed the_log 65537 indexed
indexed-IsIndexed =
    (apply_cuts-IsIndexed the_log 65537 ((0, 2) ∷ []) started refl started-IsIndexed).0

indexed-Content : Content the_log 65537 2 indexed
unfolding apply_cuts
indexed-Content = indexed-IsIndexed.content

abbrev two_more : IndexDataProto
two_more = record {
  metalog_position = 1;
  num_productive_storage_shards = 1;
  my_productive_storage_shards = 0 ∷ [];
  end_seqnum_position = 4;
  seqnum_halves = 3 ∷ 2 ∷ [];
  engine_ids = 13 ∷ 13 ∷ [];
  user_logspaces = 7 ∷ 7 ∷ [];
  user_tag_sizes = 1 ∷ 1 ∷ [];
  user_tags = 5 ∷ 5 ∷ [];
}

provide_index_data-IsIndexed_example :
    (s' : Index) × (provide_index_data two_more started ≡ ok s')
    × IsIndexed the_log 65537 s'
    × ((j : ℕ)
        → contains j s'.received_data ≡ (contains j received || (leb 0 j && elem j (3 ∷ 2 ∷ []))))
    × (contains s'.data_received_seqnum_position s'.received_data ≡ false)
provide_index_data-IsIndexed_example =
    provide_index_data-IsIndexed the_log 65537 two_more started started-IsIndexed
      (refl, omega arith, (refl, omega arith, tt)) (omega arith)

abbrev a_query : IndexQuery
a_query = record {
  direction = k_read_next;
  origin_node_id = 3;
  hop_times = 0;
  initial = true;
  client_data = 9;
  user_logspace = 7;
  user_tag = 5;
  query_seqnum = 65537 * 2 ^ 32 + 1;
  metalog_progress = 65537 * 2 ^ 32;
  master_node_id = 0;
  aggregate_type = 0;
  prev_found_result = no_result;
}

a_query-IsQuery : IsQuery a_query
a_query-IsQuery = record { initial = λ e. refl; nothing = λ e. refl }

process_read_next_lem_example :
    (answer : Option (ℕ × ℕ)) × (r : IndexQueryResult) × (process_read_next 1
        (index_metalog_progress 65537)
        a_query
        indexed
      ≡ ok (push_result r indexed))
    × IsFirst the_log 65537 2 7 5 (65537 * 2 ^ 32 + 1) answer
    × IsNextResult 1 (index_metalog_progress 65537) a_query indexed answer r
process_read_next_lem_example =
    process_read_next_lem 1 (index_metalog_progress 65537) the_log 65537 2 a_query indexed
      indexed-Content (omega arith) (omega arith) (omega arith) a_query-IsQuery

abbrev a_backward_query : IndexQuery
a_backward_query = record a_query { direction = k_read_prev }

process_read_prev_lem_example :
    (answer : Option (ℕ × ℕ)) × (r : IndexQueryResult) × (process_read_prev 1
        (index_metalog_progress 65537)
        a_backward_query
        indexed
      ≡ ok (push_result r indexed))
    × IsLast the_log 65537 2 7 5 (65537 * 2 ^ 32 + 1) answer
    × IsPrevResult 1 (index_metalog_progress 65537) a_backward_query answer r
process_read_prev_lem_example =
    process_read_prev_lem 1 (index_metalog_progress 65537) the_log 65537 2 a_backward_query indexed
      indexed-Content

make_query_lem_example :
    let sent_in = get_view_id a_query.metalog_progress in
    let position = low_half64 a_query.metalog_progress in
    let o = make_query 1 (index_metalog_progress 65537) false 100 a_query started in
    (true ≡ true → 1 < sent_in → o ≡ fatal)
    × (true ≡ true
        → sent_in ≡ 1
        → 0 < position
        → o ≡ ok (record started { pending_queries = insert_multi position a_query [] }))
    × (true ≡ true
        → (sent_in < 1) ⊎ ((sent_in ≡ 1) × (position ≤ 0))
        → Answered (one a_query) started o)
    × (true ≡ false → false ≡ true → Answered (one a_query) started o)
    × (true ≡ false
        → false ≡ false
        → o ≡ ok (record started { pending_queries = insert_multi (2 ^ 32 - 1) a_query [] }))
make_query_lem_example =
    make_query_lem 1 (index_metalog_progress 65537) false 100 a_query started
      (Content-ReadsRun 65537 the_log 0 started started-IsIndexed.content)

-- A blocking read, one pending query that is due and one that is not.
abbrev with_queries : Index
with_queries = record started {
  blocking_reads = (50, record a_query { direction = k_read_next_b }) ∷ [];
  pending_queries = (1, a_query) ∷ (3, a_backward_query) ∷ [];
}

with_queries-IsIndexed : IsIndexed the_log 65537 with_queries
unfolding contains
with_queries-IsIndexed = record {
  content = Content-empty the_log 65537 with_queries refl (omega arith);
  from = started-IsIndexed.from;
  rising = started-IsIndexed.rising;
  order = omega arith;
  all = λ j a b. ground arith;
  cuts = (omega arith, tt);
}

answer_queries_lem_example :
    (s' : Index) × (answer_queries 1 (index_metalog_progress 65537) 100 with_queries ≡ ok s')
    × SameQueries with_queries s'
    × FirstAfter 0 s'.pending_queries
    × (s' ≡ record with_queries {
      pending_query_results = s'.pending_query_results;
      blocking_reads = s'.blocking_reads;
      pending_queries = s'.pending_queries;
    })
answer_queries_lem_example =
    answer_queries_lem 1 (index_metalog_progress 65537) 100 with_queries
      (Content-ReadsRun 65537 the_log 0 with_queries with_queries-IsIndexed.content)

advance_index_progress-IsIndexed_example :
    (s' : Index) × (advance_index_progress 65537 1 100 with_queries ≡ ok s')
    × IsIndexed the_log 65537 s'
    × IsApplied with_queries ((0, 2) ∷ []) s'
    × Stopped the_log 65537 s' s'.cuts
    × SameQueries with_queries s'
    × FirstAfter s'.indexed_metalog_position s'.pending_queries
advance_index_progress-IsIndexed_example =
    advance_index_progress-IsIndexed 65537 the_log 1 100 with_queries with_queries-IsIndexed
