-- ===== src/SuffixChain/Reads.antt =====
-- The queries of `SeqnumSuffixChain` of src/log/index_local_suffix.cpp, and the meta logs that answer
-- those that wait.
use ixe.Prelude.{
  ℕ, ◌+◌, ◌-◌, ◌%◌, ◌^◌, true, false, none, some, List, [], ◌∷◌, ◌++◌, ltb, ◌==◌, if◌then◌else◌,
  Outcome, ok, fatal, ◌>>=◌,
}
use ixe.Prelude.Maps.{insert, insert_multi}
use ixe.Bits.{low_half64, get_view_id}
use ixe.LogSpace.Data.{MetaLog}
use ixe.LogSpace.Base.{provide_meta_log}
use ixe.Query.{
  QueryState, k_read_next, k_read_prev, k_read_next_b, k_found, k_empty, k_miss, IndexFoundResult,
  IndexQuery, IndexQueryResult, no_result,
}
use ixe.SuffixChain.Link.{suffix_hooks}
use ixe.SuffixChain.Chain.{
  SeqnumSuffixChain, trim_links, last_link, chain_metalog_position, chain_metalog_progress,
  chain_view_id, chain_get_head, ChainAnswer, found, missing, nothing, chain_find_next,
  chain_find_prev,
}

abbrev pub chain_result : QueryState → ℕ → IndexQuery → IndexFoundResult → IndexQueryResult
chain_result state metalog_progress q r = record {
  state = state;
  metalog_progress = metalog_progress;
  next_view_id = 0;
  original_query = q;
  found_result = r;
}

-- `BuildFoundResult` takes the view of the last link.
unfoldable pub chain_found_result :
    IndexQuery → ℕ → ℕ → SeqnumSuffixChain → Outcome IndexQueryResult
chain_found_result q seqnum shard c = chain_metalog_progress c >>= λ progress.
    chain_view_id c >>= λ view_id. ok (
      chain_result k_found progress q
        (record { view_id = view_id; storage_shard_id = shard; seqnum = seqnum }))

unfoldable pub chain_miss_result : IndexQuery → SeqnumSuffixChain → Outcome IndexQueryResult
chain_miss_result q c =
    chain_metalog_progress c >>= λ progress. ok (chain_result k_miss progress q no_result)

unfoldable pub chain_empty_result : IndexQuery → SeqnumSuffixChain → Outcome IndexQueryResult
chain_empty_result q c =
    chain_metalog_progress c >>= λ progress. ok (chain_result k_empty progress q no_result)

unfoldable pub miss_result_for_empty_chain : IndexQuery → IndexQueryResult
miss_result_for_empty_chain q = chain_result k_miss q.metalog_progress q no_result

unfoldable pub answer_result :
    IndexQuery → ChainAnswer → SeqnumSuffixChain → Outcome IndexQueryResult
answer_result q (found seqnum shard) c = chain_found_result q seqnum shard c
answer_result q missing c = chain_miss_result q c
answer_result q nothing c = chain_empty_result q c

unfoldable pub chain_process_query : IndexQuery → SeqnumSuffixChain → Outcome IndexQueryResult
chain_process_query q c = elim q.direction [
  | k_read_next ↦ chain_find_next q.query_seqnum c.suffix_chain >>= λ a. answer_result q a c
  | k_read_prev ↦ chain_find_prev q.query_seqnum c.suffix_chain >>= λ a. answer_result q a c
  | k_read_next_b ↦ fatal
]

abbrev pub push_chain_result : IndexQueryResult → SeqnumSuffixChain → SeqnumSuffixChain
push_chain_result r c = record c { pending_query_results = c.pending_query_results ++ r ∷ [] }

abbrev pub answer_query : IndexQuery → SeqnumSuffixChain → Outcome SeqnumSuffixChain
answer_query q c = chain_process_query q c >>= λ r. ok (push_chain_result r c)

-- On an empty chain the miss already asks the last link for its progress.
unfoldable pub chain_make_query : IndexQuery → SeqnumSuffixChain → Outcome SeqnumSuffixChain
chain_make_query q c = chain_view_id c >>= λ view_id. chain_metalog_position c >>= λ current.
    let query_view_id = get_view_id q.metalog_progress in
    let position = low_half64 q.metalog_progress in
    if ltb view_id query_view_id
    then fatal
    else if query_view_id == view_id
    then if ltb current position
      then ok (record c { pending_queries = insert_multi position q c.pending_queries })
      else answer_query q c
    else answer_query q c

unfoldable pub chain_poll_query_results :
    List IndexQueryResult → SeqnumSuffixChain → List IndexQueryResult × SeqnumSuffixChain
chain_poll_query_results results c =
    (results ++ c.pending_query_results, record c { pending_query_results = [] })

unfoldable pub miss_pending : List (ℕ × IndexQuery) → SeqnumSuffixChain → Outcome SeqnumSuffixChain
miss_pending [] c = ok (record c { pending_queries = [] })
miss_pending ((k, q) ∷ rest) c = elim c.suffix_chain [
  | [] ↦ miss_pending rest (push_chain_result (miss_result_for_empty_chain q) c)
  | l ∷ links ↦ chain_miss_result q c >>= λ r. miss_pending rest (push_chain_result r c)
]

unfoldable pub finalize_chain : SeqnumSuffixChain → Outcome SeqnumSuffixChain
finalize_chain c = miss_pending c.pending_queries c

-- The loop over the queries that wait for a position that is reached.
unfoldable pub chain_process_pending :
    List (ℕ × IndexQuery) → SeqnumSuffixChain → Outcome SeqnumSuffixChain
chain_process_pending [] c = ok (record c { pending_queries = [] })
chain_process_pending ((k, q) ∷ rest) c = chain_metalog_position c >>= λ current.
    elim (ltb current k) [
      | true ↦ ok (record c { pending_queries = (k, q) ∷ rest })
      | false ↦ answer_query q c >>= chain_process_pending rest
    ]

-- `ProvideMetaLog` of the last link. The counter goes up by one if the link's position moved.
unfoldable pub extend_last : MetaLog → SeqnumSuffixChain → Outcome SeqnumSuffixChain
extend_last m c = last_link c >>= λ l. provide_meta_log suffix_hooks m l.1 >>= λ r. ok (record c {
  suffix_chain = insert l.0 r.0 c.suffix_chain;
  current_entries = if r.1 then (c.current_entries + 1) % 2 ^ 64 else c.current_entries;
})

-- `trim_count` is `std::round(current_entries * trim_level)` on a `float`.
module _ (trim_count : ℕ → ℕ) where
  unfoldable pub trim_chain : SeqnumSuffixChain → SeqnumSuffixChain
  trim_chain c =
      if ltb c.max_suffix_seq_entries c.current_entries
      then record c {
        suffix_chain = (trim_links (trim_count c.current_entries) c.suffix_chain).0;
        current_entries = (c.current_entries + 2 ^ 64 - trim_count c.current_entries) % 2 ^ 64;
      }
      else c

  -- With the head of the chain, or zero.
  unfoldable pub chain_provide_meta_log :
      MetaLog → SeqnumSuffixChain → Outcome (SeqnumSuffixChain × ℕ)
  chain_provide_meta_log m c = elim c.suffix_chain [
    | [] ↦ ok (c, 0)
    | l ∷ links ↦ extend_last m c >>= λ c₁. chain_process_pending c₁.pending_queries c₁ >>= λ c₂.
        let c₃ = trim_chain c₂ in
        chain_get_head c₃.suffix_chain >>= λ h. ok (c₃, elim h [ none ↦ 0 | some r ↦ r.0 ])
  ]
