-- ===== src/Query/Messages/Roundtrip.antt =====
-- What the messages about queries (src/log/engine.cpp, src/log/indexer.cpp, src/log/indexer_base.cpp)
-- keep of them.
use ixe.Prelude.{
  ℕ, ◌^◌, ◌<◌, ◌≡◌, ◌⊎◌, inl, inr, refl, sym, ap, ◌∙◌, true, ◌||◌, some, arith, ◌==◌, if◌then◌else◌,
  Outcome, ok, fatal, ◌>>=◌, at_or_fatal,
}
use ixe.Protocol.{SharedLogMessage}
use ixe.Query.{
  SharedLogOpType, invalid, append, read_next, read_prev, trim, set_auxdata, read_next_b, read_at,
  replicate, index_data, shard_prog, metalogs, meta_prog, read_next_index_result,
  read_prev_index_result, read_next_b_index_result, read_min, response, register, k_found, k_empty,
  IndexQuery, IndexQueryResult, invalid_log_seqnum, direction_from_op_type,
  direction_to_index_result, direction_roundtrip,
}
use ixe.Query.Messages.{
  op_type_code, op_types, with_code, get_op_type, new_message, pair16, first16, second16,
  use_aggregator, use_master_slave, LocalOp, build_read_request_message, build_index_query_of_op,
  direction_of, build_indexer_query, build_index_tier_request_message, master_index_result,
  build_index_result,
}

with_code-op_type_code : (t : SharedLogOpType) → with_code (op_type_code t) op_types ≡ some t
unfolding with_code op_type_code
with_code-op_type_code invalid = refl
with_code-op_type_code append = refl
with_code-op_type_code read_next = refl
with_code-op_type_code read_prev = refl
with_code-op_type_code trim = refl
with_code-op_type_code set_auxdata = refl
with_code-op_type_code read_next_b = refl
with_code-op_type_code read_at = refl
with_code-op_type_code replicate = refl
with_code-op_type_code index_data = refl
with_code-op_type_code shard_prog = refl
with_code-op_type_code metalogs = refl
with_code-op_type_code meta_prog = refl
with_code-op_type_code read_next_index_result = refl
with_code-op_type_code read_prev_index_result = refl
with_code-op_type_code read_next_b_index_result = refl
with_code-op_type_code read_min = refl
with_code-op_type_code response = refl
with_code-op_type_code register = refl

direction_of-op_type_code :
    (m : SharedLogMessage) (t : SharedLogOpType)
    → m.op_type ≡ op_type_code t
    → direction_of m ≡ direction_from_op_type t
unfolding get_op_type
direction_of-op_type_code m t e =
    ap (λ code. at_or_fatal (with_code code op_types) >>= direction_from_op_type) e
    ∙ ap (λ o. at_or_fatal o >>= direction_from_op_type) (with_code-op_type_code t)

>>=_split {ℓ₁ ℓ₂ ℓ₃} :
    {A : Type ℓ₁} {B : Type ℓ₂} {C : Type ℓ₃} (o : Outcome A) (f : A → B) (h : B → C)
    → (o >>= λ x. ok (h (f x))) ≡ ((o >>= λ x. ok (f x)) >>= λ y. ok (h y))
>>=_split (ok x) f h = refl
>>=_split fatal f h = refl

pair16_lem :
    (low high : ℕ)
    → low < 2 ^ 16
    → high < 2 ^ 16
    → (first16 (pair16 low high) ≡ low) × (second16 (pair16 low high) ≡ high)
pair16_lem low high a b = (omega arith, omega arith)

-- A read that an engine sends to an index node, for a master or an aggregator to join the results, is
-- there the query that the engine would have made for an index of its own, one hop later, with that node
-- and the way of joining; an operation that is not a read ends both.
pub engine_query_roundtrip :
    (my_node_id node kind : ℕ) (op : LocalOp)
    → node < 2 ^ 16
    → (kind ≡ use_aggregator) ⊎ (kind ≡ use_master_slave)
    → let m = build_index_tier_request_message my_node_id op node kind in
      build_indexer_query m m.origin_node_id ≡ (
        build_index_query_of_op my_node_id op >>= λ q.
        ok (record q { hop_times = 1; master_node_id = node; aggregate_type = kind }))
unfolding build_indexer_query build_index_tier_request_message build_read_request_message
    build_index_query_of_op get_op_type new_message with_code op_type_code direction_from_op_type
engine_query_roundtrip my_node_id node kind op node_range kinds =
    let m = build_index_tier_request_message my_node_id op node kind in
    let kind_range : kind < 2 ^ 16 = elim kinds [
      | inl e ↦ omega (arith, e)
      | inr e ↦ omega (arith, e)
    ] in
    let (low, high) = pair16_lem kind node kind_range node_range in
    let tiered : (kind == use_aggregator || kind == use_master_slave) ≡ true = elim kinds [
      | inl e ↦ ground (arith, e)
      | inr e ↦ ground (arith, e)
    ] in
    rw (direction_of-op_type_code m op.kind refl, build_indexer_query)
      (rw (low, high)
        (rw tiered (
          >>=_split (direction_from_op_type op.kind) _ (λ (q : IndexQuery). record q {
            hop_times = 1;
            master_node_id = node;
            aggregate_type = kind;
          }))))

-- A found or empty result that a node sends to the master of its query is there the same result.
pub master_result_roundtrip :
    (my_node_id : ℕ) (r : IndexQueryResult)
    → r.state ≡ (if r.found_result.seqnum == invalid_log_seqnum then k_empty else k_found)
    → r.found_result.view_id < 2 ^ 16
    → r.found_result.storage_shard_id < 2 ^ 16
    → r.original_query.origin_node_id < 2 ^ 16
    → (r' : IndexQueryResult) × (build_index_result (master_index_result my_node_id r) ≡ ok r')
      × (r'.state ≡ r.state)
      × (r'.found_result ≡ r.found_result)
      × (r'.metalog_progress ≡ r.metalog_progress)
      × (r'.original_query.direction ≡ r.original_query.direction)
      × (r'.original_query.origin_node_id ≡ r.original_query.origin_node_id)
      × (r'.original_query.client_data ≡ r.original_query.client_data)
      × (r'.original_query.query_seqnum ≡ r.original_query.query_seqnum)
unfolding build_index_result master_index_result get_op_type new_message with_code op_type_code
    direction_from_op_type direction_to_index_result
master_result_roundtrip my_node_id r e a b c =
    let d =
      direction_of-op_type_code (master_index_result my_node_id r)
        (direction_to_index_result r.original_query.direction) refl
      ∙ (direction_roundtrip r.original_query.direction).1 in
    let (low, high) = pair16_lem r.found_result.storage_shard_id r.found_result.view_id b a in
    rw (d, build_index_result)
      (rw (low, high) (_, refl, sym e, refl, refl, refl, omega (arith, c), refl, refl))
