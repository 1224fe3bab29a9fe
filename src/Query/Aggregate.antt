-- ===== src/Query/Aggregate.antt =====
-- `EngineIndexReadOp` of src/log/aggregating.cpp: the results that the index nodes have for one read,
-- joined to one.
pub mod Closest
pub mod Joined
use ixe.Prelude.{
  ℕ, ◌≡◌, Bool, true, false, Option, none, some, List, [], ◌∷◌, elem, length, ltb, ◌==◌,
  if◌then◌else◌,
}
use ixe.Prelude.Maps.{find?, put, erase}
use ixe.Query.{ReadDirection, k_read_prev, QueryState, k_found, k_empty, IndexQueryResult}

pub record IndexReadOp : Type 0 where
  pub aggregated_nodes : List ℕ
  pub index_query_result : IndexQueryResult

abbrev pub is_prev : ReadDirection → Bool
is_prev k_read_prev = true
is_prev _ = false

-- The last two branches: the nearer sequence number stays.
abbrev pub merge_near : IndexQueryResult → IndexQueryResult → IndexQueryResult
merge_near current other =
    let aggregated_result = current.found_result.seqnum in
    let other_result = other.found_result.seqnum in
    if is_prev current.original_query.direction
    then (if ltb aggregated_result other_result then other else current)
    else if ltb other_result aggregated_result
    then other
    else current

-- The branches on the states of both results.
unfoldable pub merge : IndexQueryResult → IndexQueryResult → IndexQueryResult
merge current other = elim current.state [
  | k_found ↦ elim other.state [ k_empty ↦ current | _ ↦ merge_near current other ]
  | k_empty ↦ elim other.state [ k_found ↦ other | _ ↦ merge_near current other ]
  | _ ↦ merge_near current other
]

abbrev pub insert_node : ℕ → List ℕ → List ℕ
insert_node node nodes = if elem node nodes then nodes else node ∷ nodes

-- The operation of this read with the new result.
unfoldable pub update_op : ℕ → IndexQueryResult → Option IndexReadOp → IndexReadOp
update_op node other none = record {
  aggregated_nodes = insert_node node [];
  index_query_result = other;
}
update_op node other (some op) = record {
  aggregated_nodes = insert_node node op.aggregated_nodes;
  index_query_result = merge op.index_query_result other;
}

-- The table of ongoing reads after the call, and the joined result when all nodes have answered.
unfoldable pub aggregate :
    ℕ
    → ℕ
    → IndexQueryResult
    → List (ℕ × IndexReadOp)
    → List (ℕ × IndexReadOp) × Option IndexQueryResult
aggregate num_index_shards node other table =
    let key = other.original_query.client_data in
    let op = update_op node other (find? key table) in
    if length op.aggregated_nodes == num_index_shards
    then (erase key table, some op.index_query_result)
    else (put key op table, none)
