-- ===== src/Query.antt =====
-- The queries of an index and their results: src/log/index_dto.h and src/log/index_dto.cpp.
pub mod Messages
pub mod Aggregate
pub mod Tests
use ixe.Prelude.{ℕ, ◌-◌, ◌^◌, ◌≡◌, refl, Bool, true, false, ◌==◌, Outcome, ok, fatal}
use ixe.Bits.{join_two16, low_half32, high_half64}

-- `SharedLogOpType` of src/common/protocol.h.
pub data SharedLogOpType : Type 0 where
  invalid append read_next read_prev trim set_auxdata read_next_b read_at replicate index_data :
      SharedLogOpType
  shard_prog metalogs meta_prog read_next_index_result read_prev_index_result : SharedLogOpType
  read_next_b_index_result read_min response register : SharedLogOpType

-- `IndexQuery::ReadDirection`.
pub data ReadDirection : Type 0 where
  k_read_next k_read_prev k_read_next_b : ReadDirection

-- `IndexQueryResult::State`.
pub data QueryState : Type 0 where
  k_found k_empty k_continue k_miss : QueryState

pub record IndexFoundResult : Type 0 where
  pub view_id : ℕ
  pub storage_shard_id : ℕ
  pub seqnum : ℕ

pub record IndexQuery : Type 0 where
  pub direction : ReadDirection
  pub origin_node_id : ℕ
  pub hop_times : ℕ
  pub initial : Bool
  pub client_data : ℕ
  pub user_logspace : ℕ
  pub user_tag : ℕ
  pub query_seqnum : ℕ
  pub metalog_progress : ℕ
  pub master_node_id : ℕ
  pub aggregate_type : ℕ
  pub prev_found_result : IndexFoundResult

pub record IndexQueryResult : Type 0 where
  pub state : QueryState
  pub metalog_progress : ℕ
  pub next_view_id : ℕ
  pub original_query : IndexQuery
  pub found_result : IndexFoundResult

abbrev pub invalid_log_seqnum : ℕ
invalid_log_seqnum = 2 ^ 64 - 1

abbrev pub no_result : IndexFoundResult
no_result = record { view_id = 0; storage_shard_id = 0; seqnum = invalid_log_seqnum }

unfoldable pub direction_from_op_type : SharedLogOpType → Outcome ReadDirection
direction_from_op_type read_next = ok k_read_next
direction_from_op_type read_next_index_result = ok k_read_next
direction_from_op_type read_prev = ok k_read_prev
direction_from_op_type read_prev_index_result = ok k_read_prev
direction_from_op_type read_next_b = ok k_read_next_b
direction_from_op_type read_next_b_index_result = ok k_read_next_b
direction_from_op_type read_min = ok k_read_next
direction_from_op_type _ = fatal

unfoldable pub direction_to_op_type : ReadDirection → SharedLogOpType
direction_to_op_type k_read_next = read_next
direction_to_op_type k_read_prev = read_prev
direction_to_op_type k_read_next_b = read_next_b

unfoldable pub direction_to_index_result : ReadDirection → SharedLogOpType
direction_to_index_result k_read_next = read_next_index_result
direction_to_index_result k_read_prev = read_prev_index_result
direction_to_index_result k_read_next_b = read_next_b_index_result

abbrev pub is_found : QueryState → Bool
is_found k_found = true
is_found _ = false

unfoldable pub global_storage_shard_id : IndexQueryResult → ℕ
unfolding join_two16 low_half32 high_half64
global_storage_shard_id r =
    join_two16 (low_half32 (high_half64 r.found_result.seqnum)) r.found_result.storage_shard_id

unfoldable pub is_point_hit : IndexQueryResult → Bool
is_point_hit r = elim (is_found r.state) [
  | false ↦ false
  | true ↦ r.original_query.query_seqnum == r.found_result.seqnum
]

-- Both op types of a direction come back as that direction.
pub direction_roundtrip :
    (d : ReadDirection)
    → (direction_from_op_type (direction_to_op_type d) ≡ ok d)
      × (direction_from_op_type (direction_to_index_result d) ≡ ok d)
unfolding direction_from_op_type direction_to_op_type direction_to_index_result
direction_roundtrip k_read_next = (refl, refl)
direction_roundtrip k_read_prev = (refl, refl)
direction_roundtrip k_read_next_b = (refl, refl)
