-- ===== src/Query/Messages.antt =====
-- How queries and results travel: the conversions between `SharedLogMessage` and the types of
-- src/log/index_dto.h in src/log/engine.cpp, src/log/indexer.cpp, src/log/indexer_base.cpp and
-- src/log/aggregator.cpp.
pub mod Roundtrip
use ixe.Prelude.{
  ℕ, ◌+◌, ◌*◌, ◌/◌, ◌%◌, ◌^◌, ◌≡◌, refl, Bool, true, false, ◌||◌, not, Option, none, some, List, [],
  ◌∷◌, arith, ◌==◌, if◌then◌else◌, Outcome, ok, fatal, ◌>>=◌, at_or_fatal,
}
use ixe.Prelude.Maps.{find?}
use ixe.Protocol.{SharedLogMessage}
use ixe.Query.{
  SharedLogOpType, invalid, append, read_next, read_prev, trim, set_auxdata, read_next_b, read_at,
  replicate, index_data, shard_prog, metalogs, meta_prog, read_next_index_result,
  read_prev_index_result, read_next_b_index_result, read_min, response, register, ReadDirection,
  QueryState, k_found, k_empty, IndexFoundResult, IndexQuery, IndexQueryResult, invalid_log_seqnum,
  no_result, direction_from_op_type, direction_to_op_type, direction_to_index_result,
}

-- The numbers of the enumerators.
unfoldable pub op_type_code : SharedLogOpType → ℕ
op_type_code invalid = 0
op_type_code append = 1
op_type_code read_next = 2
op_type_code read_prev = 3
op_type_code trim = 4
op_type_code set_auxdata = 5
op_type_code read_next_b = 6
op_type_code read_at = 16
op_type_code replicate = 17
op_type_code index_data = 18
op_type_code shard_prog = 19
op_type_code metalogs = 20
op_type_code meta_prog = 21
op_type_code read_next_index_result = 22
op_type_code read_prev_index_result = 23
op_type_code read_next_b_index_result = 24
op_type_code read_min = 25
op_type_code response = 32
op_type_code register = 64

abbrev pub op_types : List SharedLogOpType
op_types =
    invalid ∷ append ∷ read_next ∷ read_prev ∷ trim ∷ set_auxdata ∷ read_next_b ∷ read_at
    ∷ replicate ∷ index_data ∷ shard_prog ∷ metalogs ∷ meta_prog ∷ read_next_index_result
    ∷ read_prev_index_result ∷ read_next_b_index_result ∷ read_min ∷ response ∷ register ∷ []

unfoldable pub with_code : ℕ → List SharedLogOpType → Option SharedLogOpType
with_code code [] = none
with_code code (t ∷ ts) = if op_type_code t == code then some t else with_code code ts

-- `GetOpType`, a cast: a number of no enumerator reaches the `default` of every `switch`.
unfoldable pub get_op_type : SharedLogMessage → Option SharedLogOpType
get_op_type m = with_code m.op_type op_types

-- `NEW_EMPTY_SHAREDLOG_MESSAGE` and the type, as in `NewReadMessage` and `NewIndexResultResponse`.
unfoldable pub new_message : SharedLogOpType → SharedLogMessage
new_message kind = record {
  op_type = op_type_code kind;
  flags = 0;
  origin_node_id = 0;
  hop_times = 0;
  payload_size = 0;
  logspace_id = 0;
  user_logspace = 0;
  seqnum_lowhalf = 0;
  query_tag = 0;
  user_metalog_progress = 0;
  localid = 0;
  client_data = 0;
  prev_found_seqnum = 0;
}

-- Two members of 16 bits that share a word: the first is the low half on a little-endian machine.
abbrev pub pair16 : ℕ → ℕ → ℕ
pair16 low high = low % 2 ^ 16 + high % 2 ^ 16 * 2 ^ 16

abbrev pub first16 : ℕ → ℕ
first16 word = word % 2 ^ 16

abbrev pub second16 : ℕ → ℕ
second16 word = (word / 2 ^ 16) % 2 ^ 16

abbrev pub read_initial_flag : ℕ
read_initial_flag = 1

-- `flags | kReadInitialFlag`.
abbrev pub or_initial : ℕ → ℕ
or_initial flags = flags / 2 * 2 + read_initial_flag

abbrev pub use_aggregator : ℕ
use_aggregator = 65535

abbrev pub use_master_slave : ℕ
use_master_slave = 65534

-- `EngineBase::LocalOp`, the fields that a read has.
pub record LocalOp : Type 0 where
  pub kind : SharedLogOpType
  pub user_logspace : ℕ
  pub id : ℕ
  pub metalog_progress : ℕ
  pub query_tag : ℕ
  pub seqnum : ℕ

-- `Engine::BuildReadRequestMessage`.
unfoldable pub build_read_request_message : ℕ → LocalOp → SharedLogMessage
build_read_request_message my_node_id op = record (new_message op.kind) {
  origin_node_id = my_node_id;
  hop_times = 1;
  client_data = op.id;
  user_logspace = op.user_logspace;
  query_tag = op.query_tag;
  localid = op.seqnum;
  user_metalog_progress = op.metalog_progress;
  flags = or_initial 0;
  seqnum_lowhalf = pair16 0 0;
  prev_found_seqnum = invalid_log_seqnum;
}

-- `Engine::BuildIndexTierReadRequestMessage`.
unfoldable pub build_index_tier_request_message : ℕ → LocalOp → ℕ → ℕ → SharedLogMessage
build_index_tier_request_message my_node_id op aggregator_node_id aggregator_type =
    record (build_read_request_message my_node_id op) {
      seqnum_lowhalf = pair16 aggregator_type aggregator_node_id;
    }

-- `Engine::BuildIndexQuery` of an operation.
unfoldable pub build_index_query_of_op : ℕ → LocalOp → Outcome IndexQuery
build_index_query_of_op my_node_id op = direction_from_op_type op.kind >>= λ direction. ok (record {
  direction = direction;
  origin_node_id = my_node_id;
  hop_times = 0;
  initial = true;
  client_data = op.id;
  user_logspace = op.user_logspace;
  user_tag = op.query_tag;
  query_seqnum = op.seqnum;
  metalog_progress = op.metalog_progress;
  master_node_id = 0;
  aggregate_type = 0;
  prev_found_result = no_result;
})

abbrev pub direction_of : SharedLogMessage → Outcome ReadDirection
direction_of m = at_or_fatal (get_op_type m) >>= direction_from_op_type

-- `Indexer::BuildIndexQuery` of a message. The flags are joined by `|` in the test.
unfoldable pub build_indexer_query : SharedLogMessage → ℕ → Outcome IndexQuery
build_indexer_query m original_requester_id = direction_of m >>= λ direction.
    let kind = first16 m.seqnum_lowhalf in
    let tiered = kind == use_aggregator || kind == use_master_slave in
    ok (record {
      direction = direction;
      origin_node_id = original_requester_id;
      hop_times = m.hop_times;
      initial = not (or_initial m.flags == 0);
      client_data = m.client_data;
      user_logspace = m.user_logspace;
      user_tag = m.query_tag;
      query_seqnum = m.localid;
      metalog_progress = m.user_metalog_progress;
      master_node_id = second16 m.seqnum_lowhalf;
      aggregate_type = if tiered then kind else 0;
      prev_found_result = record {
        view_id = if tiered then 0 else first16 m.seqnum_lowhalf;
        storage_shard_id = if tiered then 0 else second16 m.seqnum_lowhalf;
        seqnum = m.prev_found_seqnum;
      };
    })

-- `BuildIndexQuery` of a result to continue, which is the same in both classes.
unfoldable pub build_index_query : IndexQueryResult → IndexQuery
build_index_query r = record r.original_query {
  initial = false;
  metalog_progress = r.metalog_progress;
  prev_found_result = r.found_result;
}

-- The message of `SendMasterIndexResult`. The last 16 bits of the tag's word are `engine_node_id`, and
-- the word of the found result starts with the shard.
unfoldable pub master_index_result : ℕ → IndexQueryResult → SharedLogMessage
master_index_result my_node_id r =
    let q = r.original_query in
    record (new_message (direction_to_index_result q.direction)) {
      origin_node_id = my_node_id;
      hop_times = (q.hop_times + 1) % 2 ^ 16;
      client_data = q.client_data;
      user_logspace = q.user_logspace;
      localid = q.query_seqnum;
      user_metalog_progress = r.metalog_progress;
      seqnum_lowhalf = pair16 r.found_result.storage_shard_id r.found_result.view_id;
      prev_found_seqnum = r.found_result.seqnum;
      query_tag = q.origin_node_id % 2 ^ 16 * 2 ^ 48;
    }

-- `BuildIndexResult`, the same in `Indexer` and `Aggregator`. What it does not name is zero.
unfoldable pub build_index_result : SharedLogMessage → Outcome IndexQueryResult
build_index_result m = direction_of m >>= λ direction. ok (record {
  state = if m.prev_found_seqnum == invalid_log_seqnum then k_empty else k_found;
  metalog_progress = m.user_metalog_progress;
  next_view_id = 0;
  original_query = record {
    direction = direction;
    origin_node_id = m.query_tag / 2 ^ 48 % 2 ^ 16;
    hop_times = m.hop_times;
    initial = false;
    client_data = m.client_data;
    user_logspace = m.user_logspace;
    user_tag = 0;
    query_seqnum = m.localid;
    metalog_progress = m.user_metalog_progress;
    master_node_id = 0;
    aggregate_type = 0;
    prev_found_result = record { view_id = 0; storage_shard_id = 0; seqnum = 0 };
  };
  found_result = record {
    view_id = second16 m.seqnum_lowhalf;
    storage_shard_id = first16 m.seqnum_lowhalf;
    seqnum = m.prev_found_seqnum;
  };
})
