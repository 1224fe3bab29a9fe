-- ===== src/Tests.antt =====
-- Runs of src/utils/bits.h and src/log/utils.cpp.
use ixe.Prelude.{◌≡◌, arith, [], ◌∷◌, ◌++◌, ◌^◌, ◌+◌}
use ixe.Protocol.Payload.{write_tags, split_payload_for_message, split_payload_roundtrip}
use ixe.Protocol.{SharedLogMessage, LogMetaData}

abbrev message : SharedLogMessage
message = record {
  op_type = 2;
  flags = 0;
  origin_node_id = 4;
  hop_times = 1;
  payload_size = 30;
  logspace_id = 0;
  user_logspace = 0;
  seqnum_lowhalf = 0;
  query_tag = 0;
  user_metalog_progress = 0;
  localid = 0;
  client_data = 9;
  prev_found_seqnum = 0;
}

abbrev metadata : LogMetaData
metadata = record {
  user_logspace = 6;
  seqnum = 4294967298;
  localid = 12;
  num_tags = 2;
  data_size = 14;
}

-- One tag, two bytes of data and one of auxiliary data.
abbrev with_payload : SharedLogMessage
with_payload = record message { query_tag = 2 ^ 16 + 1; payload_size = 11 }

split_payload_roundtrip_example :
    split_payload_for_message with_payload (write_tags (700 ∷ []) ++ ((1 ∷ 2 ∷ []) ++ (3 ∷ [])))
    ≡ (700 ∷ [], 1 ∷ 2 ∷ [], 3 ∷ [])
split_payload_roundtrip_example =
    split_payload_roundtrip with_payload (700 ∷ []) (1 ∷ 2 ∷ []) (3 ∷ []) (omega arith, tt)
      (omega arith) (omega arith) (omega arith) (omega arith)
