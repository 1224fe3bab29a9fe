-- ===== src/Protocol.antt =====
-- `SharedLogMessage` of src/common/protocol.h, the record types of src/log/common.h, and the
-- conversions between them in src/log/utils.cpp.
pub mod Payload
use ixe.Prelude.{length, ℕ, ◌+◌, ◌-◌, ◌*◌, ◌/◌, ◌%◌, ◌^◌, ◌<◌, ◌≡◌, List, arith}
use ixe.Bits.{join_two32, low_half64, high_half64}

-- One field for each group of union members that share bytes, named after its widest member.
pub record SharedLogMessage : Type 0 where
  pub op_type : ℕ
  pub flags : ℕ
  pub origin_node_id : ℕ
  pub hop_times : ℕ
  pub payload_size : ℕ
  pub logspace_id : ℕ
  pub user_logspace : ℕ
  pub seqnum_lowhalf : ℕ
  pub query_tag : ℕ
  pub user_metalog_progress : ℕ
  pub localid : ℕ
  pub client_data : ℕ
  pub prev_found_seqnum : ℕ

-- The members that share the bytes of `query_tag`, on a little-endian machine.
abbrev pub num_tags : SharedLogMessage → ℕ
num_tags m = m.query_tag % 2 ^ 16

abbrev pub aux_data_size : SharedLogMessage → ℕ
aux_data_size m = (m.query_tag / 2 ^ 16) % 2 ^ 16

abbrev pub set_num_tags : ℕ → ℕ → ℕ
set_num_tags n word = word / 2 ^ 16 * 2 ^ 16 + n % 2 ^ 16

pub record LogMetaData : Type 0 where
  pub user_logspace : ℕ
  pub seqnum : ℕ
  pub localid : ℕ
  pub num_tags : ℕ
  pub data_size : ℕ

pub record LogEntry : Type 0 where
  pub metadata : LogMetaData
  pub user_tags : List ℕ
  pub data_bytes : List ℕ

-- Subtraction of sizes, which are 64 bits wide and wrap.
abbrev pub sub_size : ℕ → ℕ → ℕ
sub_size a b = (a + 2 ^ 64 - b) % 2 ^ 64

unfoldable pub get_meta_data_from_message : SharedLogMessage → LogMetaData
unfolding join_two32
get_meta_data_from_message m = record {
  user_logspace = m.user_logspace;
  seqnum = join_two32 m.logspace_id m.seqnum_lowhalf;
  localid = m.localid;
  num_tags = num_tags m;
  data_size = sub_size (sub_size m.payload_size (num_tags m * 8)) (aux_data_size m);
}

unfoldable pub populate_meta_data_to_message : LogMetaData → SharedLogMessage → SharedLogMessage
unfolding low_half64 high_half64
populate_meta_data_to_message d m = record m {
  logspace_id = high_half64 d.seqnum;
  user_logspace = d.user_logspace;
  seqnum_lowhalf = low_half64 d.seqnum;
  query_tag = set_num_tags d.num_tags m.query_tag;
  localid = d.localid;
}

-- A message filled from a record's metadata gives that metadata back, when the payload has the tags,
-- the data and the auxiliary data that it announces.
pub metadata_roundtrip :
    (d : LogMetaData) (m : SharedLogMessage)
    → d.seqnum < 2 ^ 64
    → d.num_tags < 2 ^ 16
    → m.query_tag < 2 ^ 64
    → m.payload_size < 2 ^ 32
    → m.payload_size ≡ d.num_tags * 8 + d.data_size + aux_data_size m
    → get_meta_data_from_message (populate_meta_data_to_message d m) ≡ d
unfolding get_meta_data_from_message populate_meta_data_to_message
metadata_roundtrip d m s t q p e = ground arith

-- `LogEntryProto` of src/proto/shared_log.proto.
pub record LogEntryProto : Type 0 where
  pub user_logspace : ℕ
  pub seqnum : ℕ
  pub localid : ℕ
  pub user_tags : List ℕ
  pub data_bytes : List ℕ

unfoldable pub populate_log_entry_to_message : LogEntryProto → SharedLogMessage → SharedLogMessage
unfolding low_half64 high_half64
populate_log_entry_to_message e m = record m {
  logspace_id = high_half64 e.seqnum;
  user_logspace = e.user_logspace;
  seqnum_lowhalf = low_half64 e.seqnum;
  query_tag = set_num_tags (length e.user_tags) m.query_tag;
  localid = e.localid;
}

-- The metadata of a stored record.
abbrev pub metadata_of : LogEntryProto → LogMetaData
metadata_of e = record {
  user_logspace = e.user_logspace;
  seqnum = e.seqnum;
  localid = e.localid;
  num_tags = length e.user_tags;
  data_size = length e.data_bytes;
}

-- A message filled from a stored record gives the metadata of that record back, under the conditions of
-- `metadata_roundtrip`.
pub log_entry_roundtrip :
    (e : LogEntryProto) (m : SharedLogMessage)
    → e.seqnum < 2 ^ 64
    → length e.user_tags < 2 ^ 16
    → m.query_tag < 2 ^ 64
    → m.payload_size < 2 ^ 32
    → m.payload_size ≡ length e.user_tags * 8 + length e.data_bytes + aux_data_size m
    → get_meta_data_from_message (populate_log_entry_to_message e m) ≡ metadata_of e
unfolding populate_log_entry_to_message populate_meta_data_to_message
log_entry_roundtrip e m s t q p x = metadata_roundtrip (metadata_of e) m s t q p x
