-- ===== src/LogSpace/Data.antt =====
-- The messages of src/proto/shared_log.proto that a log space handles, and its enumerations.
use ixe.Prelude.{ℕ, List}

-- `MetaLogProto::Type`.
pub data MetaLogType : Type 0 where
  invalid new_logs trim : MetaLogType

pub record NewLogs : Type 0 where
  pub start_seqnum : ℕ
  pub shard_ids : List ℕ
  pub shard_starts : List ℕ
  pub shard_deltas : List ℕ

pub record Trim : Type 0 where
  pub user_logspace : ℕ
  pub user_tag : ℕ
  pub trim_seqnum : ℕ

pub record MetaLog : Type 0 where
  pub logspace_id : ℕ
  pub metalog_seqnum : ℕ
  pub kind : MetaLogType
  pub new_logs_proto : NewLogs
  pub trim_proto : Trim

pub data Mode : Type 0 where
  log_storage full_mode log_producer log_suffix : Mode

pub data State : Type 0 where
  created normal frozen finalized : State
