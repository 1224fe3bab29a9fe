-- ===== src/View.antt =====
-- What src/log/view.h keeps of a view for the log spaces: the nodes and the storage shards.
use ixe.Prelude.{ℕ, List, Outcome, at_or_fatal}
use ixe.Prelude.Maps.{find?}

-- `View::StorageShard`.
pub record StorageShard : Type 0 where
  pub shard_id : ℕ
  pub storage_nodes : List ℕ

-- `View::Sequencer`; the shard ids are those that the view keeps for the node.
pub record Sequencer : Type 0 where
  pub node_id : ℕ
  pub replica_sequencer_nodes : List ℕ
  pub storage_shard_ids : List ℕ

-- `View::Storage`.
pub record StorageNode : Type 0 where
  pub node_id : ℕ
  pub storage_shard_ids : List ℕ

pub record View : Type 0 where
  pub id : ℕ
  pub local_storage_shard_ids : List ℕ
  pub sequencer_nodes : List (ℕ × Sequencer)
  pub storage_nodes : List (ℕ × StorageNode)
  pub storage_shard_units : List (ℕ × StorageShard)

unfoldable pub get_storage_shard : View → ℕ → Outcome StorageShard
get_storage_shard v shard_id = at_or_fatal (find? shard_id v.storage_shard_units)

unfoldable pub get_storage_node : View → ℕ → Outcome StorageNode
get_storage_node v node_id = at_or_fatal (find? node_id v.storage_nodes)

unfoldable pub get_sequencer_node : View → ℕ → Outcome Sequencer
get_sequencer_node v node_id = at_or_fatal (find? node_id v.sequencer_nodes)
