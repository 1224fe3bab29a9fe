-- ===== src/LogSpace/Primary/Tests.antt =====
-- Runs of `MetaLogPrimary` (src/log/log_space.cpp).
use ixe.Prelude.{
  ℕ, ◌≤◌, ◌<◌, ◌≡◌, refl, subst, arith, true, false, [], ◌∷◌, elem, ◌==◌, if◌then◌else◌, some, ok,
  ok-injective, sym, ap,
}
use ixe.Prelude.Maps.{put, find?, contains}
use ixe.Bits.{join_two16, low_half32}
use ixe.View.{
  View, Sequencer, StorageShard, get_storage_shard, get_storage_node, get_sequencer_node,
}
use ixe.LogSpace.Data.{MetaLog, full_mode, normal}
use ixe.LogSpace.Base.{Core, Space, new_core}
use ixe.LogSpace.Primary.{
  set_progress, Primary, new_primary, check_shards, put_zeros, min_progress,
  get_shard_replicated_position, unblock_shard, set_insert, update_storage_progress, update_shards,
  update_shard, raise_shard, update_replica_progress, values, progress_of,
}
use ixe.LogSpace.Primary.Durable.{IsDurable, Replicated}
use ixe.LogSpace.Primary.MarkCut.{IsReady, Marked, mark_next_cut_lem}
use ixe.LogSpace.Primary.Quorum.{IsQuorate, IsGreatest, update_replica_progress_lem}
use ixe.LogSpace.Primary.Reach.{
  with_primary, next, start, unblock, storage_report, IsSound, Reach-IsSound,
}

-- Sequencer 1 has shard 0, kept by the storage nodes 7 and 8, and three replicas.
abbrev shard_unit : StorageShard
shard_unit = record { shard_id = 65536; storage_nodes = 7 ∷ 8 ∷ [] }

abbrev sequencer : Sequencer
sequencer = record {
  node_id = 1;
  replica_sequencer_nodes = 2 ∷ 3 ∷ 4 ∷ [];
  storage_shard_ids = 0 ∷ [];
}

abbrev view : View
view = record {
  id = 5;
  local_storage_shard_ids = 0 ∷ [];
  sequencer_nodes = (1, sequencer) ∷ [];
  storage_nodes = (7, record { node_id = 7; storage_shard_ids = 65536 ∷ [] }) ∷ [];
  storage_shard_units = (65536, shard_unit) ∷ [];
}

-- Node 7 holds six records of the shard and node 8 holds four; the last cut is at 3.
abbrev dirty : Primary
dirty = record {
  view = view;
  sequencer_node = sequencer;
  dirty_shards = 0 ∷ [];
  last_cut = (0, 3) ∷ [];
  shard_progresses = λ shard storage. if storage == 7 then 6 else 4;
  unblocked_shards = 0 ∷ [];
  blocking_change = false;
  metalog_progresses = (2, 0) ∷ (3, 1) ∷ (4, 1) ∷ [];
  replicated_metalog_position = 1;
}

abbrev dirty_space : Space Primary
dirty_space = record {
  core = record {
    mode = full_mode;
    state = normal;
    view_id = 5;
    sequencer_id = 1;
    metalog_position = 2;
    interested_shards = [];
    shard_progresses = [];
    seqnum_position = 3;
    applied_metalogs = [];
    derived = dirty;
  };
  pending_metalogs = [];
}

dirty_shard : get_storage_shard view (join_two16 1 0) ≡ ok shard_unit
unfolding get_storage_shard join_two16 find?
dirty_shard = refl

dirty-Replicated : Replicated dirty 0 4
unfolding get_shard_replicated_position min_progress
dirty-Replicated = rw dirty_shard refl

only_cut : (k c : ℕ) → find? k dirty.last_cut ≡ some c → (0 ≡ k) × (3 ≡ c)
unfolding find?
only_cut k c h = ground arith

only_dirty : (k : ℕ) → elem k dirty.dirty_shards ≡ true → 0 ≡ k
unfolding elem
only_dirty k h = ground arith

dirty-IsDurable : IsDurable dirty
unfolding find? elem
dirty-IsDurable = record {
  covered = λ k c f.
      let (here, cut) = only_cut k c f in
      (4, subst (λ i. Replicated dirty i 4) here dirty-Replicated, omega arith);
  ahead = λ k h.
      let here = only_dirty k h in
      (
        3,
        4,
        ap (λ i. find? i dirty.last_cut) (sym here),
        subst (λ i. Replicated dirty i 4) here dirty-Replicated,
        omega arith,
      );
  unblocked = λ k h. h;
  distinct = (refl, tt);
}

dirty-IsQuorate : IsQuorate 2 dirty
unfolding values elem contains
dirty-IsQuorate = record {
  majority = omega arith;
  bounded = omega arith;
  reached = ground arith;
  known = λ k h. ground arith;
}

dirty_space-IsReady : IsReady dirty_space
dirty_space-IsReady = record {
  mode = refl;
  pending = refl;
  position = omega arith;
  seqnum = omega arith;
}

mark_next_cut_lem_example : (m : MetaLog) × (s' : Space Primary) × Marked dirty_space m s'
mark_next_cut_lem_example =
    mark_next_cut_lem dirty_space 0 [] dirty_space-IsReady dirty-IsDurable refl

-- The report of replica 3 moves the replicated position.
update_replica_progress_lem_example :
    (q : Primary) × (update_replica_progress 2 2 2 dirty ≡ ok q)
    × IsQuorate 2 q
    × (1 ≤ q.replicated_metalog_position)
    × (2 ≤ progress_of 2 dirty.metalog_progresses → q ≡ dirty)
    × (progress_of 2 dirty.metalog_progresses < 2
        → IsGreatest q
          × (q ≡ record dirty {
            metalog_progresses = put 2 2 dirty.metalog_progresses;
            replicated_metalog_position = q.replicated_metalog_position;
          }))
unfolding elem
update_replica_progress_lem_example =
    update_replica_progress_lem 2 2 2 dirty dirty-IsQuorate refl (omega arith)

-- From the constructor: a shard is unblocked, its nodes report, and the log is cut.
named : (node : Sequencer) → get_sequencer_node view 1 ≡ ok node → node.node_id ≡ 1
unfolding get_sequencer_node find?
named node h = ap (λ (n : Sequencer). n.node_id) (sym (ok-injective sequencer node h))

abbrev first_core : Core Primary
first_core = record {
  mode = full_mode;
  state = normal;
  view_id = 5;
  sequencer_id = 1;
  metalog_position = 0;
  interested_shards = [];
  shard_progresses = (0, 0) ∷ [];
  seqnum_position = 0;
  applied_metalogs = [];
  derived = record {
    view = view;
    sequencer_node = sequencer;
    dirty_shards = [];
    last_cut = (0, 0) ∷ [];
    shard_progresses = λ shard storage. 0;
    unblocked_shards = [];
    blocking_change = false;
    metalog_progresses = (2, 0) ∷ (3, 0) ∷ (4, 0) ∷ [];
    replicated_metalog_position = 0;
  };
}

begun : new_primary view 1 ≡ ok first_core
unfolding new_primary get_sequencer_node check_shards get_storage_shard join_two16 find? put_zeros
    put new_core
begun = refl

abbrev first_space : Space Primary
first_space = record { core = first_core; pending_metalogs = [] }

abbrev unblocked_space : Space Primary
unblocked_space = with_primary first_space (unblock_shard 0 first_core.derived).0

abbrev reported : Primary
reported = record (unblock_shard 0 first_core.derived).0 {
  shard_progresses = set_progress 0 7 6 (λ shard storage. 0);
}

report_runs : update_storage_progress 7 (6 ∷ []) unblocked_space.core.derived ≡ ok reported
unfolding update_storage_progress update_shards update_shard raise_shard
    get_shard_replicated_position min_progress unblock_shard set_insert get_storage_shard
    get_storage_node join_two16 low_half32 find? elem
report_runs = refl

Reach-IsSound_example : IsSound (with_primary unblocked_space reported)
Reach-IsSound_example = Reach-IsSound view 1 (with_primary unblocked_space reported) named (
    next (next (start first_core begun) (unblock 0))
      (storage_report 7 (6 ∷ []) reported report_runs))
