-- ===== src/LogSpace/Primary.antt =====
-- `MetaLogPrimary` of src/log/log_space.cpp: the sequencer that cuts the log. Hash sets are lists in
-- any order; `shard_progrsses_`, whose missing entries read as zero, is a function.
pub mod CutShards
pub mod Durable
pub mod MarkCut
pub mod Quorum
pub mod Reach
pub mod Tests
use ixe.Prelude.{
  ℕ, ◌+◌, ◌-◌, ◌/◌, ◌%◌, ◌^◌, min, Bool, true, false, ◌&&◌, not, Option, none, some, List, [], ◌∷◌,
  elem, ltb, leb, ◌==◌, if◌then◌else◌, length, get_elem?, Outcome, ok, fatal, ◌>>=◌, ◌>>◌, require,
  at_or_fatal,
}
use ixe.Prelude.Maps.{find?, contains, put}
use ixe.Bits.{join_two16, low_half32, low_half64}
use ixe.View.{
  View, Sequencer, StorageShard, get_storage_shard, get_storage_node, get_sequencer_node,
}
use ixe.LogSpace.Data.{MetaLog, new_logs, full_mode, normal}
use ixe.LogSpace.Base.{
  Core, Space, no_hooks, new_core, identifier, global_seqnum_position, provide_meta_log,
}

pub record Primary : Type 0 where
  pub view : View
  pub sequencer_node : Sequencer
  pub dirty_shards : List ℕ
  pub last_cut : List (ℕ × ℕ)
  pub shard_progresses : ℕ → ℕ → ℕ
  pub unblocked_shards : List ℕ
  pub blocking_change : Bool
  pub metalog_progresses : List (ℕ × ℕ)
  pub replicated_metalog_position : ℕ

unfoldable pub set_insert : ℕ → List ℕ → List ℕ
set_insert k ks = if elem k ks then ks else k ∷ ks

unfoldable pub set_erase : ℕ → List ℕ → List ℕ
set_erase k [] = []
set_erase k (j ∷ ks) = let rest = set_erase k ks in if j == k then rest else j ∷ rest

unfoldable pub put_zeros : List ℕ → List (ℕ × ℕ) → List (ℕ × ℕ)
put_zeros [] m = m
put_zeros (k ∷ ks) m = put_zeros ks (put k 0 m)

-- The constructor reads every storage shard of the sequencer in the view.
unfoldable pub check_shards : View → ℕ → List ℕ → Outcome (Unit {0})
check_shards view sequencer_id [] = ok tt
check_shards view sequencer_id (k ∷ ks) =
    get_storage_shard view (join_two16 sequencer_id k) >>= λ unit. check_shards view sequencer_id ks

-- The constructor. The source leaves `blocking_change_` unset; nothing reads it.
unfoldable pub new_primary : View → ℕ → Outcome (Core Primary)
new_primary view sequencer_id = do
  node ← get_sequencer_node view sequencer_id
  check_shards view sequencer_id node.storage_shard_ids
  let p : Primary = record {
    view = view;
    sequencer_node = node;
    dirty_shards = [];
    last_cut = put_zeros node.storage_shard_ids [];
    shard_progresses = λ shard storage. 0;
    unblocked_shards = [];
    blocking_change = false;
    metalog_progresses = put_zeros node.replica_sequencer_nodes [];
    replicated_metalog_position = 0;
  }
  let c = new_core full_mode view.id sequencer_id view.local_storage_shard_ids p
  ok (record c { state = normal })

-- The answer, and the last cut of the shard.
unfoldable pub block_shard : ℕ → Primary → Primary × Bool × ℕ
block_shard shard p = elim (find? shard p.last_cut) [
  | none ↦ (p, false, 0)
  | some cut ↦
      if elem shard p.unblocked_shards
      then (
        record p {
          dirty_shards = set_erase shard p.dirty_shards;
          unblocked_shards = set_erase shard p.unblocked_shards;
          blocking_change = true;
        },
        true,
        cut,
      )
      else (p, true, cut)
]

unfoldable pub unblock_shard : ℕ → Primary → Primary × Bool × ℕ
unblock_shard shard p = elim (find? shard p.last_cut) [
  | none ↦ (p, false, 0)
  | some cut ↦ if elem shard p.unblocked_shards then (p, false, 0) else (
    record p { unblocked_shards = set_insert shard p.unblocked_shards; blocking_change = true },
    true,
    cut,
  )
]

-- The loop of `GetShardReplicatedPosition`.
unfoldable pub min_progress : (ℕ → ℕ) → ℕ → List ℕ → ℕ
min_progress progress acc [] = acc
min_progress progress acc (k ∷ ks) = min_progress progress (min acc (progress k)) ks

unfoldable pub get_shard_replicated_position : Primary → ℕ → Outcome ℕ
get_shard_replicated_position p shard = do
  unit ← get_storage_shard p.view (join_two16 p.sequencer_node.node_id shard)
  ok (min_progress (p.shard_progresses shard) (2 ^ 32 - 1) unit.storage_nodes)

abbrev pub set_progress : ℕ → ℕ → ℕ → (ℕ → ℕ → ℕ) → ℕ → ℕ → ℕ
set_progress shard storage v f i j = if i == shard && j == storage then v else f i j

-- A shard is dirty once all its storage nodes are past the last cut.
unfoldable pub raise_shard : ℕ → Primary → Outcome Primary
raise_shard shard p = do
  current ← get_shard_replicated_position p shard
  cut ← at_or_fatal (find? shard p.last_cut)
  ok (if ltb cut current then record p { dirty_shards = set_insert shard p.dirty_shards } else p)

-- One round of `UpdateStorageProgress`.
unfoldable pub update_shard : ℕ → ℕ → ℕ → Primary → Outcome Primary
update_shard storage shard v p =
    if not (elem shard p.unblocked_shards)
    then ok p
    else if not (ltb (p.shard_progresses shard storage) v)
    then ok p
    else raise_shard shard
        (record p { shard_progresses = set_progress shard storage v p.shard_progresses })

-- The shard ids of the storage node and the values reported for them.
unfoldable pub update_shards : ℕ → List ℕ → List ℕ → Primary → Outcome Primary
update_shards storage [] vs p = ok p
update_shards storage (g ∷ gs) [] p = ok p
update_shards storage (g ∷ gs) (v ∷ vs) p =
    update_shard storage (low_half32 g) v p >>= λ p'. update_shards storage gs vs p'

unfoldable pub update_storage_progress : ℕ → List ℕ → Primary → Outcome Primary
update_storage_progress storage progress p = do
  node ← get_storage_node p.view storage
  require (length progress == length node.storage_shard_ids)
  update_shards storage node.storage_shard_ids progress p

-- `absl::c_sort`.
unfoldable pub sorted_insert : ℕ → List ℕ → List ℕ
sorted_insert x [] = x ∷ []
sorted_insert x (y ∷ ys) = if leb x y then x ∷ y ∷ ys else y ∷ sorted_insert x ys

unfoldable pub sort : List ℕ → List ℕ
sort [] = []
sort (x ∷ xs) = sorted_insert x (sort xs)

unfoldable pub values : List (ℕ × ℕ) → List ℕ
values [] = []
values ((k, v) ∷ m) = v ∷ values m

abbrev pub is_empty : List (ℕ × ℕ) → Bool
is_empty [] = true
is_empty (e ∷ m) = false

-- `position` is `metalog_position_`.
unfoldable pub update_meta_log_replicated_position : ℕ → Primary → Outcome Primary
update_meta_log_replicated_position position p =
    if p.replicated_metalog_position == position
    then ok p
    else if is_empty p.metalog_progresses
    then ok p
    else (at_or_fatal
          (get_elem? (sort (values p.metalog_progresses)) (length p.metalog_progresses / 2))
        >>= λ progress. ok (record p { replicated_metalog_position = progress }))

abbrev pub progress_of : ℕ → List (ℕ × ℕ) → ℕ
progress_of k m = elim (find? k m) [ none ↦ 0 | some v ↦ v ]

unfoldable pub accept_replica_progress : ℕ → ℕ → ℕ → Primary → Outcome Primary
accept_replica_progress position sequencer_id metalog_position p =
    if ltb (progress_of sequencer_id p.metalog_progresses) metalog_position
    then update_meta_log_replicated_position position
        (record p { metalog_progresses = put sequencer_id metalog_position p.metalog_progresses })
    else ok p

unfoldable pub update_replica_progress : ℕ → ℕ → ℕ → Primary → Outcome Primary
update_replica_progress position sequencer_id metalog_position p = do
  require (elem sequencer_id p.sequencer_node.replica_sequencer_nodes)
  require (leb metalog_position position)
  accept_replica_progress position sequencer_id metalog_position p

-- The loop of `MarkNextCut`: the three repeated fields of the meta log, and the new last cuts.
pub record Cut : Type 0 where
  pub ids : List ℕ
  pub starts : List ℕ
  pub deltas : List ℕ
  pub last_cut : List (ℕ × ℕ)

unfoldable pub cut_shards : Primary → List (ℕ × ℕ) → List ℕ → Outcome Cut
cut_shards p last_cut [] = ok (record { ids = []; starts = []; deltas = []; last_cut = last_cut })
cut_shards p last_cut (shard ∷ shards) = do
  start ← at_or_fatal (find? shard last_cut)
  current ← get_shard_replicated_position p shard
  rest ← cut_shards p (put shard current last_cut) shards
  ok (record {
    ids = shard ∷ rest.ids;
    starts = start ∷ rest.starts;
    deltas = (current + 2 ^ 32 - start) % 2 ^ 32 ∷ rest.deltas;
    last_cut = rest.last_cut;
  })

abbrev pub cut_meta_log : Core Primary → Cut → MetaLog
cut_meta_log c cut = record {
  logspace_id = identifier c;
  metalog_seqnum = c.metalog_position;
  kind = new_logs;
  new_logs_proto = record {
    start_seqnum = low_half64 (global_seqnum_position c);
    shard_ids = cut.ids;
    shard_starts = cut.starts;
    shard_deltas = cut.deltas;
  };
  trim_proto = record { user_logspace = 0; user_tag = 0; trim_seqnum = 0 };
}

abbrev pub after_cut : Space Primary → Cut → Space Primary
after_cut s cut = record s {
  core = record s.core {
    derived = record s.core.derived {
      last_cut = cut.last_cut;
      blocking_change = false;
      dirty_shards = [];
    };
  };
}

abbrev pub cut_now : Space Primary → Cut → Outcome (Option MetaLog × Space Primary)
cut_now s cut = do
  let m = cut_meta_log s.core cut
  (s', moved) ← provide_meta_log no_hooks m (after_cut s cut)
  require moved
  ok (some m, s')

unfoldable pub mark_next_cut : Space Primary → Outcome (Option MetaLog × Space Primary)
mark_next_cut s = elim s.core.derived.dirty_shards [
  | [] ↦ ok (none, s)
  | k ∷ ks ↦ cut_shards s.core.derived s.core.derived.last_cut (k ∷ ks) >>= λ cut. cut_now s cut
]
