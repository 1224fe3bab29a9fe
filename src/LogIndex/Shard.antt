-- ===== src/LogIndex/Shard.antt =====
-- `IndexShard` of src/log/index_shard.cpp: the index of those meta logs whose turn falls to one of
-- several index nodes.
pub mod Reports
pub mod Enough
pub mod Tests
use ixe.Prelude.{
  ℕ, zero, suc, ◌+◌, ◌-◌, ◌%◌, ◌^◌, Bool, true, false, ◌&&◌, not, Option, none, some, List, [], ◌∷◌,
  elem, length, ltb, leb, ◌==◌, if◌then◌else◌, Outcome, ok, ◌>>=◌, at_or_fatal,
}
use ixe.Prelude.Maps.{find?, put, erase}
use ixe.Bits.{join_two32}
use ixe.LogSpace.Storage.{IndexDataProto}
use ixe.LogIndex.{Index, new_index, answer_queries, index_until}
use ixe.LogIndex.Complete.{receive}

-- `base` is the part that `Index` declares.
pub record IndexShard : Type 0 where
  pub base : Index
  pub storage_shards_index_updates : List (ℕ × (ℕ × List ℕ))
  pub end_seqnum_positions : List (ℕ × ℕ)
  pub num_shards : ℕ

-- The constructor, of these fields.
unfoldable pub new_index_shard : ℕ → ℕ → IndexShard
new_index_shard index_shard_id num_shards = record {
  base = record new_index { indexed_metalog_position = index_shard_id };
  storage_shards_index_updates = [];
  end_seqnum_positions = [];
  num_shards = num_shards;
}

-- `insert` of a range into a hash set of 16-bit numbers.
unfoldable pub insert_shards : List ℕ → List ℕ → List ℕ
insert_shards [] set = set
insert_shards (k ∷ ks) set =
    insert_shards ks (if elem (k % 2 ^ 16) set then set else k % 2 ^ 16 ∷ set)

unfoldable pub provide_shard_data : IndexDataProto → Index → Outcome Index
provide_shard_data p s =
    receive s.indexed_seqnum_position p.seqnum_halves p.engine_ids p.user_logspaces p.user_tag_sizes
      p.user_tags s.received_data
    >>= λ m. ok (record s { received_data = m })

-- The Boolean says whether the data is new.
unfoldable pub check_if_new_index_data : IndexDataProto → IndexShard → IndexShard × Bool
check_if_new_index_data p s =
    if leb p.metalog_position s.base.indexed_metalog_position
    then (s, false)
    else elim (find? p.metalog_position s.storage_shards_index_updates) [
      | some (count, shards) ↦
          let more = insert_shards p.my_productive_storage_shards shards in
          (
            record s {
              storage_shards_index_updates =
                  put p.metalog_position (count, more) s.storage_shards_index_updates;
            },
            ltb (length shards) (length more),
          )
      | none ↦ (
        record s {
          storage_shards_index_updates =
              put p.metalog_position
                (p.num_productive_storage_shards, insert_shards p.my_productive_storage_shards [])
                s.storage_shards_index_updates;
          end_seqnum_positions =
              put p.metalog_position p.end_seqnum_position s.end_seqnum_positions;
        },
        true,
      )
    ]

abbrev pub completed : ℕ → IndexShard → IndexShard
completed next s = record s {
  base = record s.base {
    indexed_metalog_position = (s.base.indexed_metalog_position + s.num_shards) % 2 ^ 32;
  };
  storage_shards_index_updates = erase next s.storage_shards_index_updates;
  end_seqnum_positions = erase next s.end_seqnum_positions;
}

-- The end of the meta log that is complete, when the next one is.
unfoldable pub try_complete_index_updates : IndexShard → Outcome (IndexShard × Option ℕ)
try_complete_index_updates s =
    let next = (s.base.indexed_metalog_position + 1) % 2 ^ 32 in
    elim (find? next s.storage_shards_index_updates) [
      | none ↦ ok (s, none)
      | some (count, shards) ↦
          if not (count == 0) && count == length shards
          then (at_or_fatal (find? next s.end_seqnum_positions) >>= λ end_seqnum.
              ok (completed next s, some end_seqnum))
          else ok (s, none)
    ]

-- The virtual method.
unfoldable pub shard_metalog_progress : ℕ → ℕ → ℕ → ℕ
shard_metalog_progress logspace_id num_shards indexed_metalog_position =
    let others = if ltb 0 num_shards then (num_shards + 2 ^ 32 - 1) % 2 ^ 32 else 0 in
    join_two32 logspace_id
      (if leb indexed_metalog_position others then 0 else indexed_metalog_position - others)

module _ (logspace_id view_id : ℕ) where
  -- One round of the loop of `AdvanceIndexProgress`.
  unfoldable pub index_complete_update : ℕ → ℕ → IndexShard → Outcome IndexShard
  index_complete_update now end_seqnum s =
      let progress = shard_metalog_progress logspace_id s.num_shards in
      answer_queries view_id progress now
        (index_until logspace_id end_seqnum s.base.received_data s.base)
      >>= λ base. ok (record s { base = base })

  -- The loop, on fuel: each round takes one update away.
  unfoldable pub complete_updates : ℕ → ℕ → IndexShard → Bool → Outcome (IndexShard × Bool)
  complete_updates zero now s advanced = ok (s, advanced)
  complete_updates (suc n) now s advanced = try_complete_index_updates s >>= λ r. elim r.1 [
    | none ↦ ok (r.0, advanced)
    | some end_seqnum ↦
        index_complete_update now end_seqnum r.0 >>= λ s'. complete_updates n now s' true
  ]

  unfoldable pub advance_shard_index : ℕ → IndexDataProto → IndexShard → Outcome (IndexShard × Bool)
  advance_shard_index now p s =
      let (s₁, new) = check_if_new_index_data p s in
      (if new
        then (provide_shard_data p s₁.base >>= λ base. ok (record s₁ { base = base }))
        else ok s₁)
      >>= λ s₂. complete_updates (length s₂.storage_shards_index_updates + 1) now s₂ false
