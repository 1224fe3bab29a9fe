-- ===== src/TagCache/Views.antt =====
-- `TagCacheView` of src/log/index_local_tag_cache.cpp: how far the index data of a view is complete.
use ixe.Prelude.{
  ℕ, ◌+◌, ◌%◌, ◌^◌, Bool, true, false, ◌&&◌, not, Option, none, some, List, [], length, ltb, leb,
  ◌==◌, if◌then◌else◌, Outcome, ok, ◌>>=◌, at_or_fatal,
}
use ixe.Prelude.Maps.{find?, put, erase}
use ixe.LogSpace.Storage.{IndexDataProto}
use ixe.LogIndex.Shard.{insert_shards}

pub record TagCacheView : Type 0 where
  pub view_id : ℕ
  pub metalog_position : ℕ
  pub first_metalog : Bool
  pub storage_shards_index_updates : List (ℕ × (ℕ × List ℕ))
  pub end_seqnum_positions : List (ℕ × ℕ)

unfoldable pub new_tag_cache_view : ℕ → ℕ → TagCacheView
new_tag_cache_view view_id metalog_position = record {
  view_id = view_id;
  metalog_position = metalog_position;
  first_metalog = true;
  storage_shards_index_updates = [];
  end_seqnum_positions = [];
}

-- The Boolean says whether the data is new.
unfoldable pub view_check_if_new_index_data : IndexDataProto → TagCacheView → TagCacheView × Bool
view_check_if_new_index_data p v =
    if leb p.metalog_position v.metalog_position
    then (v, false)
    else elim (find? p.metalog_position v.storage_shards_index_updates) [
      | some (count, shards) ↦
          let more = insert_shards p.my_productive_storage_shards shards in
          (
            record v {
              storage_shards_index_updates =
                  put p.metalog_position (count, more) v.storage_shards_index_updates;
            },
            ltb (length shards) (length more),
          )
      | none ↦ (
        record v {
          storage_shards_index_updates =
              put p.metalog_position
                (p.num_productive_storage_shards, insert_shards p.my_productive_storage_shards [])
                v.storage_shards_index_updates;
          end_seqnum_positions =
              put p.metalog_position p.end_seqnum_position v.end_seqnum_positions;
        },
        true,
      )
    ]

abbrev pub view_completed : ℕ → TagCacheView → TagCacheView
view_completed next v = record v {
  metalog_position = next;
  storage_shards_index_updates = erase next v.storage_shards_index_updates;
  end_seqnum_positions = erase next v.end_seqnum_positions;
}

-- The end of the next meta log, if it is complete.
unfoldable pub view_try_complete_index_updates : TagCacheView → Outcome (TagCacheView × Option ℕ)
view_try_complete_index_updates v =
    let next = (v.metalog_position + 1) % 2 ^ 32 in
    elim (find? next v.storage_shards_index_updates) [
      | none ↦ ok (v, none)
      | some (count, shards) ↦
          if not (count == 0) && count == length shards
          then (at_or_fatal (find? next v.end_seqnum_positions) >>= λ end_seqnum.
              ok (view_completed next v, some end_seqnum))
          else ok (v, none)
    ]
