-- ===== src/LogIndex/Shard/Tests.antt =====
-- Two storage nodes report their shards to an `IndexShard` (src/log/index_shard.cpp).
use ixe.Prelude.{
  false, ℕ, ◌≡◌, refl, ◌&&◌, not, none, some, List, [], ◌∷◌, elem, length, arith, ◌==◌,
  if◌then◌else◌, ok,
}
use ixe.Prelude.Maps.{find?, put}
use ixe.LogSpace.Storage.{IndexDataProto, empty_index_data}
use ixe.LogIndex.Shard.Enough.{complete_updates_lem}
use ixe.LogIndex.Shard.{
  new_index_shard, check_if_new_index_data, insert_shards, complete_updates, completed,
  try_complete_index_updates,
}
use ixe.LogIndex.Shard.Reports.{reported, Distinct, check_all, try_complete_lem}

abbrev report : ℕ → IndexDataProto
report shard = record empty_index_data {
  metalog_position = 1;
  num_productive_storage_shards = 2;
  my_productive_storage_shards = shard ∷ [];
  end_seqnum_position = 5;
}

try_complete_lem_example :
    let s' = check_all (report 0 ∷ report 1 ∷ []) (new_index_shard 0 1) in
    (all : List ℕ) × Distinct all
    × ((k : ℕ) → elem k all ≡ reported k (report 0 ∷ report 1 ∷ []))
    × (try_complete_index_updates s'
        ≡ (if not (2 == 0) && 2 == length all then ok (completed 1 s', some 5) else ok (s', none)))
unfolding new_index_shard find?
try_complete_lem_example =
    try_complete_lem 1 2 (report 0) (report 1 ∷ []) (new_index_shard 0 1)
      ((refl, refl), ((refl, refl), tt)) refl (omega arith) refl

-- The update of meta log 1 is complete, and one round takes it away.
complete_updates_lem_example :
    let s' = check_all (report 0 ∷ report 1 ∷ []) (new_index_shard 0 1) in
    complete_updates 65537 1 7 100 s' false ≡ complete_updates 65537 1 2 100 s' false
unfolding new_index_shard check_all check_if_new_index_data insert_shards find? put elem
complete_updates_lem_example =
    let s' = check_all (report 0 ∷ report 1 ∷ []) (new_index_shard 0 1) in
    complete_updates_lem 65537 1 100 5 2 s' false (omega arith)
