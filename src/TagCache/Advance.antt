-- ===== src/TagCache/Advance.antt =====
-- How `TagCache` of src/log/index_local_tag_cache.cpp takes complete index data in and evicts.
use ixe.Prelude.{
  ℕ, zero, suc, ◌+◌, ◌-◌, ◌%◌, ◌^◌, Bool, true, false, none, some, List, [], ◌∷◌, ◌++◌, drop,
  get_elem?, length, ltb, leb, if◌then◌else◌, Outcome, ok, ◌>>=◌, at_or_fatal,
}
use ixe.Prelude.Maps.{find?, put}
use ixe.LogIndex.{IndexData}
use ixe.TagCache.Space.{PerSpaceTagCache, add_or_update, evict_space}
use ixe.TagCache.Views.{view_try_complete_index_updates}
use ixe.TagCache.State.{TagCache, get_or_create_space, current_popularity}
use ixe.TagCache.Queries.{cache_process_pending}

module _ (view_id sequencer_id popularity : ℕ) where
  -- The loop over the tags of a record.
  unfoldable pub add_tags_of :
      ℕ → IndexData → List ℕ → List (ℕ × PerSpaceTagCache) → Outcome (List (ℕ × PerSpaceTagCache))
  add_tags_of seqnum d [] m = ok m
  add_tags_of seqnum d (tag ∷ tags) m =
      add_or_update tag view_id sequencer_id seqnum d.engine_id popularity
        (get_or_create_space d.user_logspace m)
      >>= λ s. add_tags_of seqnum d tags (put d.user_logspace s m)

  -- The loop over `received_data_` up to the end of a meta log: the caches, what is left, and the
  -- count of the numbers added.
  unfoldable pub add_until :
      ℕ
      → ℕ
      → List (ℕ × IndexData)
      → List (ℕ × PerSpaceTagCache)
      → Outcome (List (ℕ × PerSpaceTagCache) × List (ℕ × IndexData) × ℕ)
  add_until end_seqnum new_seqnums [] m = ok (m, [], new_seqnums)
  add_until end_seqnum new_seqnums ((seqnum, d) ∷ rest) m = elim (leb end_seqnum seqnum) [
    | true ↦ ok (m, (seqnum, d) ∷ rest, new_seqnums)
    | false ↦ add_tags_of seqnum d d.user_tags m >>= λ m'.
        add_until end_seqnum (new_seqnums + length d.user_tags) rest m'
  ]

-- The body of the loop of `AdvanceIndexProgress`.
unfoldable pub take_update : ℕ → ℕ → TagCache → Outcome TagCache
take_update view_id end_seqnum c = current_popularity c >>= λ popularity.
    add_until view_id c.sequencer_id popularity end_seqnum 0 c.received_data c.per_space_cache
    >>= λ r. ok (record c {
      per_space_cache = r.0;
      received_data = r.1;
      cache_size = (c.cache_size + r.2) % 2 ^ 64;
      popularity_sequence = c.popularity_sequence ++ popularity ∷ [];
    })

-- The loop, on fuel: each round takes one update away. The Boolean is `advanced`.
unfoldable pub take_updates : ℕ → ℕ → TagCache → Bool → Outcome (TagCache × Bool)
take_updates zero view_id c advanced = ok (c, advanced)
take_updates (suc n) view_id c advanced = at_or_fatal (find? view_id c.views) >>= λ v.
    view_try_complete_index_updates v >>= λ r. elim r.1 [
      | none ↦ ok (c, advanced)
      | some end_seqnum ↦
          take_update view_id end_seqnum (record c { views = put view_id r.0 c.views }) >>= λ c'.
          take_updates n view_id c' true
    ]

unfoldable pub evict_spaces :
    ℕ → ℕ → ℕ → List (ℕ × PerSpaceTagCache) → List (ℕ × PerSpaceTagCache) × ℕ
evict_spaces popularity limit evicted [] = ([], evicted)
evict_spaces popularity limit evicted ((id, s) ∷ rest) =
    let r = evict_space popularity limit evicted s in
    let after = evict_spaces popularity limit r.1 rest in ((id, r.0) ∷ after.0, after.1)

-- `ceil_fifth` is `std::ceil(size * 0.2)` on a `double`.
module _ (ceil_fifth : ℕ → ℕ) where
  unfoldable pub evict_round : TagCache → Outcome TagCache
  evict_round c =
      let ix = ceil_fifth (length c.popularity_sequence) in
      at_or_fatal (get_elem? c.popularity_sequence ix) >>= λ popularity.
      let r = evict_spaces popularity c.per_tag_seqnums_limit 0 c.per_space_cache in
      ok (record c {
        per_space_cache = r.0;
        popularity_sequence = drop (ix + 1) c.popularity_sequence;
        cache_size = (c.cache_size + 2 ^ 64 - r.1) % 2 ^ 64;
      })

  -- The loop of `Evict`, on fuel: each round takes a popularity away, and without one it is fatal.
  unfoldable pub cache_evict : ℕ → TagCache → Outcome TagCache
  cache_evict zero c = ok c
  cache_evict (suc n) c = elim (ltb c.max_cache_size c.cache_size) [
    | false ↦ ok c
    | true ↦ evict_round c >>= cache_evict n
  ]

  unfoldable pub cache_advance_index_progress : ℕ → TagCache → Outcome (TagCache × Bool)
  cache_advance_index_progress view_id c = at_or_fatal (find? view_id c.views) >>= λ v.
      take_updates (length v.storage_shards_index_updates + 1) view_id c false >>= λ r.
      if r.1
      then (cache_process_pending r.0.pending_queries r.0 >>= λ c₁.
          cache_evict (length c₁.popularity_sequence + 1) c₁ >>= λ c₂. ok (c₂, true))
      else ok (r.0, false)
