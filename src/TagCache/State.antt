-- ===== src/TagCache/State.antt =====
-- The state of `TagCache` of src/log/index_local_tag_cache.cpp, and how it takes index data.
use ixe.Prelude.{
  ℕ, ◌%◌, ◌^◌, Bool, none, some, List, [], ◌∷◌, take, drop, ◌==◌, if◌then◌else◌, Outcome, ok, fatal,
  ◌>>=◌, at_or_fatal,
}
use ixe.Prelude.Maps.{find?, put, insert}
use ixe.Bits.{join_two16, join_two32}
use ixe.LogSpace.Storage.{IndexDataProto}
use ixe.Query.{IndexQuery, IndexQueryResult}
use ixe.LogIndex.{IndexData}
use ixe.TagCache.Space.{PerSpaceTagCache, new_space_cache, handle_min_seqnum, tag_exists}
use ixe.TagCache.Views.{TagCacheView, new_tag_cache_view, view_check_if_new_index_data}

pub record PendingMinTag : Type 0 where
  pub tag : ℕ
  pub seqnum : ℕ
  pub storage_shard_id : ℕ
  pub user_logspace : ℕ
  pub timestamp : ℕ

pub record TagCache : Type 0 where
  pub sequencer_id : ℕ
  pub latest_view_id : ℕ
  pub views : List (ℕ × TagCacheView)
  pub received_data : List (ℕ × IndexData)
  pub pending_queries : List (ℕ × IndexQuery)
  pub pending_query_results : List IndexQueryResult
  pub max_cache_size : ℕ
  pub per_tag_seqnums_limit : ℕ
  pub cache_size : ℕ
  pub popularity_sequence : List ℕ
  pub per_space_cache : List (ℕ × PerSpaceTagCache)

-- The constructor leaves `latest_view_id_` as it is in memory.
unfoldable pub new_tag_cache : ℕ → ℕ → ℕ → ℕ → TagCache
new_tag_cache latest_view_id sequencer_id max_cache_size per_tag_seqnums_limit = record {
  sequencer_id = sequencer_id;
  latest_view_id = latest_view_id;
  views = [];
  received_data = [];
  pending_queries = [];
  pending_query_results = [];
  max_cache_size = max_cache_size;
  per_tag_seqnums_limit = per_tag_seqnums_limit;
  cache_size = 0;
  popularity_sequence = [];
  per_space_cache = [];
}

unfoldable pub latest_metalog_position : TagCache → Outcome ℕ
latest_metalog_position c =
    at_or_fatal (find? c.latest_view_id c.views) >>= λ v. ok v.metalog_position

-- `index_metalog_progress()`; the identifier has no view.
unfoldable pub cache_metalog_progress : TagCache → Outcome ℕ
unfolding latest_metalog_position join_two16
cache_metalog_progress c =
    latest_metalog_position c >>= λ position. ok (join_two32 (join_two16 0 c.sequencer_id) position)

unfoldable pub current_popularity : TagCache → Outcome ℕ
unfolding latest_metalog_position
current_popularity c =
    latest_metalog_position c >>= λ position. ok (join_two32 c.latest_view_id position)

unfoldable pub get_or_create_space : ℕ → List (ℕ × PerSpaceTagCache) → PerSpaceTagCache
get_or_create_space user_logspace m = elim (find? user_logspace m) [
  | some s ↦ s
  | none ↦ new_space_cache
]

unfoldable pub cache_tag_exists : ℕ → ℕ → TagCache → TagCache × Bool
unfolding get_or_create_space
cache_tag_exists user_logspace tag c =
    let s = get_or_create_space user_logspace c.per_space_cache in
    (record c { per_space_cache = put user_logspace s c.per_space_cache }, tag_exists tag s)

-- The loop over the pending least numbers.
unfoldable pub handle_pending_tags :
    ℕ → ℕ → List PendingMinTag → List (ℕ × PerSpaceTagCache) → Outcome (List (ℕ × PerSpaceTagCache))
handle_pending_tags sequencer_id popularity [] m = ok m
handle_pending_tags sequencer_id popularity (t ∷ ts) m =
    handle_min_seqnum t.tag t.seqnum t.storage_shard_id t.timestamp sequencer_id popularity
      (get_or_create_space t.user_logspace m)
    >>= λ s. handle_pending_tags sequencer_id popularity ts (put t.user_logspace s m)

-- The loop of `ProvideIndexData`: the repeated fields are read at the same index, and a record with no
-- tags is left out.
unfoldable pub receive_tagged :
    List ℕ
    → List ℕ
    → List ℕ
    → List ℕ
    → List ℕ
    → List (ℕ × IndexData)
    → Outcome (List (ℕ × IndexData))
receive_tagged [] es us ns tags m = ok m
receive_tagged (k ∷ ks) (e ∷ es) (u ∷ us) (n ∷ ns) tags m =
    let d : IndexData = record {
      engine_id = e % 2 ^ 16;
      user_logspace = u;
      user_tags = take n tags;
    } in
    receive_tagged ks es us ns (drop n tags) (if n == 0 then m else insert k d m)
receive_tagged (k ∷ ks) es us ns tags m = fatal

unfoldable pub handle_min_tags : List PendingMinTag → TagCache → Outcome TagCache
handle_min_tags [] c = ok c
handle_min_tags (t ∷ ts) c = current_popularity c >>= λ popularity.
    handle_pending_tags c.sequencer_id popularity (t ∷ ts) c.per_space_cache >>= λ m.
    ok (record c { per_space_cache = m })

unfoldable pub receive_new_data : ℕ → IndexDataProto → TagCache → Outcome TagCache
receive_new_data view_id p c = at_or_fatal (find? view_id c.views) >>= λ v.
    let r = view_check_if_new_index_data p v in
    let c' = record c { views = put view_id r.0 c.views } in
    if r.1
    then (receive_tagged p.seqnum_halves p.engine_ids p.user_logspaces p.user_tag_sizes p.user_tags
          c.received_data
        >>= λ m. ok (record c' { received_data = m }))
    else ok c'

unfoldable pub cache_provide_index_data :
    ℕ → IndexDataProto → List PendingMinTag → TagCache → Outcome TagCache
cache_provide_index_data view_id p pending_min_tags c =
    handle_min_tags pending_min_tags c >>= receive_new_data view_id p

unfoldable pub cache_install_view : ℕ → ℕ → TagCache → TagCache
cache_install_view view_id metalog_position c = record c {
  views = put view_id (new_tag_cache_view view_id metalog_position) c.views;
  latest_view_id = view_id;
}

unfoldable pub clear_spaces : List (ℕ × PerSpaceTagCache) → List (ℕ × PerSpaceTagCache)
clear_spaces [] = []
clear_spaces ((id, s) ∷ m) = (id, new_space_cache) ∷ clear_spaces m

unfoldable pub cache_clear : TagCache → TagCache
cache_clear c = record c {
  per_space_cache = clear_spaces c.per_space_cache;
  popularity_sequence = [];
  cache_size = 0;
}
