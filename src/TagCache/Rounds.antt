-- ===== src/TagCache/Rounds.antt =====
-- The rounds of the loop of `TagCache::AdvanceIndexProgress` (src/log/index_local_tag_cache.cpp).
use ixe.Prelude.{
  ℕ, zero, suc, ◌+◌, ◌%◌, ◌^◌, ◌<◌, ◌≡◌, ◌⊎◌, refl, ap, ◌∙◌, Bool, true, ◌&&◌, not, Option, none,
  some, [], ◌∷◌, ◌++◌, length, arith, ◌==◌, inl, inr, Outcome, ok, fatal, Bool-cases, Option-cases,
  Outcome-cases,
}
use ixe.Prelude.Maps.{find?, find?-put, find?-contains, length-erase-lt, put}
use ixe.TagCache.Views.{TagCacheView, view_completed, view_try_complete_index_updates}
use ixe.TagCache.State.{TagCache, current_popularity}
use ixe.TagCache.Advance.{add_until, take_update, take_updates}

-- How many updates wait.
abbrev pub waiting : TagCacheView → ℕ
waiting v = length v.storage_shards_index_updates

-- A try ends the process, or finds no complete update, or takes one away.
abbrev Tried : TagCacheView → Outcome (TagCacheView × Option ℕ) → Type 0
Tried v o =
    (o ≡ fatal)
    ⊎ ((o ≡ ok (v, none))
        ⊎ ((v' : TagCacheView) × (end_seqnum : ℕ) × (o ≡ ok (v', some end_seqnum))
            × (waiting v' < waiting v)))

try_complete-Tried : (v : TagCacheView) → Tried v (view_try_complete_index_updates v)
unfolding view_try_complete_index_updates
try_complete-Tried v =
    let next = (v.metalog_position + 1) % 2 ^ 32 in
    elim (Option-cases (find? next v.storage_shards_index_updates)) [
      | inl absent ↦ inr (inl (rw (absent, view_try_complete_index_updates) refl))
      | inr ((count, shards), there) ↦
          elim (Bool-cases (not (count == 0) && count == length shards)) [
            | inr wait ↦ inr (inl (simp (view_try_complete_index_updates, there, wait)))
            | inl full ↦ elim (Option-cases (find? next v.end_seqnum_positions)) [
              | inl no_end ↦ inl (simp (view_try_complete_index_updates, there, full, no_end))
              | inr (end_seqnum, e) ↦ inr (
                  inr (
                    view_completed next v,
                    end_seqnum,
                    simp (view_try_complete_index_updates, there, full, e),
                    length-erase-lt next v.storage_shards_index_updates
                        (find?-contains next v.storage_shards_index_updates (count, shards) there),
                  ))
            ]
          ]
    ]

module _ (view_id : ℕ) where
  -- The body of the loop leaves the views as they are.
  take_update_views :
      (end_seqnum : ℕ) (c : TagCache)
      → (take_update view_id end_seqnum c ≡ fatal)
        ⊎ ((c' : TagCache) × (take_update view_id end_seqnum c ≡ ok c') × (c'.views ≡ c.views))
  unfolding take_update
  take_update_views end_seqnum c = elim (Outcome-cases (current_popularity c)) [
    | inl fails ↦ inl (rw fails refl)
    | inr (popularity, runs) ↦
        elim (Outcome-cases (
          add_until view_id c.sequencer_id popularity end_seqnum 0 c.received_data
            c.per_space_cache)) [
              | inl fails ↦ inl (rw (runs, fails) refl)
              | inr (r, goes_on) ↦ inr (
                record c {
                  per_space_cache = r.0;
                  received_data = r.1;
                  cache_size = (c.cache_size + r.2) % 2 ^ 64;
                  popularity_sequence = c.popularity_sequence ++ popularity ∷ [];
                },
                rw (runs, goes_on) refl,
                refl,
              )
            ]
  ]

  take_updates_enough :
      (n : ℕ) (c : TagCache) (advanced : Bool) (v : TagCacheView)
      → find? view_id c.views ≡ some v
      → waiting v < n
      → take_updates (suc n) view_id c advanced ≡ take_updates n view_id c advanced
  unfolding take_updates
  take_updates_enough zero c advanced v there h = absurd (omega arith)
  take_updates_enough (suc n) c advanced v there h = elim (try_complete-Tried v) [
    | inl fails ↦ rw (there, take_updates) (rw (fails, take_updates) refl)
    | inr (inl stops) ↦ rw (there, take_updates) (rw (stops, take_updates) refl)
    | inr (inr (v', end_seqnum, goes_on, less)) ↦
        let c₁ = record c { views = put view_id v' c.views } in
        let now : find? view_id c₁.views ≡ some v' =
          ground (arith, find?-put view_id view_id v' c.views) in
        elim (take_update_views end_seqnum c₁) [
          | inl fails ↦
              rw (there, take_updates) (rw (goes_on, take_updates) (rw (fails, take_updates) refl))
          | inr (c₂, runs, same) ↦
              rw (there, take_updates)
                (rw (goes_on, take_updates)
                  (rw (runs, take_updates)
                    (take_updates_enough n c₂ true v' (ap (find? view_id) same ∙ now)
                      (omega arith))))
        ]
  ]

  -- The loop ends after at most one round more than the view has updates: with any more rounds it
  -- comes to the same, whether that is a state or the end of the process.
  pub take_updates_lem :
      (more n : ℕ) (c : TagCache) (advanced : Bool) (v : TagCacheView)
      → find? view_id c.views ≡ some v
      → waiting v < n
      → take_updates (n + more) view_id c advanced ≡ take_updates n view_id c advanced
  take_updates_lem zero n c advanced v there h =
      let same : n + 0 ≡ n = omega arith in ap (λ k. take_updates k view_id c advanced) same
  take_updates_lem (suc more) n c advanced v there h =
      let same : n + suc more ≡ suc (n + more) = omega arith in
      ap (λ k. take_updates k view_id c advanced) same
      ∙ take_updates_enough (n + more) c advanced v there (omega arith)
      ∙ take_updates_lem more n c advanced v there h
