-- ===== src/LogSpace/Storage/ShardProgress.antt =====
-- `AdvanceShardProgress` of src/log/log_space.cpp: how far a storage node holds a shard without a
-- gap.
use ixe.Prelude.{
  ℕ, ◌+◌, ◌^◌, ◌≤◌, ◌<◌, ◌≡◌, ◌≢◌, refl, sym, ap, ◌∙◌, true, false, ◌||◌, List, arith, length, ltb,
  ◌==◌, if◌then◌else◌,
}
use ixe.Prelude.Maps.{contains, put, find?-put}
use ixe.Bits.{join_two32, join_two32_lem}
use ixe.Prelude.Search.{first_missing, first_missing-FirstGap}
use ixe.LogSpace.Storage.{Storage, advance_shard_progress, get_or_zero}

get_or_zero-put :
    (k j v : ℕ) (m : List (ℕ × ℕ))
    → get_or_zero j (put k v m) ≡ (if k == j then v else get_or_zero j m)
get_or_zero-put k j v m = ground (arith, find?-put k j v m)

-- What one call does to the progress of `shard` when the search comes to `r`.
advance_at :
    (shard : ℕ) (s : Storage) (r : ℕ)
    → first_missing
        (join_two32 shard)
        (length s.pending_log_entries + 1)
        (get_or_zero shard s.shard_progresses)
        s.pending_log_entries
      ≡ r
    → get_or_zero shard s.shard_progresses ≤ r
    → let s' = advance_shard_progress shard s in
      (get_or_zero shard s'.shard_progresses ≡ r)
      × (s'.shard_progress_dirty
          ≡ (ltb (get_or_zero shard s.shard_progresses) r || s.shard_progress_dirty))
      × ((other : ℕ)
          → other ≢ shard
          → get_or_zero other s'.shard_progresses ≡ get_or_zero other s.shard_progresses)
unfolding advance_shard_progress
advance_at shard s r e h = (
  ground (arith, e, get_or_zero-put shard shard r s.shard_progresses),
  ground (arith, e),
  λ other ne. ground (arith, e, get_or_zero-put shard other r s.shard_progresses),
)

module _ (shard : ℕ) (in_range : shard < 2 ^ 32) where
  join-injective :
      (i j : ℕ) → i < 2 ^ 32 → j < 2 ^ 32 → join_two32 shard i ≡ join_two32 shard j → i ≡ j
  join-injective i j a b e =
      omega (arith, e, join_two32_lem shard i in_range a, join_two32_lem shard j in_range b)

  -- `AdvanceShardProgress` moves a shard's progress to the first position, from the old one on, whose
  -- record is missing: all records in between are held, the search ends, the shard is reported when
  -- it moved, and the other shards stay.
  pub advance_shard_progress_lem :
      (s : Storage)
      → get_or_zero shard s.shard_progresses + length s.pending_log_entries + 1 < 2 ^ 32
      → let s' = advance_shard_progress shard s in
        let old = get_or_zero shard s.shard_progresses in
        let current = get_or_zero shard s'.shard_progresses in
        (old ≤ current)
        × ((i : ℕ)
            → old ≤ i
            → i < current
            → contains (join_two32 shard i) s.pending_log_entries ≡ true)
        × (contains (join_two32 shard current) s.pending_log_entries ≡ false)
        × (s'.shard_progress_dirty ≡ (ltb old current || s.shard_progress_dirty))
        × ((other : ℕ)
            → other ≢ shard
            → get_or_zero other s'.shard_progresses ≡ get_or_zero other s.shard_progresses)
  advance_shard_progress_lem s b =
      let old = get_or_zero shard s.shard_progresses in
      let m = s.pending_log_entries in
      let g =
        first_missing-FirstGap (join_two32 shard) join-injective (length m + 1) old m m
          (omega arith) (omega arith) (λ i p q. refl) in
      let a =
        advance_at shard s (first_missing (join_two32 shard) (length m + 1) old m) refl g.from in
      (
        omega (arith, a.0, g.from),
        λ i p q. g.held i p (omega (arith, a.0)),
        ap (λ (k : ℕ). contains (join_two32 shard k) m) a.0 ∙ g.gap,
        a.1 ∙ ap (λ k. ltb old k || s.shard_progress_dirty) (sym a.0),
        a.2,
      )
