-- ===== src/LogIndex/Shard/Enough.antt =====
-- The rounds of the loop of `IndexShard::AdvanceIndexProgress` (src/log/index_shard.cpp).
use ixe.Prelude.{
  ℕ, zero, suc, ◌+◌, ◌%◌, ◌^◌, ◌<◌, ◌≡◌, ◌⊎◌, refl, ap, ◌∙◌, Bool, true, ◌&&◌, not, Option, none,
  some, length, arith, ◌==◌, inl, inr, Outcome, ok, fatal, Bool-cases, Option-cases, Outcome-cases,
}
use ixe.Prelude.Maps.{find?, find?-contains, length-erase-lt}
use ixe.LogIndex.{answer_queries, index_until}
use ixe.LogIndex.Shard.{
  IndexShard, completed, try_complete_index_updates, index_complete_update, complete_updates,
  shard_metalog_progress,
}

-- How many updates wait.
abbrev pub waiting : IndexShard → ℕ
waiting s = length s.storage_shards_index_updates

-- A try ends the process, or finds no complete update, or takes one away.
abbrev pub Tried : IndexShard → Outcome (IndexShard × Option ℕ) → Type 0
Tried s o =
    (o ≡ fatal)
    ⊎ ((o ≡ ok (s, none))
        ⊎ ((s' : IndexShard) × (end_seqnum : ℕ) × (o ≡ ok (s', some end_seqnum))
            × (waiting s' < waiting s)))

try_complete-Tried : (s : IndexShard) → Tried s (try_complete_index_updates s)
unfolding try_complete_index_updates
try_complete-Tried s =
    let next = (s.base.indexed_metalog_position + 1) % 2 ^ 32 in
    elim (Option-cases (find? next s.storage_shards_index_updates)) [
      | inl absent ↦ inr (inl (rw (absent, try_complete_index_updates) refl))
      | inr ((count, shards), there) ↦
          elim (Bool-cases (not (count == 0) && count == length shards)) [
            | inr wait ↦ inr (inl (simp (try_complete_index_updates, there, wait)))
            | inl full ↦ elim (Option-cases (find? next s.end_seqnum_positions)) [
              | inl no_end ↦ inl (simp (try_complete_index_updates, there, full, no_end))
              | inr (end_seqnum, e) ↦ inr (
                  inr (
                    completed next s,
                    end_seqnum,
                    simp (try_complete_index_updates, there, full, e),
                    length-erase-lt next s.storage_shards_index_updates
                        (find?-contains next s.storage_shards_index_updates (count, shards) there),
                  ))
            ]
          ]
    ]

module _ (logspace_id view_id now : ℕ) where
  complete_update_waiting :
      (end_seqnum : ℕ) (s : IndexShard)
      → (index_complete_update logspace_id view_id now end_seqnum s ≡ fatal)
        ⊎ ((s' : IndexShard) × (index_complete_update logspace_id view_id now end_seqnum s ≡ ok s')
            × (waiting s' ≡ waiting s))
  unfolding index_complete_update
  complete_update_waiting end_seqnum s =
      let progress = shard_metalog_progress logspace_id s.num_shards in
      let indexed = index_until logspace_id end_seqnum s.base.received_data s.base in
      elim (Outcome-cases (answer_queries view_id progress now indexed)) [
        | inl fails ↦ inl (rw (fails, index_complete_update) refl)
        | inr (base, runs) ↦
            inr (record s { base = base }, rw (runs, index_complete_update) refl, refl)
      ]

  complete_updates_enough :
      (n : ℕ) (s : IndexShard) (advanced : Bool)
      → waiting s < n
      → complete_updates logspace_id view_id (suc n) now s advanced
        ≡ complete_updates logspace_id view_id n now s advanced
  unfolding complete_updates
  complete_updates_enough zero s advanced h = absurd (omega arith)
  complete_updates_enough (suc n) s advanced h = elim (try_complete-Tried s) [
    | inl fails ↦ rw (fails, complete_updates) refl
    | inr (inl stops) ↦ rw (stops, complete_updates) refl
    | inr (inr (s₁, end_seqnum, goes_on, less)) ↦ elim (complete_update_waiting end_seqnum s₁) [
      | inl fails ↦ rw (goes_on, complete_updates) (rw (fails, complete_updates) refl)
      | inr (s₂, runs, same) ↦
          rw (goes_on, complete_updates)
            (rw (runs, complete_updates) (complete_updates_enough n s₂ true (omega (arith, same))))
    ]
  ]

  -- The loop ends after at most one round more than there are updates: with any more rounds it comes to
  -- the same, whether that is a state or the end of the process.
  pub complete_updates_lem :
      (more n : ℕ) (s : IndexShard) (advanced : Bool)
      → waiting s < n
      → complete_updates logspace_id view_id (n + more) now s advanced
        ≡ complete_updates logspace_id view_id n now s advanced
  complete_updates_lem zero n s advanced h =
      let same : n + 0 ≡ n = omega arith in
      ap (λ k. complete_updates logspace_id view_id k now s advanced) same
  complete_updates_lem (suc more) n s advanced h =
      let same : n + suc more ≡ suc (n + more) = omega arith in
      ap (λ k. complete_updates logspace_id view_id k now s advanced) same
      ∙ complete_updates_enough (n + more) s advanced (omega arith)
      ∙ complete_updates_lem more n s advanced h
