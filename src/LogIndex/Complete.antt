-- ===== src/LogIndex/Complete.antt =====
-- `IndexComplete` of src/log/index_complete.cpp: the index of a log space whose node receives the data
-- of all its records.
pub mod Cuts
pub mod Receive
pub mod Advance
use ixe.Prelude.{
  ℕ, zero, suc, ◌+◌, ◌%◌, ◌^◌, Bool, true, false, ◌||◌, List, [], ◌∷◌, take, drop, length, ltb, leb,
  if◌then◌else◌, Outcome, ok, fatal, ◌>>=◌,
}
use ixe.Prelude.Search.{first_missing}
use ixe.Prelude.Maps.{contains, insert}
use ixe.Bits.{join_two32}
use ixe.LogSpace.Data.{MetaLog, full_mode, normal}
use ixe.LogSpace.Base.{Core, Hooks, new_core, identifier}
use ixe.LogSpace.Storage.{IndexDataProto}
use ixe.LogIndex.{
  Index, IndexData, new_index, index_on_meta_log_applied, index_on_finalized, answer_queries,
  index_until,
}

-- The loop of `ProvideIndexData`: the repeated fields are read at the same index.
unfoldable pub receive :
    ℕ
    → List ℕ
    → List ℕ
    → List ℕ
    → List ℕ
    → List ℕ
    → List (ℕ × IndexData)
    → Outcome (List (ℕ × IndexData))
receive indexed [] es us ns tags m = ok m
receive indexed (k ∷ ks) (e ∷ es) (u ∷ us) (n ∷ ns) tags m =
    let d : IndexData = record {
      engine_id = e % 2 ^ 16;
      user_logspace = u;
      user_tags = take n tags;
    } in
    receive indexed ks es us ns (drop n tags)
      (if ltb k indexed || contains k m then m else insert k d m)
receive indexed (k ∷ ks) es us ns tags m = fatal

-- The loop that follows: a round for each record received is enough.
unfoldable pub first_gap : ℕ → List (ℕ × IndexData) → ℕ
unfolding first_missing
first_gap position m = first_missing (λ k. k) (length m + 1) position m

unfoldable pub provide_index_data : IndexDataProto → Index → Outcome Index
provide_index_data p s =
    receive s.indexed_seqnum_position p.seqnum_halves p.engine_ids p.user_logspaces p.user_tag_sizes
      p.user_tags s.received_data
    >>= λ m. ok (record s {
      received_data = m;
      data_received_seqnum_position = first_gap s.data_received_seqnum_position m;
    })

-- The virtual method.
unfoldable pub index_metalog_progress : ℕ → ℕ → ℕ
index_metalog_progress logspace_id indexed_metalog_position =
    join_two32 logspace_id indexed_metalog_position

module _ (logspace_id : ℕ) where
  abbrev pub apply_cut : ℕ → ℕ → List (ℕ × ℕ) → Index → Index
  apply_cut metalog_seqnum end_seqnum rest s =
      record (index_until logspace_id end_seqnum s.received_data s) {
        indexed_seqnum_position = end_seqnum;
        indexed_metalog_position = (metalog_seqnum + 1) % 2 ^ 32;
        cuts = rest;
      }

  -- The loop over `cuts_`.
  unfoldable pub apply_cuts : List (ℕ × ℕ) → Index → Index
  apply_cuts [] s = s
  apply_cuts ((metalog_seqnum, end_seqnum) ∷ rest) s =
      elim (ltb s.data_received_seqnum_position end_seqnum) [
        | true ↦ s
        | false ↦ apply_cuts rest (apply_cut metalog_seqnum end_seqnum rest s)
      ]

  unfoldable pub advance_index_progress : ℕ → ℕ → Index → Outcome Index
  advance_index_progress view_id now s =
      answer_queries view_id (index_metalog_progress logspace_id) now (apply_cuts s.cuts s)

-- The constructor, and the virtual methods of `LogSpaceBase` that `Index` has.
unfoldable pub new_index_complete : ℕ → ℕ → List ℕ → Core Index
new_index_complete view_id sequencer_id shard_ids =
    record (new_core full_mode view_id sequencer_id shard_ids new_index) { state = normal }

abbrev pub index_hooks : ℕ → Hooks Index
index_hooks now = record {
  on_new_logs = λ c _ _ _ _ _. ok c.derived;
  on_new_cuts = λ c _. ok c.derived;
  on_trim = λ c _ _ _ _. ok c.derived;
  on_meta_log_applied = λ c m. ok (index_on_meta_log_applied m c.derived);
  on_finalized =
      λ c _. index_on_finalized c.view_id (index_metalog_progress (identifier c)) now c.derived;
}
