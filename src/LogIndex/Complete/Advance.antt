-- ===== src/LogIndex/Complete/Advance.antt =====
-- `IndexComplete::AdvanceIndexProgress` of src/log/index_complete.cpp as a whole: the cuts, then the
-- queries that waited.
use ixe.Prelude.{
  ℕ, ◌≡◌, refl, sym, ap, subst, ◌∙◌, List, [], ◌∷◌, ltb, leb, inl, inr, ok, Bool-cases,
}
use ixe.LogIndex.{Index, IndexData, get_or_create_index, index_record, index_until}
use ixe.LogIndex.Content.{Content}
use ixe.LogIndex.Reads.{index_find_next-IsFirst, index_find_prev-IsLast}
use ixe.LogIndex.Settles.{ReadsRun}
use ixe.LogIndex.Waiting.{FirstAfter, SameQueries, answer_queries_lem}
use ixe.LogIndex.Complete.{apply_cut, apply_cuts, index_metalog_progress, advance_index_progress}
use ixe.LogIndex.Complete.Cuts.{
  IsIndexed, Stopped, apply_cuts-IsIndexed, IsApplied, apply_cuts-IsApplied,
}

module _ (logspace_id : ℕ) where
  index_until_open :
      (end_seqnum : ℕ) (m : List (ℕ × IndexData)) (s : Index)
      → SameQueries s (index_until logspace_id end_seqnum m s)
  unfolding index_until index_record
  index_until_open end_seqnum [] s = λ f. refl
  index_until_open end_seqnum ((k, d) ∷ rest) s = elim (Bool-cases (leb end_seqnum k)) [
    | inl past ↦ rw (past, index_until) (λ f. refl)
    | inr within ↦
        rw (within, index_until) (index_until_open end_seqnum rest (index_record logspace_id k d s))
  ]

  apply_cuts_open :
      (cuts : List (ℕ × ℕ)) (s : Index) → SameQueries s (apply_cuts logspace_id cuts s)
  unfolding apply_cuts
  apply_cuts_open [] s = λ f. refl
  apply_cuts_open ((m, end_seqnum) ∷ rest) s =
      elim (Bool-cases (ltb s.data_received_seqnum_position end_seqnum)) [
        | inl missing ↦ rw (missing, apply_cuts) (λ f. refl)
        | inr there ↦
            rw (there, apply_cuts)
              (λ f.
                apply_cuts_open rest (apply_cut logspace_id m end_seqnum rest s) f
                ∙ index_until_open end_seqnum s.received_data s f)
      ]

  module _ (log : ℕ → IndexData) where
    pub Content-ReadsRun : (n : ℕ) (s : Index) → Content log logspace_id n s → ReadsRun s
    Content-ReadsRun n s c q =
        let (a, runs, first) = index_find_next-IsFirst log logspace_id n q s c in
        let (b, runs', last) = index_find_prev-IsLast log logspace_id n q s c in
        ((a, runs), (b, runs'))

    -- The invariant does not read the lists of queries.
    IsIndexed-rest :
        (s s' : Index)
        → s' ≡ record s {
          pending_query_results = s'.pending_query_results;
          blocking_reads = s'.blocking_reads;
          pending_queries = s'.pending_queries;
        }
        → IsIndexed log logspace_id s
        → IsIndexed log logspace_id s'
    unfolding get_or_create_index
    IsIndexed-rest s s' e v = subst (IsIndexed log logspace_id) (sym e) (record {
      content = v.content;
      from = v.from;
      rising = v.rising;
      order = v.order;
      all = v.all;
      cuts = v.cuts;
    })

    -- `AdvanceIndexProgress` always runs. It takes cuts from the front up to the first one whose records
    -- are not all there, and the positions of the index are then the end of the last cut taken and one
    -- past its meta log. The invariant holds, so the index has exactly the records below that end. The
    -- queries that have a result or wait are the ones that did before, each as often, but for the
    -- direction of a blocking one that is to be continued; and the first of the pending queries that are
    -- left waits for a later position than the one that the index has come to.
    pub advance_index_progress-IsIndexed :
        (view_id now : ℕ) (s : Index)
        → IsIndexed log logspace_id s
        → (s' : Index) × (advance_index_progress logspace_id view_id now s ≡ ok s')
          × IsIndexed log logspace_id s'
          × IsApplied s s.cuts s'
          × Stopped log logspace_id s' s'.cuts
          × SameQueries s s'
          × FirstAfter s'.indexed_metalog_position s'.pending_queries
    unfolding advance_index_progress
    advance_index_progress-IsIndexed view_id now s v =
        let s₁ = apply_cuts logspace_id s.cuts s in
        let (w, stop, same) = apply_cuts-IsIndexed log logspace_id s.cuts s refl v in
        let applied = apply_cuts-IsApplied logspace_id s.cuts s refl in
        let (s₂, runs, kept, due, rest) =
          answer_queries_lem view_id (index_metalog_progress logspace_id) now s₁
            (Content-ReadsRun s₁.indexed_seqnum_position s₁ w.content) in
        (
          s₂,
          runs,
          IsIndexed-rest s₁ s₂ rest w,
          subst (IsApplied s s.cuts) (sym rest) (record {
            done = applied.done;
            split = applied.split;
            seqnum = applied.seqnum;
            metalog = applied.metalog;
          }),
          subst (λ (i : Index). Stopped log logspace_id i i.cuts) (sym rest) stop,
          λ f. kept f ∙ apply_cuts_open s.cuts s f,
          subst (λ (p : ℕ). FirstAfter p s₂.pending_queries)
              (sym (ap (λ (i : Index). i.indexed_metalog_position) rest)) due,
        )
