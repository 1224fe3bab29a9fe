-- ===== src/LogIndex/Waiting.antt =====
-- The queries that wait in an `Index` (src/log/index.cpp, src/log/index_complete.cpp).
use ixe.Prelude.{
  ℕ, ◌+◌, ◌<◌, ◌≡◌, refl, ap, subst, ◌∙◌, Bool, true, false, List, [], ◌∷◌, arith, ltb, leb,
  if◌then◌else◌, inl, inr, ok, fatal, Bool-cases, ltb→lt, lt→ltb, ◌⊎◌, ◌≤◌, ◌^◌, ◌-◌,
}
use ixe.Prelude.Maps.{insert_multi}
use ixe.Bits.{get_view_id, low_half64}
use ixe.Query.{IndexQuery}
use ixe.LogIndex.{
  Index, index_find_next, index_find_prev, make_query, process_pending, keep_or_expire,
  retry_blocking, answer_queries,
}
use ixe.LogIndex.Settles.{
  Answered, ReadsRun, settled, open_queries, weigh, one, Settles, Settles-trans, ReadsRun-Settles,
  unchanged, process_blocking_query_lem, process_query_lem, keep_or_answer,
}

-- The first query that is left waits for a later position.
abbrev pub FirstAfter : ℕ → List (ℕ × IndexQuery) → Type 0
FirstAfter position [] = Unit {0}
FirstAfter position ((k, q) ∷ rest) = position < k

-- An index has the queries that the other has, each as often.
abbrev pub SameQueries : Index → Index → Type 0
SameQueries s s' = (f : IndexQuery → ℕ) → open_queries f s' ≡ open_queries f s

-- The loop over the pending queries has run: it has lost none, and the first one that is left waits
-- for a later position.
pub record Flushed (queries : List (ℕ × IndexQuery)) (s s' : Index) : Type 0 where
  pub total : (f : IndexQuery → ℕ) → open_queries f s' ≡ settled f s + weigh f queries
  pub due : FirstAfter s.indexed_metalog_position s'.pending_queries
  pub rest : s' ≡ record s {
    pending_query_results = s'.pending_query_results;
    blocking_reads = s'.blocking_reads;
    pending_queries = s'.pending_queries;
  }

Flushed-Settles :
    (queries : List (ℕ × IndexQuery)) (k : ℕ) (q : IndexQuery) (a b c : Index)
    → Settles (one q) a b
    → Flushed queries b c
    → Flushed ((k, q) ∷ queries) a c
Flushed-Settles queries k q a b c v w = record {
  total = λ f. omega (arith, v.total f, w.total f);
  due = subst (λ (s : Index). FirstAfter s.indexed_metalog_position c.pending_queries) v.rest w.due;
  rest =
      w.rest
      ∙ ap
          (λ (s : Index). record s {
            pending_query_results = c.pending_query_results;
            blocking_reads = c.blocking_reads;
            pending_queries = c.pending_queries;
          })
          v.rest;
}

module _ (view_id : ℕ) (progress : ℕ → ℕ) where
  -- `retry_blocking` starts with no blocking reads: those of `queries` are settled again.
  retry_blocking_lem :
      (now : ℕ) (queries : List (ℕ × IndexQuery)) (s : Index)
      → ReadsRun s
      → Answered (λ f. weigh f queries) s (retry_blocking view_id progress now queries s)
  unfolding retry_blocking
  retry_blocking_lem now [] s v = (s, refl, unchanged s)
  retry_blocking_lem now ((start, q) ∷ rest) s v =
      let (s₁, b, runs, w) = process_blocking_query_lem view_id progress q s v in
      let s₂ = if b then s₁ else keep_or_expire view_id progress now start q s₁ in
      let w₂ = keep_or_answer view_id progress now start q s s₁ b w in
      let (s₃, rest_runs, w₃) =
        retry_blocking_lem now rest s₂ (ReadsRun-Settles (one q) s s₂ v w₂) in
      (
        s₃,
        rw runs rest_runs,
        Settles-trans (one q) (λ f. weigh f rest) (λ f. weigh f ((start, q) ∷ rest)) s s₂ s₃
            (λ f. refl) w₂ w₃,
      )

  process_pending_lem :
      (now : ℕ) (queries : List (ℕ × IndexQuery)) (s : Index)
      → ReadsRun s
      → (s' : Index) × (process_pending view_id progress now queries s ≡ ok s')
        × Flushed queries s s'
  unfolding process_pending
  process_pending_lem now [] s v = (
    record s { pending_queries = [] },
    refl,
    record { total = λ f. omega arith; due = tt; rest = refl },
  )
  process_pending_lem now ((k, q) ∷ rest) s v =
      elim (Bool-cases (ltb s.indexed_metalog_position k)) [
        | inl later ↦ (
          record s { pending_queries = (k, q) ∷ rest },
          rw (later, process_pending) refl,
          record { total = λ f. omega arith; due = ltb→lt _ _ later; rest = refl },
        )
        | inr due ↦
            let (s₁, runs, w) = process_query_lem view_id progress now q s v in
            let (s₂, rest_runs, w₂) =
              process_pending_lem now rest s₁ (ReadsRun-Settles (one q) s s₁ v w) in
            (s₂, rw (due, runs, process_pending) rest_runs, Flushed-Settles rest k q s s₁ s₂ w w₂)
      ]

  -- When the position of the index has moved, all waiting queries are looked at. If no search of
  -- the index fails, the call runs, the queries that have a result or wait are afterwards the ones
  -- that did before, each as often, but for the direction of a blocking one that is to be
  -- continued; and the first of the pending queries that are left waits for a later position.
  -- Nothing else changes.
  pub answer_queries_lem :
      (now : ℕ) (s : Index)
      → ReadsRun s
      → (s' : Index) × (answer_queries view_id progress now s ≡ ok s')
        × SameQueries s s'
        × FirstAfter s.indexed_metalog_position s'.pending_queries
        × (s' ≡ record s {
          pending_query_results = s'.pending_query_results;
          blocking_reads = s'.blocking_reads;
          pending_queries = s'.pending_queries;
        })
  unfolding answer_queries index_find_next index_find_prev
  answer_queries_lem now s v =
      let s₀ : Index = record s { blocking_reads = [] } in
      let (s₁, runs, w) = retry_blocking_lem now s.blocking_reads s₀ v in
      let (s₂, rest_runs, f) =
        process_pending_lem now s₁.pending_queries s₁
          (ReadsRun-Settles (λ f. weigh f s.blocking_reads) s₀ s₁ v w) in
      let same : s₁.pending_queries ≡ s.pending_queries =
        ap (λ (i : Index). i.pending_queries) w.rest in
      (
        s₂,
        rw (runs, answer_queries) rest_runs,
        λ g. omega (arith, f.total g, w.total g, ap (weigh g) same),
        subst (λ (i : Index). FirstAfter i.indexed_metalog_position s₂.pending_queries) w.rest
            f.due,
        f.rest
            ∙ ap
                (λ (i : Index). record i {
                  pending_query_results = s₂.pending_query_results;
                  blocking_reads = s₂.blocking_reads;
                  pending_queries = s₂.pending_queries;
                })
                w.rest,
      )

  initial_lem :
      (closed : Bool) (now : ℕ) (q : IndexQuery) (s : Index)
      → ReadsRun s
      → q.initial ≡ true
      → (get_view_id q.metalog_progress < view_id)
        ⊎ ((get_view_id q.metalog_progress ≡ view_id)
            × (low_half64 q.metalog_progress ≤ s.indexed_metalog_position))
      → Answered (one q) s (make_query view_id progress closed now q s)
  unfolding make_query
  initial_lem closed now q s v first due =
      let (s', runs, w) = process_query_lem view_id progress now q s v in
      let known : ltb view_id (get_view_id q.metalog_progress) ≡ false = elim due [
        | inl earlier ↦ ground arith
        | inr here ↦ ground (arith, here.0)
      ] in
      elim (Bool-cases (ltb (get_view_id q.metalog_progress) view_id)) [
        | inl earlier ↦ (s', simp (first, known, earlier, make_query) runs, w)
        | inr not_earlier ↦
            let reached : leb (low_half64 q.metalog_progress) s.indexed_metalog_position ≡ true =
              elim due [ inl earlier ↦ ground arith | inr here ↦ ground (arith, here.1) ] in
            (s', simp (first, known, not_earlier, reached, make_query) runs, w)
      ]

  -- What `MakeQuery` does with a query, if no search of the index fails. An initial one that was
  -- sent after a meta log of a later view ends the process. One sent after a meta log of this view
  -- that the index has not come to waits for the position of that meta log, and nothing else
  -- changes. Any other initial one is settled at once: it has one result or is among the blocking
  -- reads, and nothing waits for a position that did not. A query that goes on from another view is
  -- settled at once if the index is finalized, and otherwise waits for the greatest position.
  pub make_query_lem :
      (closed : Bool) (now : ℕ) (q : IndexQuery) (s : Index)
      → ReadsRun s
      → let sent_in = get_view_id q.metalog_progress in
        let position = low_half64 q.metalog_progress in
        let o = make_query view_id progress closed now q s in
        (q.initial ≡ true → view_id < sent_in → o ≡ fatal)
        × (q.initial ≡ true
            → sent_in ≡ view_id
            → s.indexed_metalog_position < position
            → o ≡ ok (record s { pending_queries = insert_multi position q s.pending_queries }))
        × (q.initial ≡ true
            → (sent_in < view_id) ⊎ ((sent_in ≡ view_id) × (position ≤ s.indexed_metalog_position))
            → Answered (one q) s o)
        × (q.initial ≡ false → closed ≡ true → Answered (one q) s o)
        × (q.initial ≡ false
            → closed ≡ false
            → o ≡ ok (record s { pending_queries = insert_multi (2 ^ 32 - 1) q s.pending_queries }))
  unfolding make_query
  make_query_lem closed now q s v =
      let (s', runs, w) = process_query_lem view_id progress now q s v in
      let sent_in = get_view_id q.metalog_progress in
      (
        λ first later.
            let future = lt→ltb view_id sent_in later in simp (first, future, make_query),
        λ first here ahead.
            let known : ltb view_id sent_in ≡ false = ground arith in
            let not_earlier : ltb sent_in view_id ≡ false = ground arith in
            let not_reached : leb (low_half64 q.metalog_progress) s.indexed_metalog_position
                ≡ false =
              ground arith in
            simp (first, known, not_earlier, not_reached, make_query),
        λ first due. initial_lem closed now q s v first due,
        λ more shut. (s', simp (more, shut, make_query) runs, w),
        λ more running. simp (more, running, make_query),
      )
