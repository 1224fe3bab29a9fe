-- ===== src/LogIndex/Settles.antt =====
-- One query of an `Index` (src/log/index.cpp), for which a result or a blocking read is added.
use ixe.Prelude.{
  ℕ, ◌+◌, ◌-◌, ◌≡◌, ◌⊎◌, refl, sym, ap, subst, ◌∙◌, Bool, true, false, Option, none, some, List, [],
  ◌∷◌, ◌++◌, arith, ltb, ◌==◌, if◌then◌else◌, inl, inr, Outcome, ok, Bool-cases, Option-cases,
}
use ixe.Bits.{get_view_id}
use ixe.Query.{
  ReadDirection, k_read_next, k_read_prev, k_read_next_b, IndexQuery, IndexQueryResult,
  invalid_log_seqnum,
}
use ixe.LogIndex.{
  Index, push_result, index_find_next, index_find_prev, process_read_next, process_read_prev,
  build_empty_result, build_found_result, next_from_prev_result, next_result, prev_result,
  build_continue_result, blocking_answer, process_blocking_query, process_query, keep_or_expire,
  blocking_query_timeout,
}

-- No search of the index fails.
abbrev pub ReadsRun : Index → Type 0
ReadsRun s =
    (q : IndexQuery)
    → ((a : Option (ℕ × ℕ)) × (index_find_next q s ≡ ok a))
      × ((a : Option (ℕ × ℕ)) × (index_find_prev q s ≡ ok a))

-- A query as it is carried on: one that blocks goes to the view before as one that does not.
abbrev pub carried_direction : ReadDirection → ReadDirection
carried_direction k_read_next = k_read_next
carried_direction k_read_prev = k_read_prev
carried_direction k_read_next_b = k_read_next

abbrev pub carried : IndexQuery → IndexQuery
carried q = record q { direction = carried_direction q.direction }

-- How much queries count, for any weight of a query. Lists that count the same for every weight have
-- the same queries, each as often.
abbrev pub weigh : (IndexQuery → ℕ) → List (ℕ × IndexQuery) → ℕ
weigh f [] = 0
weigh f ((k, q) ∷ rest) = f (carried q) + weigh f rest

abbrev pub weigh_results : (IndexQuery → ℕ) → List IndexQueryResult → ℕ
weigh_results f [] = 0
weigh_results f (r ∷ rest) = f (carried r.original_query) + weigh_results f rest

pub weigh-append :
    (f : IndexQuery → ℕ) (m : List (ℕ × IndexQuery)) (k : ℕ) (q : IndexQuery)
    → weigh f (m ++ (k, q) ∷ []) ≡ weigh f m + f (carried q)
weigh-append f [] k q = omega arith
weigh-append f ((j, x) ∷ m) k q = omega (arith, weigh-append f m k q)

weigh_results-append :
    (f : IndexQuery → ℕ) (m : List IndexQueryResult) (r : IndexQueryResult)
    → weigh_results f (m ++ r ∷ []) ≡ weigh_results f m + f (carried r.original_query)
weigh_results-append f [] r = omega arith
weigh_results-append f (x ∷ m) r = omega (arith, weigh_results-append f m r)

-- The queries that have a result to be polled, or wait in `blocking_reads_`.
abbrev pub settled : (IndexQuery → ℕ) → Index → ℕ
settled f s = weigh_results f s.pending_query_results + weigh f s.blocking_reads

-- All queries that the index has.
abbrev pub open_queries : (IndexQuery → ℕ) → Index → ℕ
open_queries f s = settled f s + weigh f s.pending_queries

-- A step has settled the queries that count `k` and changed nothing else.
pub record Settles (k : (IndexQuery → ℕ) → ℕ) (s s' : Index) : Type 0 where
  pub total : (f : IndexQuery → ℕ) → settled f s' ≡ settled f s + k f
  pub rest : s' ≡ record s {
    pending_query_results = s'.pending_query_results;
    blocking_reads = s'.blocking_reads;
  }

-- The weight of one query, and of one if it is answered.
abbrev pub one : IndexQuery → (IndexQuery → ℕ) → ℕ
one q f = f (carried q)

abbrev pub one_if : Bool → IndexQuery → (IndexQuery → ℕ) → ℕ
one_if b q f = if b then f (carried q) else 0

pub push_result-Settles :
    (q : IndexQuery) (r : IndexQueryResult) (s : Index)
    → carried r.original_query ≡ carried q
    → Settles (one q) s (push_result r s)
push_result-Settles q r s same = record {
  total = λ f. omega (arith, weigh_results-append f s.pending_query_results r, ap f same);
  rest = refl;
}

block-Settles :
    (now : ℕ) (q : IndexQuery) (s : Index)
    → Settles (one q) s (record s { blocking_reads = s.blocking_reads ++ (now, q) ∷ [] })
block-Settles now q s = record {
  total = λ f. omega (arith, weigh-append f s.blocking_reads now q);
  rest = refl;
}

pub Settles-trans :
    (j k n : (IndexQuery → ℕ) → ℕ) (a b c : Index)
    → ((f : IndexQuery → ℕ) → n f ≡ j f + k f)
    → Settles j a b
    → Settles k b c
    → Settles n a c
Settles-trans j k n a b c e v w = record {
  total = λ f. omega (arith, e f, v.total f, w.total f);
  rest =
      w.rest
      ∙ ap
          (λ (s : Index). record s {
            pending_query_results = c.pending_query_results;
            blocking_reads = c.blocking_reads;
          })
          v.rest;
}

pub ReadsRun-Settles :
    (k : (IndexQuery → ℕ) → ℕ) (s s' : Index) → ReadsRun s → Settles k s s' → ReadsRun s'
unfolding index_find_next index_find_prev
ReadsRun-Settles k s s' v w = subst ReadsRun (sym w.rest) v

pub ReadDirection-cases :
    (d : ReadDirection) → (d ≡ k_read_next) ⊎ ((d ≡ k_read_prev) ⊎ (d ≡ k_read_next_b))
ReadDirection-cases k_read_next = inl refl
ReadDirection-cases k_read_prev = inr (inl refl)
ReadDirection-cases k_read_next_b = inr (inr refl)

pub unchanged : (s : Index) → Settles (λ f. 0) s s
unchanged s = record { total = λ f. omega arith; rest = refl }

carried_on :
    (q : IndexQuery) (d : ReadDirection)
    → q.direction ≡ d
    → carried (elim d [ k_read_next_b ↦ record q { direction = k_read_next } | _ ↦ q ]) ≡ carried q
carried_on q k_read_next e = refl
carried_on q k_read_prev e = refl
carried_on q k_read_next_b e = ap (λ d. record q { direction = carried_direction d }) (sym e)

-- The call came to a state that has settled `k` more queries.
abbrev pub Answered : ((IndexQuery → ℕ) → ℕ) → Index → Outcome Index → Type 0
Answered k s o = (s' : Index) × (o ≡ ok s') × Settles k s s'

module _ (view_id : ℕ) (progress : ℕ → ℕ) where
  -- Every result is for the query that was asked.
  build_continue_result-original :
      (q : IndexQuery) (answer : Option (ℕ × ℕ)) (s : Index)
      → carried (build_continue_result view_id progress q answer s).original_query ≡ carried q
  unfolding build_continue_result
  build_continue_result-original q answer s = carried_on q q.direction refl

  next_result-original :
      (q : IndexQuery) (answer : Option (ℕ × ℕ)) (s : Index)
      → carried (next_result view_id progress q answer s).original_query ≡ carried q
  unfolding next_result next_from_prev_result build_found_result build_empty_result
  next_result-original q answer s = elim (Bool-cases (get_view_id q.query_seqnum == view_id)) [
    | inr other ↦ rw other (build_continue_result-original q answer s)
    | inl here ↦ elim (Option-cases answer) [
      | inr (a, there) ↦ rw (here, there) refl
      | inl absent ↦ elim (Bool-cases (q.prev_found_result.seqnum == invalid_log_seqnum)) [
        | inl nothing ↦ rw (here, absent) (rw nothing refl)
        | inr later ↦ rw (here, absent) (rw later refl)
      ]
    ]
  ]

  prev_result-original :
      (q : IndexQuery) (answer : Option (ℕ × ℕ)) (s : Index)
      → carried (prev_result view_id progress q answer s).original_query ≡ carried q
  unfolding prev_result build_found_result build_empty_result
  prev_result-original q (some (seqnum, shard)) s = refl
  prev_result-original q none s = elim (Bool-cases (ltb 0 view_id)) [
    | inl before ↦ rw before (build_continue_result-original q none s)
    | inr first ↦ rw first refl
  ]

  blocking_answer-Settles :
      (q : IndexQuery) (answer : Option (ℕ × ℕ)) (s : Index)
      → let r = blocking_answer view_id progress q answer s in Settles (one_if r.1 q) s r.0
  unfolding build_found_result
  blocking_answer-Settles q answer s = elim (Bool-cases (get_view_id q.query_seqnum == view_id)) [
    | inr other ↦ rw other (
        push_result-Settles q (build_continue_result view_id progress q answer s) s
          (build_continue_result-original q answer s))
    | inl here ↦ elim (Option-cases answer) [
      | inr ((seqnum, shard), there) ↦
          rw (here, there)
            (push_result-Settles q (build_found_result view_id progress q view_id seqnum shard s) s
              refl)
      | inl absent ↦ rw (here, absent) (unchanged s)
    ]
  ]

  -- The blocking read has its answer, or goes on waiting and the index is as it was.
  pub process_blocking_query_lem :
      (q : IndexQuery) (s : Index)
      → ReadsRun s
      → (s' : Index) × (b : Bool) × (process_blocking_query view_id progress q s ≡ ok (s', b))
        × Settles (one_if b q) s s'
  unfolding build_empty_result process_blocking_query
  process_blocking_query_lem q s v =
      let (answer, runs) = (v q).0 in
      elim (Bool-cases (ltb view_id (get_view_id q.query_seqnum))) [
        | inl late ↦ (
          push_result (build_empty_result view_id progress q s) s,
          true,
          rw (late, process_blocking_query) refl,
          push_result-Settles q (build_empty_result view_id progress q s) s refl,
        )
        | inr due ↦
            let r = blocking_answer view_id progress q answer s in
            (
              r.0,
              r.1,
              rw (due, runs, process_blocking_query) refl,
              blocking_answer-Settles q answer s,
            )
      ]

  process_read_next-push :
      (q : IndexQuery) (s : Index)
      → ReadsRun s
      → (r : IndexQueryResult) × (process_read_next view_id progress q s ≡ ok (push_result r s))
        × (carried r.original_query ≡ carried q)
  unfolding build_empty_result process_read_next
  process_read_next-push q s v =
      let (answer, runs) = (v q).0 in
      elim (Bool-cases (ltb view_id (get_view_id q.query_seqnum))) [
        | inl late ↦
            (build_empty_result view_id progress q s, rw (late, process_read_next) refl, refl)
        | inr due ↦ (
          next_result view_id progress q answer s,
          rw (due, runs, process_read_next) refl,
          next_result-original q answer s,
        )
      ]

  process_read_prev-push :
      (q : IndexQuery) (s : Index)
      → ReadsRun s
      → (r : IndexQueryResult) × (process_read_prev view_id progress q s ≡ ok (push_result r s))
        × (carried r.original_query ≡ carried q)
  unfolding process_read_prev
  process_read_prev-push q s v =
      let (answer, runs) = (v q).1 in
      elim (Bool-cases (ltb (get_view_id q.query_seqnum) view_id)) [
        | inl early ↦ (
          build_continue_result view_id progress q none s,
          rw (early, process_read_prev) refl,
          build_continue_result-original q none s,
        )
        | inr due ↦ (
          prev_result view_id progress q answer s,
          rw (due, runs, process_read_prev) refl,
          prev_result-original q answer s,
        )
      ]

  wait_or_answer :
      (now : ℕ) (q : IndexQuery) (s s' : Index) (b : Bool)
      → Settles (one_if b q) s s'
      → Settles
          (one q)
          s
          (if b then s' else record s' { blocking_reads = s'.blocking_reads ++ (now, q) ∷ [] })
  wait_or_answer now q s s' true w = w
  wait_or_answer now q s s' false w =
      Settles-trans (λ f. 0) (one q) (one q) s s' _ (λ f. omega arith) w (block-Settles now q s')

  pub process_query_lem :
      (now : ℕ) (q : IndexQuery) (s : Index)
      → ReadsRun s
      → Answered (one q) s (process_query view_id progress now q s)
  unfolding process_query
  process_query_lem now q s v = elim (ReadDirection-cases q.direction) [
    | inr (inr e) ↦
        let (s', b, runs, w) = process_blocking_query_lem q s v in
        (
          (if b then s' else record s' { blocking_reads = s'.blocking_reads ++ (now, q) ∷ [] }),
          simp (e, runs, process_query),
          wait_or_answer now q s s' b w,
        )
    | inl e ↦
        let (r, runs, same) = process_read_next-push q s v in
        (push_result r s, simp (e, process_query) runs, push_result-Settles q r s same)
    | inr (inl e) ↦
        let (r, runs, same) = process_read_prev-push q s v in
        (push_result r s, simp (e, process_query) runs, push_result-Settles q r s same)
  ]

  expire_or_keep :
      (now start : ℕ) (q : IndexQuery) (s : Index)
      → Settles (one q) s (keep_or_expire view_id progress now start q s)
  unfolding build_empty_result
  expire_or_keep now start q s = elim (Bool-cases (ltb (now - start) blocking_query_timeout)) [
    | inl early ↦ rw early (block-Settles start q s)
    | inr late ↦ rw late (push_result-Settles q (build_empty_result view_id progress q s) s refl)
  ]

  pub keep_or_answer :
      (now start : ℕ) (q : IndexQuery) (s s' : Index) (b : Bool)
      → Settles (one_if b q) s s'
      → Settles (one q) s (if b then s' else keep_or_expire view_id progress now start q s')
  keep_or_answer now start q s s' true w = w
  keep_or_answer now start q s s' false w =
      Settles-trans (λ f. 0) (one q) (one q) s s' _ (λ f. omega arith) w
        (expire_or_keep now start q s')
