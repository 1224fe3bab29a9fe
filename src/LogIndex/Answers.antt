-- ===== src/LogIndex/Answers.antt =====
-- The results of the reads of an `Index` (src/log/index.cpp), by the view that the query is about.
use ixe.Prelude.{
  ℕ, ◌+◌, ◌*◌, ◌-◌, ◌%◌, ◌^◌, ◌≤◌, ◌<◌, ◌≡◌, ◌≢◌, refl, sym, true, false, Option, none, some, arith,
  ltb, ◌==◌, if◌then◌else◌, inl, inr, ok, Bool-cases, ltb→lt,
}
use ixe.Bits.{get_view_id, join_two32_lem}
use ixe.Query.{
  QueryState, k_found, k_empty, k_continue, IndexFoundResult, IndexQuery, IndexQueryResult,
  invalid_log_seqnum, no_result,
}
use ixe.LogIndex.{
  Index, IndexData, push_result, next_result, prev_result, process_read_next, process_read_prev,
  build_found_result, build_empty_result, build_continue_result, next_from_prev_result,
  continue_found, continue_query,
}
use ixe.LogIndex.Content.{Content}
use ixe.LogIndex.Reads.{IsFirst, IsLast, index_find_next-IsFirst, index_find_prev-IsLast}

-- What an index of view `view_id` says after it found `answer`: that, or what an index of a later view
-- had found.
abbrev pub nearest : ℕ → IndexQuery → Option (ℕ × ℕ) → IndexFoundResult
nearest view_id q (some (seqnum, engine)) = record {
  view_id = view_id;
  storage_shard_id = engine;
  seqnum = seqnum;
}
nearest view_id q none = q.prev_found_result

-- A first query has no earlier result; "no result" has one form.
pub record IsQuery (q : IndexQuery) : Type 0 where
  pub initial : q.initial ≡ true → q.prev_found_result ≡ no_result
  pub nothing : q.prev_found_result.seqnum ≡ invalid_log_seqnum → q.prev_found_result ≡ no_result

abbrev pub state_of : IndexFoundResult → QueryState
state_of r = if r.seqnum == invalid_log_seqnum then k_empty else k_found

module _ (view_id : ℕ) (progress : ℕ → ℕ) where
  -- The result of a forward read for which the index holds `answer`.
  pub record IsNextResult (q : IndexQuery) (s : Index) (answer : Option (ℕ × ℕ))
      (r : IndexQueryResult) : Type 0 where
    pub future :
        view_id < get_view_id q.query_seqnum → (r.state ≡ k_empty) × (r.found_result ≡ no_result)
    pub present :
        get_view_id q.query_seqnum ≡ view_id
        → (r.state ≡ state_of (nearest view_id q answer))
          × (r.found_result ≡ nearest view_id q answer)
    pub past :
        get_view_id q.query_seqnum < view_id
        → (r.state ≡ k_continue)
          × (r.next_view_id + 1 ≡ view_id)
          × (r.found_result ≡ nearest view_id q answer)
          × (r.original_query ≡ continue_query view_id progress q)

  from_prev :
      (q : IndexQuery) (s : Index)
      → IsQuery q
      → let r = next_from_prev_result view_id progress q s in
        (r.state ≡ state_of q.prev_found_result) × (r.found_result ≡ q.prev_found_result)
  unfolding next_from_prev_result build_empty_result build_found_result
  from_prev q s v = elim (Bool-cases (q.prev_found_result.seqnum == invalid_log_seqnum)) [
    | inl e ↦ rw e (refl, sym (v.nothing (ground arith)))
    | inr e ↦ rw e (refl, refl)
  ]

  continue_found-nearest :
      (q : IndexQuery) (answer : Option (ℕ × ℕ))
      → IsQuery q
      → continue_found view_id progress q answer ≡ nearest view_id q answer
  continue_found-nearest q (some (seqnum, engine)) v = refl
  continue_found-nearest q none v = elim (Bool-cases q.initial) [
    | inl first ↦ rw first (sym (v.initial first))
    | inr later ↦ rw later refl
  ]

  -- The result of a read that found a number of a record is not taken for "no result".
  abbrev pub IsSeqnum : Option (ℕ × ℕ) → Type 0
  IsSeqnum none = Unit {0}
  IsSeqnum (some (seqnum, engine)) = seqnum ≢ invalid_log_seqnum

  found-IsNextResult :
      (q : IndexQuery) (s : Index) (answer : Option (ℕ × ℕ))
      → IsQuery q
      → IsSeqnum answer
      → get_view_id q.query_seqnum ≡ view_id
      → let r = next_result view_id progress q answer s in
        (r.state ≡ state_of (nearest view_id q answer))
        × (r.found_result ≡ nearest view_id q answer)
  unfolding next_result build_found_result
  found-IsNextResult q s (some (seqnum, engine)) v h e = ground (arith, e, h)
  found-IsNextResult q s none v h e =
      let here : (get_view_id q.query_seqnum == view_id) ≡ true = ground (arith, e) in
      rw (here, next_result) (from_prev q s v)

  next_result-IsNextResult :
      (q : IndexQuery) (s : Index) (answer : Option (ℕ × ℕ))
      → IsQuery q
      → IsSeqnum answer
      → view_id < 2 ^ 16
      → get_view_id q.query_seqnum ≤ view_id
      → IsNextResult q s answer (next_result view_id progress q answer s)
  unfolding next_result build_continue_result
  next_result-IsNextResult q s answer v h b le = record {
    future = λ lt. absurd (omega arith);
    present = found-IsNextResult q s answer v h;
    past = λ lt.
        let earlier : (get_view_id q.query_seqnum == view_id) ≡ false = ground (arith, lt) in
        rw (earlier, next_result) (refl, ground arith, continue_found-nearest q answer v, refl);
  }

  pub IsFirst-IsSeqnum :
      (log : ℕ → IndexData) (logspace_id n u t query : ℕ) (answer : Option (ℕ × ℕ))
      → logspace_id < 65535 * 2 ^ 16
      → n ≤ 2 ^ 32
      → IsFirst log logspace_id n u t query answer
      → IsSeqnum answer
  IsFirst-IsSeqnum log logspace_id n u t query none l b f = tt
  IsFirst-IsSeqnum log logspace_id n u t query (some (seqnum, engine)) l b
        (k, e, engine_of, hit, past, near) =
      λ same.
        omega
          (arith, e, same, hit.0, join_two32_lem logspace_id k (omega arith) (omega (arith, hit.0)))

  IsNextResult-future :
      (q : IndexQuery) (s : Index) (answer : Option (ℕ × ℕ))
      → view_id < get_view_id q.query_seqnum
      → IsNextResult q s answer (build_empty_result view_id progress q s)
  unfolding build_empty_result
  IsNextResult-future q s answer lt = record {
    future = λ h. (refl, refl);
    present = λ e. absurd (omega (arith, e));
    past = λ h. absurd (omega arith);
  }

  -- The result of a backward read for which the index holds `answer`.
  abbrev pub IsPrevResult : IndexQuery → Option (ℕ × ℕ) → IndexQueryResult → Type 0
  IsPrevResult q answer r =
      if ltb (get_view_id q.query_seqnum) view_id
      then (r.state ≡ k_continue) × (r.next_view_id ≡ (view_id + 2 ^ 16 - 1) % 2 ^ 16)
      else elim answer [
        | some (seqnum, engine) ↦
            (r.state ≡ k_found)
            × (r.found_result
                ≡ record { view_id = view_id; storage_shard_id = engine; seqnum = seqnum })
        | none ↦
            if ltb 0 view_id
            then (r.state ≡ k_continue) × (r.next_view_id ≡ (view_id + 2 ^ 16 - 1) % 2 ^ 16)
            else (r.state ≡ k_empty) × (r.found_result ≡ no_result)
      ]

  IsPrevResult-past :
      (q : IndexQuery) (s : Index) (answer : Option (ℕ × ℕ))
      → get_view_id q.query_seqnum < view_id
      → IsPrevResult q answer (build_continue_result view_id progress q none s)
  unfolding build_continue_result
  IsPrevResult-past q s answer lt =
      let early : ltb (get_view_id q.query_seqnum) view_id ≡ true = ground (arith, lt) in
      rw early (refl, refl)

  prev_result-IsPrevResult :
      (q : IndexQuery) (s : Index) (answer : Option (ℕ × ℕ))
      → view_id ≤ get_view_id q.query_seqnum
      → IsPrevResult q answer (prev_result view_id progress q answer s)
  unfolding prev_result build_continue_result build_found_result build_empty_result
  prev_result-IsPrevResult q s (some (seqnum, engine)) le =
      let due : ltb (get_view_id q.query_seqnum) view_id ≡ false = ground (arith, le) in
      rw due (refl, refl)
  prev_result-IsPrevResult q s none le =
      let due : ltb (get_view_id q.query_seqnum) view_id ≡ false = ground (arith, le) in
      elim (Bool-cases (ltb 0 view_id)) [
        | inl later ↦ rw (due, later, prev_result) (refl, refl)
        | inr first ↦ rw (due, first, prev_result) (refl, refl)
      ]

  module _ (log : ℕ → IndexData) (logspace_id n : ℕ) where
    -- A forward read always runs and has one result. For a query of this view it is the first record
    -- with the tag from the query on, or what a later view had found, or empty when there is neither.
    -- For a query of an earlier view it is passed on to the view before, with the first of the two that
    -- there is; for one of a later view it is empty.
    pub process_read_next_lem :
        (q : IndexQuery) (s : Index)
        → Content log logspace_id n s
        → logspace_id < 65535 * 2 ^ 16
        → n ≤ 2 ^ 32
        → view_id < 2 ^ 16
        → IsQuery q
        → (answer : Option (ℕ × ℕ)) × (r : IndexQueryResult) × (process_read_next view_id progress q
              s
            ≡ ok (push_result r s))
          × IsFirst log logspace_id n q.user_logspace q.user_tag q.query_seqnum answer
          × IsNextResult q s answer r
    unfolding process_read_next
    process_read_next_lem q s c l b w v =
        let (answer, runs, first) = index_find_next-IsFirst log logspace_id n q s c in
        let known =
          IsFirst-IsSeqnum log logspace_id n q.user_logspace q.user_tag q.query_seqnum answer l b
            first in
        elim (Bool-cases (ltb view_id (get_view_id q.query_seqnum))) [
          | inl late ↦ (
            answer,
            build_empty_result view_id progress q s,
            rw (late, process_read_next) refl,
            first,
            IsNextResult-future q s answer (ltb→lt _ _ late),
          )
          | inr due ↦ (
            answer,
            next_result view_id progress q answer s,
            rw (due, runs, process_read_next) refl,
            first,
            next_result-IsNextResult q s answer v known w (ground arith),
          )
        ]

    -- A backward read always runs and has one result: the last record with the tag up to the query, and
    -- when there is none, or the query is of an earlier view, it is passed on to the view before. Only
    -- the first view answers that there is none.
    pub process_read_prev_lem :
        (q : IndexQuery) (s : Index)
        → Content log logspace_id n s
        → (answer : Option (ℕ × ℕ)) × (r : IndexQueryResult) × (process_read_prev view_id progress q
              s
            ≡ ok (push_result r s))
          × IsLast log logspace_id n q.user_logspace q.user_tag q.query_seqnum answer
          × IsPrevResult q answer r
    unfolding process_read_prev
    process_read_prev_lem q s c =
        let (answer, runs, last) = index_find_prev-IsLast log logspace_id n q s c in
        elim (Bool-cases (ltb (get_view_id q.query_seqnum) view_id)) [
          | inl early ↦ (
            answer,
            build_continue_result view_id progress q none s,
            rw (early, process_read_prev) refl,
            last,
            IsPrevResult-past q s answer (ltb→lt _ _ early),
          )
          | inr due ↦ (
            answer,
            prev_result view_id progress q answer s,
            rw (due, runs, process_read_prev) refl,
            last,
            prev_result-IsPrevResult q s answer (ground arith),
          )
        ]
