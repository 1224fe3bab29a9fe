-- ===== src/LogIndex/Reads.antt =====
-- The reads of an `Index` (src/log/index.cpp): what `IndexFindNext` and `IndexFindPrev` find among the
-- records that are indexed.
use ixe.Prelude.{
  ℕ, ◌≤◌, ◌<◌, ◌≡◌, refl, sym, ap, subst, ◌∙◌, true, Option, none, some, [], elem, arith, inl, inr,
  ok, Option-cases,
}
use ixe.Prelude.Maps.{find?}
use ixe.Bits.{join_two32}
use ixe.Query.{IndexQuery}
use ixe.Index.{PerSpaceIndex, selected, find_next, find_prev}
use ixe.Index.Nearest.{find_next_lem, find_prev_lem}
use ixe.LogIndex.{Index, IndexData, get_or_create_index, index_find_next, index_find_prev}
use ixe.LogIndex.Content.{Covers, Content, matches}

-- A record of the log below `n` that a read of user log space `u` with tag `t` is about.
abbrev pub IsMatch : (ℕ → IndexData) → ℕ → ℕ → ℕ → ℕ → Type 0
IsMatch log n u t j = (j < n) × (matches (log j) u t ≡ true)

module _ (log : ℕ → IndexData) (logspace_id n u t query : ℕ) where
  -- The first match at the query or past it, with its engine, or there is none.
  abbrev pub IsFirst : Option (ℕ × ℕ) → Type 0
  IsFirst none = (j : ℕ) → IsMatch log n u t j → join_two32 logspace_id j < query
  IsFirst (some (seqnum, engine)) =
      (k : ℕ) × (seqnum ≡ join_two32 logspace_id k)
      × (engine ≡ (log k).engine_id)
      × IsMatch log n u t k
      × (query ≤ seqnum)
      × ((j : ℕ) → IsMatch log n u t j → query ≤ join_two32 logspace_id j → k ≤ j)

  -- The last match that is not past the query, with its engine, or there is none.
  abbrev pub IsLast : Option (ℕ × ℕ) → Type 0
  IsLast none = (j : ℕ) → IsMatch log n u t j → query < join_two32 logspace_id j
  IsLast (some (seqnum, engine)) =
      (k : ℕ) × (seqnum ≡ join_two32 logspace_id k)
      × (engine ≡ (log k).engine_id)
      × IsMatch log n u t k
      × (seqnum ≤ query)
      × ((j : ℕ) → IsMatch log n u t j → join_two32 logspace_id j ≤ query → j ≤ k)

  module _ (p : PerSpaceIndex) (c : Covers log logspace_id n u p) where
    elem→IsMatch : (j : ℕ) → elem j (selected t p) ≡ true → IsMatch log n u t j
    elem→IsMatch j h = (ground (arith, c.holds t j), ground (arith, c.holds t j))

    IsMatch→elem : (j : ℕ) → IsMatch log n u t j → elem j (selected t p) ≡ true
    IsMatch→elem j h = ground (arith, c.holds t j, h.0, h.1)

    engine_of :
        (k engine : ℕ)
        → elem k (selected t p) ≡ true
        → find? k p.engine_ids ≡ some engine
        → engine ≡ (log k).engine_id
    engine_of k engine h f = ground (arith, c.holds t k, c.engines k)

    find_next-IsFirst :
        (answer : Option (ℕ × ℕ)) × (find_next query t p ≡ ok answer) × IsFirst answer
    find_next-IsFirst = elim (find_next_lem query t p c.valid) [
      | inl (runs, past) ↦ (
        none,
        runs,
        λ j h. subst (λ l. join_two32 l j < query) c.logspace (past j (IsMatch→elem j h)),
      )
      | inr (k, engine, runs, f, near) ↦ (
        some (join_two32 logspace_id k, engine),
        runs ∙ ap (λ l. ok (some (join_two32 l k, engine))) c.logspace,
        (
          k,
          refl,
          engine_of k engine near.0 f,
          elem→IsMatch k near.0,
          subst (λ l. query ≤ join_two32 l k) c.logspace near.1,
          λ j h le.
              near.2 j (IsMatch→elem j h) (subst (λ l. query ≤ join_two32 l j) (sym c.logspace) le),
        ),
      )
    ]

    find_prev-IsLast : (answer : Option (ℕ × ℕ)) × (find_prev query t p ≡ ok answer) × IsLast answer
    find_prev-IsLast = elim (find_prev_lem query t p c.valid) [
      | inl (runs, past) ↦ (
        none,
        runs,
        λ j h. subst (λ l. query < join_two32 l j) c.logspace (past j (IsMatch→elem j h)),
      )
      | inr (k, engine, runs, f, near) ↦ (
        some (join_two32 logspace_id k, engine),
        runs ∙ ap (λ l. ok (some (join_two32 l k, engine))) c.logspace,
        (
          k,
          refl,
          engine_of k engine near.0 f,
          elem→IsMatch k near.0,
          subst (λ l. join_two32 l k ≤ query) c.logspace near.1,
          λ j h le.
              near.2 j (IsMatch→elem j h) (subst (λ l. join_two32 l j ≤ query) (sym c.logspace) le),
        ),
      )
    ]

module _ (log : ℕ → IndexData) (logspace_id n : ℕ) (q : IndexQuery) (s : Index) where
  nothing :
      (u t j : ℕ)
      → Covers log logspace_id n u record {
        logspace_id = logspace_id;
        user_logspace = u;
        engine_ids = [];
        seqnums = [];
        seqnums_by_tag = [];
      }
      → IsMatch log n u t j
      → ⊥
  unfolding elem find?
  nothing u t j c h = ground (arith, c.holds t j, h.0, h.1)

  -- `IndexFindNext` runs and finds the first match.
  pub index_find_next-IsFirst :
      Content log logspace_id n s
      → (answer : Option (ℕ × ℕ)) × (index_find_next q s ≡ ok answer)
        × IsFirst log logspace_id n q.user_logspace q.user_tag q.query_seqnum answer
  unfolding index_find_next get_or_create_index find?
  index_find_next-IsFirst c = elim (Option-cases (find? q.user_logspace s.index)) [
    | inl absent ↦ (
      none,
      rw (absent, index_find_next) refl,
      λ j h. absurd (
          nothing q.user_logspace q.user_tag j
            (rw (absent, get_or_create_index) at (c q.user_logspace)) h),
    )
    | inr (p, there) ↦
        rw (there, index_find_next)
          (find_next-IsFirst log logspace_id n q.user_logspace q.user_tag q.query_seqnum p
            (rw (there, get_or_create_index) at (c q.user_logspace)))
  ]

  -- `IndexFindPrev` runs and finds the last match.
  pub index_find_prev-IsLast :
      Content log logspace_id n s
      → (answer : Option (ℕ × ℕ)) × (index_find_prev q s ≡ ok answer)
        × IsLast log logspace_id n q.user_logspace q.user_tag q.query_seqnum answer
  unfolding index_find_prev get_or_create_index find?
  index_find_prev-IsLast c = elim (Option-cases (find? q.user_logspace s.index)) [
    | inl absent ↦ (
      none,
      rw (absent, index_find_prev) refl,
      λ j h. absurd (
          nothing q.user_logspace q.user_tag j
            (rw (absent, get_or_create_index) at (c q.user_logspace)) h),
    )
    | inr (p, there) ↦
        rw (there, index_find_prev)
          (find_prev-IsLast log logspace_id n q.user_logspace q.user_tag q.query_seqnum p
            (rw (there, get_or_create_index) at (c q.user_logspace)))
  ]
