-- ===== src/Index/Nearest.antt =====
-- `FindPrev` and `FindNext` of src/log/index.cpp find the nearest number.
use ixe.Prelude.{
  ℕ, ◌*◌, ◌^◌, ◌≤◌, ◌<◌, ◌≡◌, ◌⊎◌, inl, inr, refl, subst, ap, true, Option, none, some, List, [],
  ◌∷◌, elem, arith, ltb, ◌==◌, ok, ltb→lt, Option-cases, Bool-cases,
}
use ixe.Prelude.Maps.{find?, contains, contains-find?}
use ixe.Bits.{join_two32, join_two32_lem}
use ixe.Index.{
  PerSpaceIndex, max_log_seqnum, back, before_upper, at_lower, prev_among, next_among, selected,
  found, find_prev, find_next,
}

-- Numbers of 32 bits in order, all from `lo` on; a number may stand twice.
abbrev pub Sorted : ℕ → List ℕ → Type 0
Sorted lo [] = Unit {0}
Sorted lo (k ∷ ks) = (lo ≤ k) × (k < 2 ^ 32) × Sorted k ks

-- The least of the numbers that is at the query or past it.
abbrev pub IsNext : ℕ → ℕ → List ℕ → Option ℕ → Type 0
IsNext l q ks none = (j : ℕ) → elem j ks ≡ true → join_two32 l j < q
IsNext l q ks (some k) =
    (elem k ks ≡ true)
    × (q ≤ join_two32 l k)
    × ((j : ℕ) → elem j ks ≡ true → q ≤ join_two32 l j → k ≤ j)

-- The greatest of the numbers that is not past the query.
abbrev pub IsPrev : ℕ → ℕ → List ℕ → Option ℕ → Type 0
IsPrev l q ks none = (j : ℕ) → elem j ks ≡ true → q < join_two32 l j
IsPrev l q ks (some k) =
    (elem k ks ≡ true)
    × (join_two32 l k ≤ q)
    × ((j : ℕ) → elem j ks ≡ true → join_two32 l j ≤ q → j ≤ k)

Sorted-elem : (lo j : ℕ) (ks : List ℕ) → Sorted lo ks → elem j ks ≡ true → (lo ≤ j) × (j < 2 ^ 32)
unfolding elem
Sorted-elem lo j [] s h = cc
Sorted-elem lo j (k ∷ ks) s h = ground (arith, Sorted-elem k j ks s.2)

module _ (l q : ℕ) (in_range : l < 2 ^ 32) where
  -- Joined numbers keep the order of their low halves.
  join-le : (j k : ℕ) → j < 2 ^ 32 → k < 2 ^ 32 → j ≤ k → join_two32 l j ≤ join_two32 l k
  join-le j k a b h = omega (arith, join_two32_lem l j in_range a, join_two32_lem l k in_range b)

  IsNext-cons :
      (k : ℕ) (ks : List ℕ) (o : Option ℕ)
      → join_two32 l k < q
      → IsNext l q ks o
      → IsNext l q (k ∷ ks) o
  unfolding elem
  IsNext-cons k ks none h n = λ j e. ground (arith, n j, ap (join_two32 l) {x = k} {y = j})
  IsNext-cons k ks (some i) h n =
      (ground (arith, n.0), n.1, λ j e le. ground (arith, n.2 j, ap (join_two32 l) {x = k} {y = j}))

  at_lower-IsNext : (lo : ℕ) (ks : List ℕ) → Sorted lo ks → IsNext l q ks (at_lower l q ks)
  unfolding at_lower elem
  at_lower-IsNext lo [] s = λ j h. cc
  at_lower-IsNext lo (k ∷ ks) s = elim (Bool-cases (ltb (join_two32 l k) q)) [
    | inl low ↦
        rw low (IsNext-cons k ks (at_lower l q ks) (ltb→lt _ q low) (at_lower-IsNext k ks s.2))
    | inr here ↦
        rw here (ground arith, ground arith, λ j h le. ground (arith, Sorted-elem k j ks s.2))
  ]

  back-elem :
      (lo k : ℕ) (ks : List ℕ)
      → Sorted lo (k ∷ ks)
      → (elem (back k ks) (k ∷ ks) ≡ true) × ((j : ℕ) → elem j (k ∷ ks) ≡ true → j ≤ back k ks)
  unfolding elem
  back-elem lo k [] s = (ground arith, λ j h. ground arith)
  back-elem lo k (i ∷ ks) s =
      let (e, top) = back-elem k i ks s.2 in (ground arith, λ j h. ground (arith, top j, top i))

  pub next_among_lem : (lo : ℕ) (ks : List ℕ) → Sorted lo ks → IsNext l q ks (next_among l q ks)
  unfolding next_among elem
  next_among_lem lo [] s = λ j h. cc
  next_among_lem lo (k ∷ ks) s = elim (Bool-cases (ltb (join_two32 l (back k ks)) q)) [
    | inr some_left ↦ rw some_left (at_lower-IsNext lo (k ∷ ks) s)
    | inl past ↦
        let (e, top) = back-elem lo k ks s in
        rw past (λ j h. omega (
          arith,
          ltb→lt _ q past,
          join-le j (back k ks) (Sorted-elem lo j (k ∷ ks) s h).1
              (Sorted-elem lo (back k ks) (k ∷ ks) s e).1 (top j h),
        ))
  ]

  IsPrev-cons :
      (b k : ℕ) (ks : List ℕ) (o : Option ℕ)
      → b ≤ k
      → join_two32 l k ≤ q
      → IsPrev l q (k ∷ ks) o
      → IsPrev l q (b ∷ k ∷ ks) o
  unfolding elem
  IsPrev-cons b k ks none h le n = absurd (omega (arith, n k (ground arith)))
  IsPrev-cons b k ks (some i) h le n =
      (ground (arith, n.0), n.1, λ j e up. ground (arith, n.2 j, n.2 k))

  before_upper-IsPrev :
      (b : ℕ) (ks : List ℕ)
      → Sorted b ks
      → join_two32 l b ≤ q
      → IsPrev l q (b ∷ ks) (before_upper l q (some b) ks)
  unfolding before_upper elem
  before_upper-IsPrev b [] s h = (ground arith, h, λ j e le. ground arith)
  before_upper-IsPrev b (k ∷ ks) s h = elim (Bool-cases (ltb q (join_two32 l k))) [
    | inr within ↦
        let le : join_two32 l k ≤ q = ground arith in
        rw within (
          IsPrev-cons b k ks (before_upper l q (some k) ks) s.0 le
            (before_upper-IsPrev k ks s.2 le))
    | inl past ↦ rw past (
      ground arith,
      h,
      λ j e le. ground (
        arith,
        Sorted-elem k j ks s.2,
        join-le k j s.1,
        ltb→lt q _ past,
        ap (join_two32 l) {x = k} {y = j},
      ),
    )
  ]

  pub prev_among_lem :
      (lo : ℕ) (ks : List ℕ) → l < 65535 * 2 ^ 16 → Sorted lo ks → IsPrev l q ks (prev_among l q ks)
  unfolding prev_among before_upper elem
  prev_among_lem lo [] r s = λ j h. cc
  prev_among_lem lo (k ∷ ks) r s = elim (Bool-cases (ltb q (join_two32 l k))) [
    | inl past ↦ rw past (λ j e. ground (
      arith,
      Sorted-elem k j ks s.2,
      join-le k j s.1,
      ltb→lt q _ past,
      ap (join_two32 l) {x = k} {y = j},
    ))
    | inr within ↦
        let le : join_two32 l k ≤ q = ground arith in
        elim (Bool-cases (q == max_log_seqnum)) [
          | inr usual ↦ rw (within, usual) (before_upper-IsPrev k ks s.2 le)
          | inl most ↦
              let (e, top) = back-elem lo k ks s in
              let top_of_log : q ≡ max_log_seqnum = ground arith in
              rw (within, most)
                (
                  e,
                  omega (
                    arith,
                    top_of_log,
                    join_two32_lem l (back k ks) in_range
                        (Sorted-elem lo (back k ks) (k ∷ ks) s e).1,
                    (Sorted-elem lo (back k ks) (k ∷ ks) s e).1,
                  ),
                  λ j h up. top j h,
                )
        ]
  ]

-- What a query needs of the index of a user log space: the numbers of every tag are in order and each
-- is held by a known engine. The log space is not one of the last view, whose numbers reach the
-- greatest query.
pub record IsIndex (p : PerSpaceIndex) : Type 0 where
  pub logspace : p.logspace_id < 65535 * 2 ^ 16
  pub sorted : (t : ℕ) → Sorted 0 (selected t p)
  pub engines : (t k : ℕ) → elem k (selected t p) ≡ true → contains k p.engine_ids ≡ true

-- `FindNext` runs, and answers with the least number with the tag that is at the query or past it,
-- and its engine; or it answers `false`, and all numbers with the tag are before the query.
pub find_next_lem :
    (query user_tag : ℕ) (p : PerSpaceIndex)
    → IsIndex p
    → ((find_next query user_tag p ≡ ok none)
        × IsNext p.logspace_id query (selected user_tag p) none)
      ⊎ ((k : ℕ) × (engine : ℕ) × (find_next query user_tag p
            ≡ ok (some (join_two32 p.logspace_id k, engine)))
          × (find? k p.engine_ids ≡ some engine)
          × IsNext p.logspace_id query (selected user_tag p) (some k))
unfolding find_next found
find_next_lem query user_tag p v =
    let l = p.logspace_id in
    let ks = selected user_tag p in
    let near = next_among_lem l query (omega (arith, v.logspace)) 0 ks (v.sorted user_tag) in
    elim (Option-cases (next_among l query ks)) [
      | inl e ↦ inl (rw e refl, subst (IsNext l query ks) e near)
      | inr (k, e) ↦
          let near' = subst (IsNext l query ks) e near in
          let (engine, f) = contains-find? k p.engine_ids (v.engines user_tag k near'.0) in
          inr (k, engine, rw (e, f) refl, f, near')
    ]

-- `FindPrev` runs, and answers with the greatest number with the tag that is not past the query, and
-- its engine; or it answers `false`, and all numbers with the tag are past the query.
pub find_prev_lem :
    (query user_tag : ℕ) (p : PerSpaceIndex)
    → IsIndex p
    → ((find_prev query user_tag p ≡ ok none)
        × IsPrev p.logspace_id query (selected user_tag p) none)
      ⊎ ((k : ℕ) × (engine : ℕ) × (find_prev query user_tag p
            ≡ ok (some (join_two32 p.logspace_id k, engine)))
          × (find? k p.engine_ids ≡ some engine)
          × IsPrev p.logspace_id query (selected user_tag p) (some k))
unfolding find_prev found
find_prev_lem query user_tag p v =
    let l = p.logspace_id in
    let ks = selected user_tag p in
    let near =
      prev_among_lem l query (omega (arith, v.logspace)) 0 ks v.logspace (v.sorted user_tag) in
    elim (Option-cases (prev_among l query ks)) [
      | inl e ↦ inl (rw e refl, subst (IsPrev l query ks) e near)
      | inr (k, e) ↦
          let near' = subst (IsPrev l query ks) e near in
          let (engine, f) = contains-find? k p.engine_ids (v.engines user_tag k near'.0) in
          inr (k, engine, rw (e, f) refl, f, near')
    ]
