-- ===== src/LogIndex/Complete/Receive.antt =====
-- `IndexComplete::ProvideIndexData` of src/log/index_complete.cpp: the data of records that arrives in
-- packages, in any order and more than once.
use ixe.Prelude.{
  ℕ, ◌+◌, ◌%◌, ◌^◌, ◌≤◌, ◌<◌, ◌≡◌, refl, ap, false, ◌||◌, ◌&&◌, List, [], ◌∷◌, elem, length, take,
  drop, arith, ltb, leb, ◌==◌, if◌then◌else◌, inl, inr, ltb→lt, Bool-cases, ok,
}
use ixe.Prelude.Maps.{contains, insert, contains-insert, length-insert-le, insert-Rising, Rising}
use ixe.Prelude.Search.{first_missing, first_missing-FirstGap, FirstGap}
use ixe.LogSpace.Storage.{IndexDataProto}
use ixe.LogIndex.{Index, IndexData, get_or_create_index}
use ixe.LogIndex.Content.{FromLog}
use ixe.LogIndex.Complete.{receive, first_gap, provide_index_data}
use ixe.LogIndex.Complete.Cuts.{IsIndexed}

module _ (log : ℕ → IndexData) where
  -- The columns of a package are the data of records of the log.
  abbrev pub Agrees : List ℕ → List ℕ → List ℕ → List ℕ → List ℕ → Type 0
  Agrees [] es us ns tags = Unit {0}
  Agrees (k ∷ ks) (e ∷ es) (u ∷ us) (n ∷ ns) tags =
      (record { engine_id = e % 2 ^ 16; user_logspace = u; user_tags = take n tags } ≡ log k)
      × (k < 2 ^ 32)
      × Agrees ks es us ns (drop n tags)
  Agrees (k ∷ ks) es us ns tags = ⊥

  -- What the loop makes of the records received so far.
  pub record Received (indexed : ℕ) (ks : List ℕ) (m m' : List (ℕ × IndexData)) : Type 0 where
    pub rising : Rising indexed m'
    pub from : FromLog log 0 m'
    pub size : length m' ≤ length m + length ks
    pub holds : (j : ℕ) → contains j m' ≡ (contains j m || (leb indexed j && elem j ks))

  insert-FromLog :
      (k : ℕ) (d : IndexData) (m : List (ℕ × IndexData))
      → d ≡ log k
      → k < 2 ^ 32
      → FromLog log 0 m
      → FromLog log 0 (insert k d m)
  unfolding insert
  insert-FromLog k d [] e b f = (e, b, tt)
  insert-FromLog k d ((j, w) ∷ m) e b f = elim (Bool-cases (ltb k j)) [
    | inl before ↦ rw before (e, b, f)
    | inr late ↦ elim (Bool-cases (j == k)) [
      | inl same ↦ rw (late, same) (e, b, f.2)
      | inr other ↦ rw (late, other) (f.0, f.1, insert-FromLog k d m e b f.2)
    ]
  ]

  receive_one :
      (indexed k : ℕ) (d : IndexData) (m : List (ℕ × IndexData))
      → d ≡ log k
      → k < 2 ^ 32
      → Rising indexed m
      → FromLog log 0 m
      → Received indexed (k ∷ []) m (if ltb k indexed || contains k m then m else insert k d m)
  unfolding elem
  receive_one indexed k d m e b r f = elim (Bool-cases (ltb k indexed || contains k m)) [
    | inl skipped ↦ rw skipped (record {
      rising = r;
      from = f;
      size = omega arith;
      holds = λ j. ground (arith, ap (λ i. contains i m) {x = k} {y = j});
    })
    | inr fresh ↦ rw fresh (record {
      rising = insert-Rising indexed k d m (ground arith) r;
      from = insert-FromLog k d m e b f;
      size = omega (arith, length-insert-le k d m);
      holds = λ j. ground (arith, contains-insert k j d m);
    })
  ]

  Received-cons :
      (indexed k : ℕ) (ks : List ℕ) (m₀ m₁ m₂ : List (ℕ × IndexData))
      → Received indexed (k ∷ []) m₀ m₁
      → Received indexed ks m₁ m₂
      → Received indexed (k ∷ ks) m₀ m₂
  unfolding elem
  Received-cons indexed k ks m₀ m₁ m₂ one rest = record {
    rising = rest.rising;
    from = rest.from;
    size = omega (arith, one.size, rest.size);
    holds = λ j. ground (arith, rest.holds j, one.holds j);
  }

  receive_lem :
      (indexed : ℕ) (ks es us ns tags : List ℕ) (m : List (ℕ × IndexData))
      → Agrees ks es us ns tags
      → Rising indexed m
      → FromLog log 0 m
      → (m' : List (ℕ × IndexData)) × (receive indexed ks es us ns tags m ≡ ok m')
        × Received indexed ks m m'
  unfolding receive elem
  receive_lem indexed [] es us ns tags m a r f =
      (m, refl, record { rising = r; from = f; size = omega arith; holds = λ j. ground arith })
  receive_lem indexed (k ∷ ks) [] us ns tags m a r f = absurd a
  receive_lem indexed (k ∷ ks) (e ∷ es) [] ns tags m a r f = absurd a
  receive_lem indexed (k ∷ ks) (e ∷ es) (u ∷ us) [] tags m a r f = absurd a
  receive_lem indexed (k ∷ ks) (e ∷ es) (u ∷ us) (n ∷ ns) tags m (same, b, a) r f =
      let d : IndexData = record {
        engine_id = e % 2 ^ 16;
        user_logspace = u;
        user_tags = take n tags;
      } in
      let one = receive_one indexed k d m same b r f in
      let m₁ = if ltb k indexed || contains k m then m else insert k d m in
      let (m', runs, rest) =
        receive_lem indexed ks es us ns (drop n tags) m₁ a one.rising one.from in
      (m', runs, Received-cons indexed k ks m m₁ m' one rest)

  -- A package whose columns agree with the log is always taken. What was received stays, the records
  -- of the package that are not indexed yet are added, `data_received_seqnum_position_` moves to the
  -- first position whose record is missing, and the invariant of the index is kept.
  pub provide_index_data-IsIndexed :
      (logspace_id : ℕ) (p : IndexDataProto) (s : Index)
      → IsIndexed log logspace_id s
      → Agrees p.seqnum_halves p.engine_ids p.user_logspaces p.user_tag_sizes p.user_tags
      → s.data_received_seqnum_position + length s.received_data + length p.seqnum_halves + 1
        < 2 ^ 32
      → (s' : Index) × (provide_index_data p s ≡ ok s')
        × IsIndexed log logspace_id s'
        × ((j : ℕ)
            → contains j s'.received_data ≡ (
                contains j s.received_data
                || (leb s.indexed_seqnum_position j && elem j p.seqnum_halves)))
        × (contains s'.data_received_seqnum_position s'.received_data ≡ false)
  unfolding provide_index_data first_gap first_missing get_or_create_index
  provide_index_data-IsIndexed logspace_id p s v a b =
      let old = s.data_received_seqnum_position in
      let (m, runs, r) =
        receive_lem s.indexed_seqnum_position p.seqnum_halves p.engine_ids p.user_logspaces
          p.user_tag_sizes p.user_tags s.received_data a v.rising v.from in
      let g : FirstGap (λ k. k) old m (first_gap old m) =
        first_missing-FirstGap (λ k. k) (λ i j x y e. e) (length m + 1) old m m (omega arith)
          (omega (arith, r.size)) (λ i x y. refl) in
      (
        record s { received_data = m; data_received_seqnum_position = first_gap old m },
        rw (runs) refl,
        record {
          content = v.content;
          from = r.from;
          rising = r.rising;
          order = omega (arith, g.from);
          all = λ j x y. elim (Bool-cases (ltb j old)) [
            | inl before ↦ ground (arith, r.holds j, v.all j x (ltb→lt j old before))
            | inr past ↦ g.held j (ground arith) y
          ];
          cuts = v.cuts;
        },
        r.holds,
        g.gap,
      )
