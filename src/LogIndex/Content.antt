-- ===== src/LogIndex/Content.antt =====
-- What the user log spaces of an `Index` (src/log/index.cpp) hold: the records below a position.
use ixe.Prelude.{
  ℕ, ◌+◌, ◌*◌, ◌^◌, ◌≤◌, ◌<◌, ◌≡◌, ◌≢◌, refl, sym, ap, subst, ◌∙◌, Bool, true, ◌||◌, ◌&&◌, some,
  List, [], ◌∷◌, elem, arith, ltb, leb, ◌==◌, inl, inr, Bool-cases, ℕ_discrete,
}
use ixe.Prelude.Maps.{find?, find?-put, contains, contains_below, Rising}
use ixe.Index.{PerSpaceIndex, selected, empty_log_tag, add}
use ixe.Index.Nearest.{IsIndex}
use ixe.Index.Add.{add_lem}
use ixe.LogIndex.{Index, IndexData, get_or_create_index, index_record, index_until}

-- Whether a record belongs to a user log space and has a tag; every record has the empty tag.
abbrev pub matches : IndexData → ℕ → ℕ → Bool
matches d u t = u == d.user_logspace && (t == empty_log_tag || elem t d.user_tags)

module _ (log : ℕ → IndexData) (logspace_id : ℕ) where
  -- The index of user log space `u` holds the records of the log below `n` that are its own.
  pub record Covers (n u : ℕ) (p : PerSpaceIndex) : Type 0 where
    pub logspace : p.logspace_id ≡ logspace_id
    pub valid : IsIndex p
    pub holds : (t j : ℕ) → elem j (selected t p) ≡ (ltb j n && matches (log j) u t)
    pub engines :
        (j : ℕ)
        → (ltb j n && matches (log j) u empty_log_tag) ≡ true
        → find? j p.engine_ids ≡ some (log j).engine_id

  abbrev pub Content : ℕ → Index → Type 0
  Content n s = (u : ℕ) → Covers n u (get_or_create_index logspace_id u s)

  abbrev empty_index : ℕ → PerSpaceIndex
  empty_index u = record {
    logspace_id = logspace_id;
    user_logspace = u;
    engine_ids = [];
    seqnums = [];
    seqnums_by_tag = [];
  }

  empty_index-Covers : (u : ℕ) → logspace_id < 65535 * 2 ^ 16 → Covers 0 u (empty_index u)
  unfolding find? elem contains
  empty_index-Covers u b = record {
    logspace = refl;
    valid = record { logspace = b; sorted = λ t. ground arith; engines = λ t k h. ground arith };
    holds = λ t j. ground arith;
    engines = λ j h. ground arith;
  }

  -- An index with no record holds the records below 0.
  pub Content-empty : (s : Index) → s.index ≡ [] → logspace_id < 65535 * 2 ^ 16 → Content 0 s
  unfolding get_or_create_index find?
  Content-empty s e b u =
      let same : get_or_create_index logspace_id u s ≡ empty_index u =
        simp (get_or_create_index, e) in
      subst (Covers 0 u) (sym same) (empty_index-Covers u b)

  matches-record :
      (n u t j : ℕ)
      → ((n == j && (t == empty_log_tag || elem t (log n).user_tags))
          || (ltb j n && matches (log j) (log n).user_logspace t))
        ≡ (ltb j (n + 1) && matches (log j) (log n).user_logspace t)
  matches-record n u t j = elim (ℕ_discrete n j) [
    | yes e ↦
        subst
          (λ i.
            ((n == i && (t == empty_log_tag || elem t (log n).user_tags))
              || (ltb i n && matches (log i) (log n).user_logspace t))
            ≡ (ltb i (n + 1) && matches (log i) (log n).user_logspace t))
          e (ground arith)
    | no ne ↦ ground arith
  ]

  matches-other :
      (n u t j : ℕ)
      → (log n).user_logspace ≢ u
      → (ltb j n && matches (log j) u t) ≡ (ltb j (n + 1) && matches (log j) u t)
  matches-other n u t j ne = elim (ℕ_discrete n j) [
    | yes e ↦
        subst (λ i. (ltb i n && matches (log i) u t) ≡ (ltb i (n + 1) && matches (log i) u t)) e
          (ground arith)
    | no other ↦ ground arith
  ]

  -- A record of another user log space changes nothing.
  Covers-other :
      (n u : ℕ) (p : PerSpaceIndex) → (log n).user_logspace ≢ u → Covers n u p → Covers (n + 1) u p
  Covers-other n u p ne c = record {
    logspace = c.logspace;
    valid = c.valid;
    holds = λ t j. c.holds t j ∙ matches-other n u t j ne;
    engines = λ j h. c.engines j (matches-other n u empty_log_tag j ne ∙ h);
  }

  logspace-add :
      (n : ℕ) (p : PerSpaceIndex)
      → (add n (log n).engine_id (log n).user_tags p).logspace_id ≡ p.logspace_id
  unfolding add
  logspace-add n p = refl

  Covers-record :
      (n : ℕ) (p : PerSpaceIndex)
      → n < 2 ^ 32
      → Covers n (log n).user_logspace p
      → Covers (n + 1) (log n).user_logspace (add n (log n).engine_id (log n).user_tags p)
  Covers-record n p b c =
      let d = log n in
      let (valid, filed, ids) =
        add_lem n d.engine_id d.user_tags p c.valid b (λ t j h. ground (arith, c.holds t j)) in
      record {
        logspace = logspace-add n p ∙ c.logspace;
        valid = valid;
        holds = λ t j.
            filed t j
            ∙ ap (λ w. (n == j && (t == empty_log_tag || elem t d.user_tags)) || w) (c.holds t j)
            ∙ matches-record n d.user_logspace t j;
        engines = λ j h. ids j ∙ elim (ℕ_discrete n j) [
          | yes e ↦ ground (arith, e, ap (λ i. (log i).engine_id) e)
          | no ne ↦ ground (arith, c.engines j)
        ];
      }

  get_or_create-other :
      (n u : ℕ) (d : IndexData) (s : Index)
      → d.user_logspace ≢ u
      → get_or_create_index logspace_id u (index_record logspace_id n d s)
        ≡ get_or_create_index logspace_id u s
  unfolding get_or_create_index index_record
  get_or_create-other n u d s ne = ground (
    arith,
    find?-put d.user_logspace u
        (add n d.engine_id d.user_tags (get_or_create_index logspace_id d.user_logspace s)) s.index,
  )

  get_or_create-record :
      (n : ℕ) (d : IndexData) (s : Index)
      → get_or_create_index logspace_id d.user_logspace (index_record logspace_id n d s)
        ≡ add n d.engine_id d.user_tags (get_or_create_index logspace_id d.user_logspace s)
  unfolding get_or_create_index index_record
  get_or_create-record n d s = ground (
    arith,
    find?-put d.user_logspace d.user_logspace
        (add n d.engine_id d.user_tags (get_or_create_index logspace_id d.user_logspace s)) s.index,
  )

  Content-record :
      (n : ℕ) (s : Index)
      → n < 2 ^ 32
      → Content n s
      → Content (n + 1) (index_record logspace_id n (log n) s)
  Content-record n s b c u = elim (ℕ_discrete (log n).user_logspace u) [
    | yes e ↦
        subst
          (λ v.
            Covers (n + 1) v
              (get_or_create_index logspace_id v (index_record logspace_id n (log n) s)))
          e
          (subst (Covers (n + 1) (log n).user_logspace) (sym (get_or_create-record n (log n) s)) (
            Covers-record n (get_or_create_index logspace_id (log n).user_logspace s) b
              (c (log n).user_logspace)))
    | no ne ↦
        subst (Covers (n + 1) u) (sym (get_or_create-other n u (log n) s ne))
          (Covers-other n u (get_or_create_index logspace_id u s) ne (c u))
  ]

  -- The records received are those of the log.
  abbrev pub FromLog : List (ℕ × IndexData) → Type 0
  FromLog [] = Unit {0}
  FromLog ((k, d) ∷ rest) = (d ≡ log k) × (k < 2 ^ 32) × FromLog rest

  first-le :
      (n k : ℕ) (d : IndexData) (rest : List (ℕ × IndexData))
      → Rising (k + 1) rest
      → contains n ((k, d) ∷ rest) ≡ true
      → k ≤ n
  unfolding contains
  first-le n k d rest r h = ground (arith, contains_below (k + 1) n rest r)

  -- The loop up to the end of a cut, when all records before it are there: they are indexed, and the
  -- others stay.
  pub record Indexed (end_seqnum : ℕ) (m : List (ℕ × IndexData)) (s s' : Index) : Type 0 where
    pub content : Content end_seqnum s'
    pub from : FromLog s'.received_data
    pub rising : Rising end_seqnum s'.received_data
    pub kept : (j : ℕ) → end_seqnum ≤ j → contains j s'.received_data ≡ contains j m
    pub rest : s' ≡ record s { index = s'.index; received_data = s'.received_data }

  pub index_until-Indexed :
      (n end_seqnum : ℕ) (m : List (ℕ × IndexData)) (s : Index)
      → n ≤ end_seqnum
      → Rising n m
      → FromLog m
      → ((j : ℕ) → n ≤ j → j < end_seqnum → contains j m ≡ true)
      → Content n s
      → Indexed end_seqnum m s (index_until logspace_id end_seqnum m s)
  unfolding index_until index_record contains get_or_create_index
  index_until-Indexed n end_seqnum [] s le r f all c = record {
    content = subst (λ i. Content i (record s { received_data = [] })) (ground (arith, all n)) c;
    from = tt;
    rising = tt;
    kept = λ j h. refl;
    rest = refl;
  }
  index_until-Indexed n end_seqnum ((k, d) ∷ rest) s le r f all c =
      let here : n < end_seqnum → k ≤ n = λ h. first-le n k d rest r.1 (all n (omega arith) h) in
      elim (Bool-cases (leb end_seqnum k)) [
        | inl past ↦
            let same : n ≡ end_seqnum = ground (arith, here) in
            rw (past, index_until)
              (record {
                content =
                    subst (λ i. Content i (record s { received_data = (k, d) ∷ rest })) same c;
                from = f;
                rising = (ground arith, r.1);
                kept = λ j h. refl;
                rest = refl;
              })
        | inr within ↦
            let same : n ≡ k = ground (arith, here) in
            let c' : Content (k + 1) (index_record logspace_id k d s) =
              subst (λ e. Content (k + 1) (index_record logspace_id k e s)) (sym f.0)
                (Content-record k s f.1 (subst (λ i. Content i s) same c)) in
            let w =
              index_until-Indexed (k + 1) end_seqnum rest (index_record logspace_id k d s)
                (ground arith) r.1 f.2
                (λ j low high. ground (arith, all j (omega (arith, same)) high)) c' in
            rw (within, index_until)
              (record {
                content = w.content;
                from = w.from;
                rising = w.rising;
                kept = λ j h. w.kept j h ∙ ground arith;
                rest = w.rest;
              })
      ]
