-- ===== src/LogIndex/Complete/Cuts.antt =====
-- The loop over the cuts of an `IndexComplete` (src/log/index_complete.cpp).
use ixe.Prelude.{
  ℕ, ◌≤◌, ◌<◌, ◌≡◌, refl, sym, ap, subst, ◌∙◌, true, List, [], ◌∷◌, ◌++◌, ◌+◌, ◌%◌, ◌^◌, arith, ltb,
  inl, inr, Bool-cases, ltb→lt,
}
use ixe.Prelude.Maps.{contains, Rising}
use ixe.LogIndex.{Index, IndexData, get_or_create_index}
use ixe.LogIndex.Content.{Content, FromLog, index_until-Indexed}
use ixe.LogIndex.Complete.{apply_cut, apply_cuts}

-- The ends of the cuts do not go back, and none is before `lo`.
abbrev pub CutsFrom : ℕ → List (ℕ × ℕ) → Type 0
CutsFrom lo [] = Unit {0}
CutsFrom lo ((m, end_seqnum) ∷ rest) = (lo ≤ end_seqnum) × CutsFrom end_seqnum rest

module _ (log : ℕ → IndexData) (logspace_id : ℕ) where
  -- The index holds the records of the log below its position, and what it has received of the others
  -- has no gap up to `data_received_seqnum_position_`.
  pub record IsIndexed (s : Index) : Type 0 where
    pub content : Content log logspace_id s.indexed_seqnum_position s
    pub from : FromLog log logspace_id s.received_data
    pub rising : Rising s.indexed_seqnum_position s.received_data
    pub order : s.indexed_seqnum_position ≤ s.data_received_seqnum_position
    pub all :
        (j : ℕ)
        → s.indexed_seqnum_position ≤ j
        → j < s.data_received_seqnum_position
        → contains j s.received_data ≡ true
    pub cuts : CutsFrom s.indexed_seqnum_position s.cuts

  apply_cut-IsIndexed :
      (m end_seqnum : ℕ) (rest : List (ℕ × ℕ)) (s : Index)
      → IsIndexed s
      → s.indexed_seqnum_position ≤ end_seqnum
      → end_seqnum ≤ s.data_received_seqnum_position
      → CutsFrom end_seqnum rest
      → IsIndexed (apply_cut logspace_id m end_seqnum rest s)
        × ((apply_cut logspace_id m end_seqnum rest s).data_received_seqnum_position
            ≡ s.data_received_seqnum_position)
  unfolding get_or_create_index
  apply_cut-IsIndexed m end_seqnum rest s v low high c =
      let w =
        index_until-Indexed log logspace_id s.indexed_seqnum_position end_seqnum s.received_data s
          low v.rising v.from (λ j a b. v.all j a (omega arith)) v.content in
      let same = ap (λ (i : Index). i.data_received_seqnum_position) w.rest in
      (
        record {
          content = λ u. w.content u;
          from = w.from;
          rising = w.rising;
          order = omega (arith, same);
          all = λ j a b. w.kept j a ∙ v.all j (omega arith) (omega (arith, same));
          cuts = c;
        },
        same,
      )

  -- What is left of the cuts starts with one whose records are not all there.
  abbrev pub Stopped : Index → List (ℕ × ℕ) → Type 0
  Stopped s [] = Unit {0}
  Stopped s ((m, end_seqnum) ∷ rest) = s.data_received_seqnum_position < end_seqnum

  -- All cuts whose records are there are applied, and with them exactly their records are indexed: the
  -- index is the one of the log below the end of the last of these cuts.
  pub apply_cuts-IsIndexed :
      (cuts : List (ℕ × ℕ)) (s : Index)
      → s.cuts ≡ cuts
      → IsIndexed s
      → let s' = apply_cuts logspace_id cuts s in
        IsIndexed s'
        × Stopped s' s'.cuts
        × (s'.data_received_seqnum_position ≡ s.data_received_seqnum_position)
  unfolding apply_cuts
  apply_cuts-IsIndexed [] s e v = (v, subst (Stopped s) (sym e) tt, refl)
  apply_cuts-IsIndexed ((m, end_seqnum) ∷ rest) s e v =
      elim (Bool-cases (ltb s.data_received_seqnum_position end_seqnum)) [
        | inl missing ↦
            rw (missing, apply_cuts) (v, subst (Stopped s) (sym e) (ltb→lt _ _ missing), refl)
        | inr there ↦
            let c : CutsFrom s.indexed_seqnum_position ((m, end_seqnum) ∷ rest) =
              subst (CutsFrom s.indexed_seqnum_position) e v.cuts in
            let (w, same) = apply_cut-IsIndexed m end_seqnum rest s v c.0 (ground arith) c.1 in
            let (w', stop, same') =
              apply_cuts-IsIndexed rest (apply_cut logspace_id m end_seqnum rest s) refl w in
            rw (there, apply_cuts) (w', stop, same' ∙ same)
      ]

-- Where the positions of the index are after some cuts: the end of the last of them, and one past its
-- meta log.
abbrev pub seqnum_after : ℕ → List (ℕ × ℕ) → ℕ
seqnum_after lo [] = lo
seqnum_after lo ((m, end_seqnum) ∷ rest) = seqnum_after end_seqnum rest

abbrev pub metalog_after : ℕ → List (ℕ × ℕ) → ℕ
metalog_after lo [] = lo
metalog_after lo ((m, end_seqnum) ∷ rest) = metalog_after ((m + 1) % 2 ^ 32) rest

-- The cuts before `left` have been applied, and have moved the positions.
pub record IsApplied (s : Index) (cuts : List (ℕ × ℕ)) (s' : Index) : Type 0 where
  pub done : List (ℕ × ℕ)
  pub split : cuts ≡ done ++ s'.cuts
  pub seqnum : s'.indexed_seqnum_position ≡ seqnum_after s.indexed_seqnum_position done
  pub metalog : s'.indexed_metalog_position ≡ metalog_after s.indexed_metalog_position done

module _ (logspace_id : ℕ) where
  pub apply_cuts-IsApplied :
      (cuts : List (ℕ × ℕ)) (s : Index)
      → s.cuts ≡ cuts
      → IsApplied s cuts (apply_cuts logspace_id cuts s)
  unfolding apply_cuts
  apply_cuts-IsApplied [] s e = record { done = []; split = sym e; seqnum = refl; metalog = refl }
  apply_cuts-IsApplied ((m, end_seqnum) ∷ rest) s e =
      elim (Bool-cases (ltb s.data_received_seqnum_position end_seqnum)) [
        | inl missing ↦
            rw (missing, apply_cuts)
              (record { done = []; split = sym e; seqnum = refl; metalog = refl })
        | inr there ↦
            let w = apply_cuts-IsApplied rest (apply_cut logspace_id m end_seqnum rest s) refl in
            rw (there, apply_cuts)
              (record {
                done = (m, end_seqnum) ∷ w.done;
                split = ap (◌∷◌ (m, end_seqnum)) w.split;
                seqnum = w.seqnum;
                metalog = w.metalog;
              })
      ]
