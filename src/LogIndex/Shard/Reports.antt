-- ===== src/LogIndex/Shard/Reports.antt =====
-- When an `IndexShard` (src/log/index_shard.cpp) has the data of all storage shards that a meta log
-- gave new records.
use ixe.Prelude.{
  ℕ, ◌+◌, ◌%◌, ◌^◌, ◌<◌, ◌≡◌, refl, sym, ap, subst, ◌∙◌, Bool, false, ◌&&◌, ◌||◌, not, none, some,
  List, [], ◌∷◌, elem, length, arith, leb, ◌==◌, if◌then◌else◌, inl, inr, ok, Bool-cases,
}
use ixe.Prelude.Maps.{find?, put, find?-put}
use ixe.LogSpace.Storage.{IndexDataProto}
use ixe.LogIndex.{Index}
use ixe.LogIndex.Shard.{
  IndexShard, insert_shards, check_if_new_index_data, completed, try_complete_index_updates,
}

-- Whether a shard is among the 16-bit numbers that a package names.
unfoldable pub names : ℕ → List ℕ → Bool
names k [] = false
names k (x ∷ xs) = x % 2 ^ 16 == k || names k xs

unfoldable pub reported : ℕ → List IndexDataProto → Bool
reported k [] = false
reported k (p ∷ ps) = names k p.my_productive_storage_shards || reported k ps

abbrev pub Distinct : List ℕ → Type 0
Distinct [] = Unit {0}
Distinct (x ∷ xs) = (elem x xs ≡ false) × Distinct xs

-- The packages come one after the other.
unfoldable pub check_all : List IndexDataProto → IndexShard → IndexShard
check_all [] s = s
check_all (p ∷ ps) s = check_all ps (check_if_new_index_data p s).0

insert_shards_lem :
    (ks set : List ℕ)
    → Distinct set
    → Distinct (insert_shards ks set)
      × ((k : ℕ) → elem k (insert_shards ks set) ≡ (elem k set || names k ks))
unfolding insert_shards elem names
insert_shards_lem [] set d = (d, λ k. ground arith)
insert_shards_lem (x ∷ ks) set d = elim (Bool-cases (elem (x % 2 ^ 16) set)) [
  | inl old ↦
      let (d', holds) = insert_shards_lem ks set d in
      rw (old, insert_shards)
        (d', λ k. ground (arith, holds k, old, ap (λ i. elem i set) {x = x % 2 ^ 16} {y = k}))
  | inr new ↦
      let (d', holds) = insert_shards_lem ks (x % 2 ^ 16 ∷ set) (new, d) in
      rw (new, insert_shards) (d', λ k. ground (arith, holds k))
]

module _ (position count : ℕ) where
  -- A package for the meta log at this position.
  abbrev pub IsReport : IndexDataProto → Type 0
  IsReport p = (p.metalog_position ≡ position) × (p.num_productive_storage_shards ≡ count)

  abbrev pub AllReports : List IndexDataProto → Type 0
  AllReports [] = Unit {0}
  AllReports (p ∷ ps) = IsReport p × AllReports ps

  -- The update at this position has the shards of `set`, and `end_seqnum` is where its records end.
  pub record HasUpdate (set : List ℕ) (end_seqnum : ℕ) (s : IndexShard) : Type 0 where
    pub shards : find? position s.storage_shards_index_updates ≡ some (count, set)
    pub ends : find? position s.end_seqnum_positions ≡ some end_seqnum
    pub distinct : Distinct set

  first_report :
      (p : IndexDataProto) (s : IndexShard)
      → IsReport p
      → s.base.indexed_metalog_position < position
      → find? position s.storage_shards_index_updates ≡ none
      → let s' = (check_if_new_index_data p s).0 in
        HasUpdate (insert_shards p.my_productive_storage_shards []) p.end_seqnum_position s'
        × (s'.base ≡ s.base)
  unfolding check_if_new_index_data
  first_report p s r h absent =
      let set = insert_shards p.my_productive_storage_shards [] in
      let late : leb position s.base.indexed_metalog_position ≡ false = ground (arith, h) in
      let s' : IndexShard = record s {
        storage_shards_index_updates = put position (count, set) s.storage_shards_index_updates;
        end_seqnum_positions = put position p.end_seqnum_position s.end_seqnum_positions;
      } in
      let e : (check_if_new_index_data p s).0 ≡ s' =
        simp (check_if_new_index_data, r.0, r.1, late, absent) in
      subst (λ x. HasUpdate set p.end_seqnum_position x × (x.base ≡ s.base)) (sym e)
        (
          record {
            shards =
                find?-put position position (count, set) s.storage_shards_index_updates
                ∙ ground arith;
            ends =
                find?-put position position p.end_seqnum_position s.end_seqnum_positions
                ∙ ground arith;
            distinct = (insert_shards_lem p.my_productive_storage_shards [] tt).0;
          },
          refl,
        )

  next_report :
      (p : IndexDataProto) (set : List ℕ) (end_seqnum : ℕ) (s : IndexShard)
      → IsReport p
      → s.base.indexed_metalog_position < position
      → HasUpdate set end_seqnum s
      → let s' = (check_if_new_index_data p s).0 in
        HasUpdate (insert_shards p.my_productive_storage_shards set) end_seqnum s'
        × (s'.base ≡ s.base)
  unfolding check_if_new_index_data
  next_report p set end_seqnum s r h u =
      let set' = insert_shards p.my_productive_storage_shards set in
      let late : leb position s.base.indexed_metalog_position ≡ false = ground (arith, h) in
      let s' : IndexShard = record s {
        storage_shards_index_updates = put position (count, set') s.storage_shards_index_updates;
      } in
      let e : (check_if_new_index_data p s).0 ≡ s' =
        simp (check_if_new_index_data, r.0, late, u.shards) in
      subst (λ x. HasUpdate set' end_seqnum x × (x.base ≡ s.base)) (sym e)
        (
          record {
            shards =
                find?-put position position (count, set') s.storage_shards_index_updates
                ∙ ground arith;
            ends = u.ends;
            distinct = (insert_shards_lem p.my_productive_storage_shards set u.distinct).0;
          },
          refl,
        )

  -- What the packages `ps` make of an update that has the shards of `set`.
  abbrev pub HasAll : List ℕ → List IndexDataProto → ℕ → IndexShard → IndexShard → Type 0
  HasAll set ps end_seqnum s s' =
      (all : List ℕ) × HasUpdate all end_seqnum s'
      × ((k : ℕ) → elem k all ≡ (elem k set || reported k ps))
      × (s'.base ≡ s.base)

  check_all-HasAll :
      (ps : List IndexDataProto) (set : List ℕ) (end_seqnum : ℕ) (s : IndexShard)
      → AllReports ps
      → s.base.indexed_metalog_position < position
      → HasUpdate set end_seqnum s
      → HasAll set ps end_seqnum s (check_all ps s)
  unfolding check_all reported
  check_all-HasAll [] set end_seqnum s r h u = (set, u, λ k. ground arith, refl)
  check_all-HasAll (p ∷ ps) set end_seqnum s r h u =
      let shards = p.my_productive_storage_shards in
      let (u₁, same) = next_report p set end_seqnum s r.0 h u in
      let s₁ = (check_if_new_index_data p s).0 in
      let (all, u₂, holds, same') =
        check_all-HasAll ps (insert_shards shards set) end_seqnum s₁ r.1
          (subst (λ (i : Index). i.indexed_metalog_position < position) (sym same) h) u₁ in
      (
        all,
        u₂,
        λ k. ground (arith, holds k, (insert_shards_lem shards set u.distinct).1 k),
        same' ∙ same,
      )

  complete_at :
      (all : List ℕ) (end_seqnum : ℕ) (s : IndexShard)
      → HasUpdate all end_seqnum s
      → (s.base.indexed_metalog_position + 1) % 2 ^ 32 ≡ position
      → try_complete_index_updates s ≡ (
          if not (count == 0) && count == length all
          then ok (completed position s, some end_seqnum)
          else ok (s, none))
  unfolding try_complete_index_updates
  complete_at all end_seqnum s u e = simp (try_complete_index_updates, e, u.shards, u.ends)

  -- The packages for the next meta log, in any order and with repetitions: the update has exactly the
  -- shards that one of them names, each once. It is complete when these are as many as the meta log has
  -- productive shards; then the position moves past the meta logs of all index shards and the update is
  -- taken away, and otherwise nothing changes.
  pub try_complete_lem :
      (p : IndexDataProto) (ps : List IndexDataProto) (s : IndexShard)
      → AllReports (p ∷ ps)
      → position ≡ (s.base.indexed_metalog_position + 1) % 2 ^ 32
      → s.base.indexed_metalog_position < position
      → find? position s.storage_shards_index_updates ≡ none
      → let s' = check_all (p ∷ ps) s in
        (all : List ℕ) × Distinct all
        × ((k : ℕ) → elem k all ≡ reported k (p ∷ ps))
        × (try_complete_index_updates s' ≡ (
            if not (count == 0) && count == length all
            then ok (completed position s', some p.end_seqnum_position)
            else ok (s', none)))
  unfolding check_all reported elem
  try_complete_lem p ps s r e h absent =
      let shards = p.my_productive_storage_shards in
      let (u, same) = first_report p s r.0 h absent in
      let s₁ = (check_if_new_index_data p s).0 in
      let (all, u₂, holds, same') =
        check_all-HasAll ps (insert_shards shards []) p.end_seqnum_position s₁ r.1
          (subst (λ (i : Index). i.indexed_metalog_position < position) (sym same) h) u in
      (
        all,
        u₂.distinct,
        λ k. ground (arith, holds k, (insert_shards_lem shards [] tt).1 k),
        complete_at all p.end_seqnum_position (check_all ps s₁) u₂
            (ap (λ (i : Index). (i.indexed_metalog_position + 1) % 2 ^ 32) (same' ∙ same) ∙ sym e),
      )
