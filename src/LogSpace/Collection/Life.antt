-- ===== src/LogSpace/Collection/Life.antt =====
-- What the operations of `LogSpaceCollection` (src/log/log_space_base.h) keep, and whom its loops
-- visit.
use ixe.Prelude.{
  ℕ, ◌^◌, ◌<◌, ◌≡◌, refl, ap, ◌∙◌, true, false, ◌||◌, ◌&&◌, none, some, List, [], ◌∷◌, elem, arith,
  ◌==◌, ok, inl, inr, Bool-cases,
}
use ixe.Prelude.Maps.{
  find?, put, erase, contains, find?-put, find?-erase, contains-put, contains-erase, contains-find?,
}
use ixe.Bits.{high_half32}
use ixe.LogSpace.Collection.Sets.{
  IsSorted, elem-set_add, set_add-IsSorted, elem-set_remove, set_remove-IsSorted, elem-IsSorted,
  elem-of_view,
}
use ixe.LogSpace.Collection.{
  Collection, set_add, set_remove, install_log_space, finalize_log_space, remove_log_space, visit,
  get_log_space, of_view, for_each_active_log_space_of,
}

-- The active and the finalized log spaces are apart, in order, and all there.
pub record IsConsistent {ℓ} {V : Type ℓ} (c : Collection V) : Type 0 where
  pub active : IsSorted 0 c.active_log_spaces
  pub finalized : IsSorted 0 c.finalized_log_spaces
  pub apart : (k : ℕ) → elem k c.active_log_spaces ≡ true → elem k c.finalized_log_spaces ≡ false
  pub there :
      (k : ℕ)
      → (elem k c.active_log_spaces || elem k c.finalized_log_spaces) ≡ true
      → contains k c.log_spaces ≡ true

module _ {ℓ} {V : Type ℓ} where
  finalize_log_space-IsConsistent :
      (k : ℕ) (c : Collection V) → IsConsistent c → IsConsistent (finalize_log_space k c).0
  unfolding finalize_log_space
  finalize_log_space-IsConsistent k c v = elim (Bool-cases (elem k c.active_log_spaces)) [
    | inr absent ↦ rw absent v
    | inl present ↦ rw present (record {
      active = set_remove-IsSorted 0 k c.active_log_spaces v.active;
      finalized =
          set_add-IsSorted 0 k c.finalized_log_spaces (omega arith)
            (elem-IsSorted 0 k c.active_log_spaces v.active present).1 v.finalized;
      apart = λ j h. ground (
        arith,
        elem-set_remove 0 k j c.active_log_spaces v.active,
        elem-set_add k j c.finalized_log_spaces,
        v.apart j,
      );
      there = λ j h. ground (
        arith,
        elem-set_remove 0 k j c.active_log_spaces v.active,
        elem-set_add k j c.finalized_log_spaces,
        v.there j,
        v.there k,
        ap (λ (i : ℕ). contains i c.log_spaces) {x = k} {y = j},
      );
    })
  ]

  remove_log_space-IsConsistent :
      (k : ℕ) (c : Collection V) → IsConsistent c → IsConsistent (remove_log_space k c).0
  unfolding remove_log_space
  remove_log_space-IsConsistent k c v = elim (Bool-cases (elem k c.finalized_log_spaces)) [
    | inr absent ↦ rw absent v
    | inl present ↦ rw present (record {
      active = v.active;
      finalized = set_remove-IsSorted 0 k c.finalized_log_spaces v.finalized;
      apart = λ j h.
          ground (arith, elem-set_remove 0 k j c.finalized_log_spaces v.finalized, v.apart j);
      there = λ j h. ground (
        arith,
        elem-set_remove 0 k j c.finalized_log_spaces v.finalized,
        contains-erase k j c.log_spaces,
        v.there j,
        v.apart j,
        ap (λ (i : ℕ). elem i c.finalized_log_spaces) {x = k} {y = j},
      );
    })
  ]

  install_log_space-IsConsistent :
      (k : ℕ) (s : V) (c : Collection V)
      → k < 2 ^ 32
      → elem k c.finalized_log_spaces ≡ false
      → IsConsistent c
      → IsConsistent (install_log_space k s c)
  unfolding install_log_space
  install_log_space-IsConsistent k s c b fresh v = record {
    active = set_add-IsSorted 0 k c.active_log_spaces (omega arith) b v.active;
    finalized = v.finalized;
    apart = λ j h. ground (
      arith,
      fresh,
      elem-set_add k j c.active_log_spaces,
      v.apart j,
      ap (λ (i : ℕ). elem i c.finalized_log_spaces) {x = k} {y = j},
    );
    there = λ j h.
        ground
          (arith, elem-set_add k j c.active_log_spaces, contains-put k j s c.log_spaces, v.there j);
  }

  visit_lem :
      (ks : List ℕ) (c : Collection V)
      → ((k : ℕ) → elem k ks ≡ true → contains k c.log_spaces ≡ true)
      → (r : List (ℕ × V)) × (visit ks c ≡ ok r)
        × ((k : ℕ) → contains k r ≡ elem k ks)
        × ((k : ℕ) (s : V) → find? k r ≡ some s → find? k c.log_spaces ≡ some s)
  unfolding visit elem contains find?
  visit_lem [] c h = ([], refl, λ k. refl, λ k s e. cc)
  visit_lem (k ∷ ks) c h =
      let (s, e) = contains-find? k c.log_spaces (h k (ground arith)) in
      let (r, f, same, from) = visit_lem ks c (λ j p. h j (ground arith)) in
      (
        (k, s) ∷ r,
        rw (e, f) refl,
        λ j. ground (arith, same j),
        λ j t p. ground (arith, from j t, e, ap (λ (i : ℕ). find? i c.log_spaces) {x = k} {y = j}),
      )

  -- The loop over the active log spaces of a view runs, and calls back with each active log space of
  -- that view and with no other.
  pub for_each_active_log_space_of_lem :
      (view_id : ℕ) (c : Collection V)
      → view_id < 2 ^ 16
      → IsConsistent c
      → (r : List (ℕ × V)) × (for_each_active_log_space_of view_id c ≡ ok r)
        × ((k : ℕ) → contains k r ≡ (high_half32 k == view_id && elem k c.active_log_spaces))
        × ((k : ℕ) (s : V) → find? k r ≡ some s → get_log_space k c ≡ some s)
  unfolding for_each_active_log_space_of get_log_space
  for_each_active_log_space_of_lem view_id c b v =
      let ks = of_view view_id c.active_log_spaces in
      let of = λ (k : ℕ). elem-of_view view_id 0 k c.active_log_spaces b v.active in
      let (r, e, same, from) = visit_lem ks c (λ k h. ground (arith, of k, v.there k)) in
      (r, e, λ k. same k ∙ of k, from)

  abbrev finalized_now : ℕ → Collection V → Collection V
  finalized_now k c = record c {
    active_log_spaces = set_remove k c.active_log_spaces;
    finalized_log_spaces = set_add k c.finalized_log_spaces;
  }

  abbrev removed_now : ℕ → Collection V → Collection V
  removed_now k c = record c {
    finalized_log_spaces = set_remove k c.finalized_log_spaces;
    log_spaces = erase k c.log_spaces;
  }

  finalize_active :
      (k : ℕ) (c : Collection V)
      → elem k c.active_log_spaces ≡ true
      → finalize_log_space k c ≡ (finalized_now k c, true)
  unfolding finalize_log_space
  finalize_active k c h = rw h refl

  remove_finalized :
      (k : ℕ) (c : Collection V)
      → elem k c.finalized_log_spaces ≡ true
      → remove_log_space k c ≡ (removed_now k c, true)
  unfolding remove_log_space
  remove_finalized k c h = rw h refl

  find?-none : (k : ℕ) (m : List (ℕ × V)) → contains k m ≡ false → find? k m ≡ none
  unfolding find? contains
  find?-none k [] h = refl
  find?-none k ((j, s) ∷ m) h = ground (arith, find?-none k m)

  -- The three sets after an installation, a finalization and a removal of the same identifier.
  same_after :
      (k : ℕ) (s : V) (c : Collection V)
      → k < 2 ^ 32
      → IsConsistent c
      → elem k c.active_log_spaces ≡ false
      → elem k c.finalized_log_spaces ≡ false
      → contains k c.log_spaces ≡ false
      → (j : ℕ)
      → let r = removed_now k (finalized_now k (install_log_space k s c)) in
        (find? j r.log_spaces ≡ find? j c.log_spaces)
        × (elem j r.active_log_spaces ≡ elem j c.active_log_spaces)
        × (elem j r.finalized_log_spaces ≡ elem j c.finalized_log_spaces)
  unfolding install_log_space
  same_after k s c b v idle open_ none_yet j = (
    ground (
      arith,
      find?-erase k j (put k s c.log_spaces),
      find?-put k j s c.log_spaces,
      find?-none k c.log_spaces none_yet,
      ap (λ (i : ℕ). find? i c.log_spaces) {x = k} {y = j},
    ),
    ground (
      arith,
      idle,
      elem-set_remove 0 k j (set_add k c.active_log_spaces)
          (set_add-IsSorted 0 k c.active_log_spaces (omega arith) b v.active),
      elem-set_add k j c.active_log_spaces,
      ap (λ (i : ℕ). elem i c.active_log_spaces) {x = k} {y = j},
    ),
    ground (
      arith,
      open_,
      elem-set_remove 0 k j (set_add k c.finalized_log_spaces)
          (set_add-IsSorted 0 k c.finalized_log_spaces (omega arith) b v.finalized),
      elem-set_add k j c.finalized_log_spaces,
      ap (λ (i : ℕ). elem i c.finalized_log_spaces) {x = k} {y = j},
    ),
  )

  -- A log space with a new identifier that is installed, then finalized, then removed: both answers
  -- are `true`, and the collection holds what it held before.
  pub lifecycle_lem :
      (k : ℕ) (s : V) (c : Collection V)
      → k < 2 ^ 32
      → IsConsistent c
      → elem k c.active_log_spaces ≡ false
      → elem k c.finalized_log_spaces ≡ false
      → contains k c.log_spaces ≡ false
      → let c₁ = install_log_space k s c in
        let c₂ = finalize_log_space k c₁ in
        let c₃ = remove_log_space k c₂.0 in
        (get_log_space k c₁ ≡ some s)
        × (c₂.1 ≡ true)
        × (c₃.1 ≡ true)
        × IsConsistent c₃.0
        × ((j : ℕ)
            → (get_log_space j c₃.0 ≡ get_log_space j c)
              × (elem j c₃.0.active_log_spaces ≡ elem j c.active_log_spaces)
              × (elem j c₃.0.finalized_log_spaces ≡ elem j c.finalized_log_spaces))
  unfolding get_log_space install_log_space
  lifecycle_lem k s c b v idle open_ none_yet =
      let c₁ = install_log_space k s c in
      let v₁ = install_log_space-IsConsistent k s c b open_ v in
      let v₂ = finalize_log_space-IsConsistent k c₁ v₁ in
      let e₂ = finalize_active k c₁ (ground (arith, elem-set_add k k c.active_log_spaces)) in
      let e₃ =
        ap (λ x. remove_log_space k x.0) e₂
        ∙ remove_finalized k (finalized_now k c₁)
            (ground (arith, elem-set_add k k c.finalized_log_spaces)) in
      let same = same_after k s c b v idle open_ none_yet in
      (
        ground (arith, find?-put k k s c.log_spaces),
        ap (λ x. x.1) e₂,
        ap (λ x. x.1) e₃,
        remove_log_space-IsConsistent k (finalize_log_space k c₁).0 v₂,
        λ j. (
          ap (λ x. find? j x.0.log_spaces) e₃ ∙ (same j).0,
          ap (λ x. elem j x.0.active_log_spaces) e₃ ∙ (same j).1,
          ap (λ x. elem j x.0.finalized_log_spaces) e₃ ∙ (same j).2,
        ),
      )
