-- ===== src/TagCache/Extend.antt =====
-- Vectors with one element more, for `TagEntry::Add` of src/log/index_local_tag_cache.cpp.
use ixe.Prelude.{
  get_elem?-total, get_elem?-lt, get_elem?-append, get_elem?-append_old, get_elem?-append_new, ℕ,
  suc, ◌^◌, ◌≤◌, ◌<◌, ◌≡◌, ◌⊎◌, inl, inr, refl, sym, ap, ◌∙◌, ◌↔◌, length-append, some, List, [],
  ◌∷◌, ◌++◌, get_elem?, length, arith,
}
use ixe.Bits.{join_two32, join_two16}
use ixe.Index.Nearest.{Sorted}
use ixe.TagCache.Entry.{TagSuffixLink, extend_link}
use ixe.TagCache.Held.{InLink, IsLink, Below, Sorted-range, seqnum_value}

pub Sorted-append :
    (lo k : ℕ) (ks : List ℕ)
    → Sorted lo ks
    → lo ≤ k
    → k < 2 ^ 32
    → ((i j : ℕ) → get_elem? ks i ≡ some j → j ≤ k)
    → Sorted lo (ks ++ k ∷ [])
Sorted-append lo k [] s h r below = (h, r, tt)
Sorted-append lo k (j ∷ ks) s h r below =
    (s.0, s.1, Sorted-append j k ks s.2 (below 0 j refl) r (λ i. below (suc i)))

-- The record that is new, or one of those before.
abbrev pub OrNew : (ℕ → ℕ → Type 0) → ℕ → ℕ → ℕ → ℕ → Type 0
OrNew log n s m t = ((m ≡ n) × (t ≡ s)) ⊎ log m t

module _ (space v k s : ℕ) where
  pub InLink-extend_link :
      (m t : ℕ) (link : TagSuffixLink)
      → length link.storage_shard_ids ≡ length link.seqnums
      → InLink (join_two16 v space) (extend_link k s link) m t
        ↔ OrNew (InLink (join_two16 v space) link) (join_two32 (join_two16 v space) k) s m t
  InLink-extend_link m t link paired = (
    λ (i, j, e, f, h). elim (get_elem?-append link.seqnums k j i e) [
      | inl old ↦ elim (get_elem?-append link.storage_shard_ids s t i f) [
        | inl old_shard ↦ inr (i, j, old, old_shard, h)
        | inr new ↦ absurd (omega (arith, new.0, paired, get_elem?-lt link.seqnums i j old))
      ]
      | inr new ↦ elim (get_elem?-append link.storage_shard_ids s t i f) [
        | inl old_shard ↦
            absurd (omega (arith, new.0, paired, get_elem?-lt link.storage_shard_ids i t old_shard))
        | inr new_shard ↦
            inl (h ∙ ap (join_two32 (join_two16 v space)) (sym new.1), sym new_shard.1)
      ]
    ],
    λ o. elim o [
      | inl (e, f) ↦ (
        length link.seqnums,
        k,
        get_elem?-append_new link.seqnums k (length link.seqnums) refl,
        get_elem?-append_new link.storage_shard_ids s (length link.seqnums) (sym paired)
            ∙ ap some (sym f),
        e,
      )
      | inr (i, j, e, f, h) ↦ (
        i,
        j,
        get_elem?-append_old link.seqnums k j i e,
        get_elem?-append_old link.storage_shard_ids s t i f,
        h,
      )
    ],
  )

  module _ (in_range : space < 2 ^ 16) (v_range : v < 2 ^ 16) (k_range : k < 2 ^ 32) where
    pub extend_link-IsLink :
        (link : TagSuffixLink)
        → IsLink link
        → Below (InLink (join_two16 v space) link) (join_two32 (join_two16 v space) k)
        → IsLink (extend_link k s link)
    extend_link-IsLink link l below = (
      Sorted-append 0 k link.seqnums l.0 (omega arith) k_range (λ i j e.
          let r = Sorted-range 0 link.seqnums i j l.0 e in
          let (t, f) =
            get_elem?-total link.storage_shard_ids i
              (omega (arith, l.2, get_elem?-lt link.seqnums i j e)) in
          omega (
            arith,
            below (join_two32 (join_two16 v space) j) t (i, j, e, f, refl),
            seqnum_value v space j v_range in_range r.1,
            seqnum_value v space k v_range in_range k_range,
          )),
      omega (arith, length-append link.seqnums (k ∷ [])),
      omega (
        arith,
        l.2,
        length-append link.seqnums (k ∷ []),
        length-append link.storage_shard_ids (s ∷ []),
      ),
    )
