-- ===== src/TagCache/Ends.antt =====
-- `GetSuffixHead` and `GetSuffixTail` of src/log/index_local_tag_cache.cpp find the least and the
-- greatest number that a tag's suffix holds.
use ixe.Prelude.{
  get_elem?-total, get_elem?-lt, ℕ, ◌+◌, ◌-◌, ◌*◌, ◌^◌, ◌≤◌, ◌<◌, ◌≡◌, inl, inr, refl, sym, ap, ◌∙◌,
  [], ◌∷◌, get_elem?, some, length, ok, arith,
}
use ixe.Bits.{join_two32, join_two16}
use ixe.TagCache.Entry.{
  TagSuffixLink, TagSuffix, number_at, link_get_head, link_get_tail, suffix_head, suffix_tail,
}
use ixe.TagCache.Held.{
  InLink, Held, IsLink, IsSuffix, Above, Below, Sorted-range, Sorted-mono, seqnum_value,
}

module _ (space : ℕ) (in_range : space < 2 ^ 16) where
  -- The numbers of a link lie in the range of its view.
  pub InLink-range :
      (v n s : ℕ) (link : TagSuffixLink)
      → v < 2 ^ 16
      → IsLink link
      → InLink (join_two16 v space) link n s
      → (((space + v * 2 ^ 16) * 2 ^ 32 ≤ n) × (n < (space + v * 2 ^ 16 + 1) * 2 ^ 32))
  InLink-range v n s link a l (i, k, e, f, h) =
      let r = Sorted-range 0 link.seqnums i k l.0 e in
      omega (arith, h, seqnum_value v space k a in_range r.1, r.1)

  pub Held-range :
      (lo n s : ℕ) (suffix : TagSuffix)
      → IsSuffix lo suffix
      → Held space suffix n s
      → (space + lo * 2 ^ 16) * 2 ^ 32 ≤ n
  Held-range lo n s [] v h = elim h [ ]
  Held-range lo n s ((w, link) ∷ rest) v (inl h) =
      omega (arith, v.0, InLink-range w n s link v.1 v.2 h)
  Held-range lo n s ((w, link) ∷ rest) v (inr h) =
      omega (arith, v.0, Held-range (w + 1) n s rest v.3 h)

  -- The number at an index of a link, and how it compares with those at other indexes.
  pub number_at_lem :
      (v i : ℕ) (link : TagSuffixLink)
      → v < 2 ^ 16
      → IsLink link
      → i < length link.seqnums
      → (k : ℕ) × (s : ℕ) × (get_elem? link.seqnums i ≡ some k)
        × (number_at (join_two16 v space) link i ≡ ok (join_two32 (join_two16 v space) k, s))
        × InLink (join_two16 v space) link (join_two32 (join_two16 v space) k) s
  unfolding number_at
  number_at_lem v i link a l h =
      let (k, e) = get_elem?-total link.seqnums i h in
      let (s, f) = get_elem?-total link.storage_shard_ids i (omega (arith, l.2)) in
      (k, s, e, rw (e, f) refl, (i, k, e, f, refl))

  -- A number at an index not before that of another is not below it.
  pub InLink-le :
      (v i j k l : ℕ) (link : TagSuffixLink)
      → v < 2 ^ 16
      → IsLink link
      → get_elem? link.seqnums i ≡ some k
      → get_elem? link.seqnums j ≡ some l
      → i ≤ j
      → join_two32 (join_two16 v space) k ≤ join_two32 (join_two16 v space) l
  InLink-le v i j k l link a valid e f h =
      let r = Sorted-range 0 link.seqnums i k valid.0 e in
      let t = Sorted-range 0 link.seqnums j l valid.0 f in
      omega (
        arith,
        Sorted-mono 0 link.seqnums i j k l valid.0 e f h,
        seqnum_value v space k a in_range r.1,
        seqnum_value v space l a in_range t.1,
      )

  pub link_get_head_lem :
      (v : ℕ) (link : TagSuffixLink)
      → v < 2 ^ 16
      → IsLink link
      → (n : ℕ) × (s : ℕ) × (link_get_head (join_two16 v space) link ≡ ok (n, s))
        × InLink (join_two16 v space) link n s
        × Above (InLink (join_two16 v space) link) n
  unfolding link_get_head
  link_get_head_lem v link a l =
      let (k, s, e, r, h) = number_at_lem v 0 link a l l.1 in
      (
        join_two32 (join_two16 v space) k,
        s,
        r,
        h,
        λ m t (j, i, f, g, q). rw q (InLink-le v 0 j k i link a l e f (omega arith)),
      )

  pub link_get_tail_lem :
      (v : ℕ) (link : TagSuffixLink)
      → v < 2 ^ 16
      → IsLink link
      → (n : ℕ) × (s : ℕ) × (link_get_tail (join_two16 v space) link ≡ ok (n, s))
        × InLink (join_two16 v space) link n s
        × Below (InLink (join_two16 v space) link) n
  unfolding link_get_tail
  link_get_tail_lem v link a l =
      let last = length link.seqnums - 1 in
      let (k, e) = get_elem?-total link.seqnums last (omega (arith, l.1)) in
      let (s, f) =
        get_elem?-total link.storage_shard_ids (length link.storage_shard_ids - 1)
          (omega (arith, l.1, l.2)) in
      (
        join_two32 (join_two16 v space) k,
        s,
        rw (e, f) refl,
        (last, k, e, ap (λ (n : ℕ). get_elem? link.storage_shard_ids (n - 1)) (sym l.2) ∙ f, refl),
        λ m t (j, i, g, p, q).
            rw q (
              InLink-le v j last i k link a l g e (omega (arith, get_elem?-lt link.seqnums j i g))),
      )

  -- The head is held, and no number that is held is below it.
  pub suffix_head_lem :
      (lo : ℕ) (suffix : TagSuffix)
      → IsSuffix lo suffix
      → 0 < length suffix
      → (n : ℕ) × (s : ℕ) × (suffix_head space suffix ≡ ok (n, s))
        × Held space suffix n s
        × Above (Held space suffix) n
  unfolding suffix_head
  suffix_head_lem lo [] v some_link = absurd (omega arith)
  suffix_head_lem lo ((w, link) ∷ rest) v some_link =
      let (n, s, e, h, least) = link_get_head_lem w link v.1 v.2 in
      (
        n,
        s,
        e,
        inl h,
        λ m t held. elim held [
          | inl here ↦ least m t here
          | inr later ↦
              omega
                (arith, InLink-range w n s link v.1 v.2 h, Held-range (w + 1) m t rest v.3 later)
        ],
      )

  -- The tail is held, and no number that is held is above it.
  pub suffix_tail_lem :
      (lo : ℕ) (suffix : TagSuffix)
      → IsSuffix lo suffix
      → 0 < length suffix
      → (n : ℕ) × (s : ℕ) × (suffix_tail space suffix ≡ ok (n, s))
        × Held space suffix n s
        × Below (Held space suffix) n
  unfolding suffix_tail
  suffix_tail_lem lo [] v some_link = absurd (omega arith)
  suffix_tail_lem lo ((w, link) ∷ []) v some_link =
      let (n, s, e, h, most) = link_get_tail_lem w link v.1 v.2 in
      (
        n,
        s,
        e,
        inl h,
        λ m t held. elim held [ inl here ↦ most m t here | inr later ↦ elim later [ ] ],
      )
  suffix_tail_lem lo ((w, link) ∷ k ∷ rest) v some_link =
      let (n, s, e, h, most) = suffix_tail_lem (w + 1) (k ∷ rest) v.3 (omega arith) in
      (
        n,
        s,
        e,
        inr h,
        λ m t held. elim held [
          | inl here ↦
              omega (
                arith,
                InLink-range w m t link v.1 v.2 here,
                Held-range (w + 1) n s (k ∷ rest) v.3 h,
              )
          | inr later ↦ most m t later
        ],
      )
