-- ===== src/TagCache/Add.antt =====
-- `TagEntry::Add` of src/log/index_local_tag_cache.cpp keeps what the cache of a tag promises.
use ixe.Prelude.{
  ℕ, zero, suc, ◌+◌, ◌^◌, ◌≤◌, ◌<◌, ◌≡◌, ◌↔◌, inl, inr, refl, sym, ap, subst, true, false, none,
  some, [], ◌∷◌, get_elem?, length, ltb, ◌==◌, Bool-cases, ltb→lt, arith,
}
use ixe.Prelude.Maps.{find?, insert}
use ixe.Bits.{join_two32, join_two16}
use ixe.TagCache.Entry.{
  TagSuffixLink, TagSuffix, TagEntry, new_link, extend_link, new_tag_entry, add_number,
}
use ixe.TagCache.Held.{Held, IsLink, IsSuffix, Below, seqnum_value}
use ixe.TagCache.Ends.{InLink-range, link_get_tail_lem, suffix_head_lem}
use ixe.TagCache.Cached.{IsCached}
use ixe.TagCache.Extend.{OrNew, InLink-extend_link, extend_link-IsLink}

module _ (space v k s : ℕ) (in_range : space < 2 ^ 16) (v_range : v < 2 ^ 16)
    (k_range : k < 2 ^ 32) where
  -- The number of the new record.
  abbrev number : ℕ
  number = join_two32 (join_two16 v space) k

  -- The suffix after `Add`.
  abbrev added : TagSuffix → TagSuffix
  added suffix =
      insert v (elim (find? v suffix) [ none ↦ new_link k s | some link ↦ extend_link k s link ])
        suffix

  -- Where a greater view than that of the new record has numbers, the new one is not the greatest.
  no_later :
      (w : ℕ) (link : TagSuffixLink) (rest : TagSuffix)
      → v < w
      → w < 2 ^ 16
      → IsLink link
      → Below (Held space ((w, link) ∷ rest)) number
      → ⊥
  no_later w link rest h wr l below =
      let (n, t, run, held, most) = link_get_tail_lem space in_range w link wr l in
      omega (
        arith,
        below n t (inl held),
        InLink-range space in_range w n t link wr l held,
        seqnum_value v space k v_range in_range k_range,
      )

  -- What `Add` does to a suffix whose numbers are not above the new one.
  abbrev IsAdded : ℕ → TagSuffix → TagSuffix → Type 0
  IsAdded lo suffix suffix' =
      IsSuffix lo suffix'
      × (0 < length suffix')
      × ((m t : ℕ) → Held space suffix' m t ↔ OrNew (Held space suffix) number s m t)

  abbrev Adds : ℕ → TagSuffix → Type 0
  Adds lo suffix =
      IsSuffix lo suffix → Below (Held space suffix) number → IsAdded lo suffix (added suffix)

  added_later :
      (w : ℕ) (link : TagSuffixLink) (rest : TagSuffix)
      → w < v
      → added ((w, link) ∷ rest) ≡ (w, link) ∷ added rest
  unfolding find? insert
  added_later w link rest h = ground arith

  added_nil : (lo : ℕ) → lo ≤ v → Adds lo []
  unfolding find? insert
  added_nil lo h x below = (
    (h, v_range, ((omega arith, k_range, tt), omega arith, refl), tt),
    omega arith,
    λ m t. (
      λ held. elim held [
        | inl (i, j, e, f, q) ↦ inl (first i j e f q)
        | inr none_there ↦ elim none_there [ ]
      ],
      λ o. elim o [ inl (e, f) ↦ inl (0, k, refl, ap some (sym f), e) | inr old ↦ elim old [ ] ],
    ),
  )
    where
      first :
          {m t : ℕ} (i j : ℕ)
          → get_elem? (k ∷ []) i ≡ some j
          → get_elem? (s ∷ []) i ≡ some t
          → m ≡ join_two32 (join_two16 v space) j
          → (m ≡ number) × (t ≡ s)
      first zero j e f q = (cc, cc)
      first (suc i) j e f q = cc

  added_at_view :
      (lo : ℕ) (link : TagSuffixLink) (rest : TagSuffix) → lo ≤ v → Adds lo ((v, link) ∷ rest)
  unfolding find? insert
  added_at_view lo link rest h x below =
      let same : (v == v) ≡ true = ground arith in
      let late : ltb v v ≡ false = ground arith in
      rw (late, same)
        (
          (
            h,
            v_range,
            extend_link-IsLink space v k s in_range v_range k_range link x.2
                (λ m t held. below m t (inl held)),
            x.3,
          ),
          omega arith,
          λ m t. (
            λ held. elim held [
              | inl here ↦ elim ((InLink-extend_link space v k s m t link x.2.2).0 here) [
                | inl new ↦ inl new
                | inr old ↦ inr (inl old)
              ]
              | inr later ↦ inr (inr later)
            ],
            λ o. elim o [
              | inl new ↦ inl ((InLink-extend_link space v k s m t link x.2.2).1 (inl new))
              | inr (inl old) ↦ inl ((InLink-extend_link space v k s m t link x.2.2).1 (inr old))
              | inr (inr later) ↦ inr later
            ],
          ),
        )

  added_lem : (lo : ℕ) (suffix : TagSuffix) → lo ≤ v → Adds lo suffix
  unfolding find? insert
  added_lem lo [] h x below = added_nil lo h x below
  added_lem lo ((w, link) ∷ rest) h x below = elim (Bool-cases (ltb v w)) [
    | inl later ↦ absurd (no_later w link rest (ltb→lt v w later) x.1 x.2 below)
    | inr not_later ↦ elim (Bool-cases (w == v)) [
      | inl here ↦
          let e : w ≡ v = ground arith in
          subst (λ u. Adds lo ((u, link) ∷ rest)) (sym e) (added_at_view lo link rest h) x below
      | inr earlier ↦
          let (suffix, some_link, held) =
            added_lem (w + 1) rest (ground arith) x.3 (λ m t there. below m t (inr there)) in
          subst (IsAdded lo ((w, link) ∷ rest)) (sym (added_later w link rest (ground arith))) (
            (x.0, x.1, x.2, suffix),
            omega arith,
            λ m t. (
              λ there. elim there [
                | inl here ↦ inr (inl here)
                | inr later ↦ elim ((held m t).0 later) [
                  | inl new ↦ inl new
                  | inr old ↦ inr (inr old)
                ]
              ],
              λ o. elim o [
                | inl new ↦ inr ((held m t).1 (inl new))
                | inr (inl here) ↦ inl here
                | inr (inr later) ↦ inr ((held m t).1 (inr later))
              ],
            ),
          )
    ]
  ]

  -- A record whose number is past those of all records of the tag, added to the cache of the tag: the
  -- cache keeps its promises, now with that record among those of the tag.
  pub add_number-IsCached :
      (popularity : ℕ) (log : ℕ → ℕ → Type 0) (e : TagEntry)
      → IsCached space log e
      → Below log (join_two32 (join_two16 v space) k)
      → IsCached space
          (OrNew log (join_two32 (join_two16 v space) k) s)
          (add_number v k s popularity e)
  unfolding add_number
  add_number-IsCached popularity log e c below =
      let (suffix, some_link, held) =
        added_lem 0 e.tag_suffix (omega arith) c.suffix
          (λ m t there. below m t (c.sound m t there)) in
      record {
        suffix = suffix;
        not_empty = some_link;
        sound = λ m t there. elim ((held m t).0 there) [
          | inl new ↦ inl new
          | inr old ↦ inr (c.sound m t old)
        ];
        newest = λ m t n u there le o. elim o [
          | inl new ↦ (held n u).1 (inl new)
          | inr in_log ↦ elim ((held m t).0 there) [
            | inl at_new ↦
                let (h, hs, run, first, above) =
                  suffix_head_lem space in_range 0 e.tag_suffix c.suffix c.not_empty in
                (held n u).1 (
                  inr (
                    c.newest h hs n u first
                      (omega (arith, at_new.0, below h hs (c.sound h hs first))) in_log))
            | inr old ↦ (held n u).1 (inr (c.newest m t n u old le in_log))
          ]
        ];
        all = λ complete n u o. elim o [
          | inl new ↦ (held n u).1 (inl new)
          | inr in_log ↦ (held n u).1 (inr (c.all complete n u in_log))
        ];
        least = λ valid.
            let (in_log, first) = c.least valid in
            (
              inr in_log,
              λ m t o. elim o [
                | inl new ↦ omega (arith, new.0, below e.seqnum_min e.shard_id_min in_log)
                | inr old ↦ first m t old
              ],
            );
      }

  -- The first record of a tag that the cache sees: the cache of the tag keeps the newest record.
  pub new_tag_entry-IsCached :
      (popularity : ℕ) (log : ℕ → ℕ → Type 0)
      → ((m t : ℕ) → log m t → m < join_two32 (join_two16 v space) k)
      → IsCached space
          (OrNew log (join_two32 (join_two16 v space) k) s)
          (new_tag_entry v k s popularity)
  unfolding new_tag_entry insert find?
  new_tag_entry-IsCached popularity log below =
      let (suffix, some_link, held) = added_nil 0 (omega arith) tt (λ m t there. elim there [ ]) in
      record {
        suffix = suffix;
        not_empty = some_link;
        sound =
            λ m t there. elim ((held m t).0 there) [ inl new ↦ inl new | inr old ↦ elim old [ ] ];
        newest = λ m t n u there le o. elim o [
          | inl new ↦ (held n u).1 (inl new)
          | inr in_log ↦ elim ((held m t).0 there) [
            | inl new ↦ absurd (omega (arith, new.0, below n u in_log))
            | inr old ↦ elim old [ ]
          ]
        ];
        all = λ complete n u o. cc;
        least = λ valid. absurd (valid refl);
      }
