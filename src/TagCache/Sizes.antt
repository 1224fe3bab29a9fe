-- ===== src/TagCache/Sizes.antt =====
-- `TagCache::Evict` of src/log/index_local_tag_cache.cpp: what `cache_size_` counts, and where the loop
-- ends.
use ixe.Prelude.{
  ℕ, zero, suc, ◌+◌, ◌-◌, ◌%◌, ◌^◌, ◌≤◌, ◌<◌, ◌≡◌, ◌⊎◌, inl, inr, refl, List, [], ◌∷◌, length,
  get_elem?, get_elem?-lt, get_elem?-none, drop, length-drop, ltb, leb, Bool-cases, Option-cases,
  ok, fatal, arith,
}
use ixe.Prelude.Maps.{erase}
use ixe.TagCache.Entry.{TagEntry, num_seqnums_in_suffix, evict_entry}
use ixe.TagCache.Space.{PerSpaceTagCache, evict_tags, evict_space}
use ixe.TagCache.State.{TagCache}
use ixe.TagCache.Advance.{evict_spaces, evict_round, cache_evict}
use ixe.TagCache.Evict.{IsPaired, evict_entry_lem}

abbrev pub tags_size : List (ℕ × TagEntry) → ℕ
tags_size [] = 0
tags_size ((tag, e) ∷ m) = num_seqnums_in_suffix e + tags_size m

abbrev pub spaces_size : List (ℕ × PerSpaceTagCache) → ℕ
spaces_size [] = 0
spaces_size ((id, s) ∷ m) = tags_size s.tags + spaces_size m

abbrev pub ArePaired : List (ℕ × TagEntry) → Type 0
ArePaired [] = Unit {0}
ArePaired ((tag, e) ∷ m) = IsPaired e.tag_suffix × ArePaired m

abbrev pub AreAllPaired : List (ℕ × PerSpaceTagCache) → Type 0
AreAllPaired [] = Unit {0}
AreAllPaired ((id, s) ∷ m) = ArePaired s.tags × AreAllPaired m

-- What a loop leaves and what it counts is what there was.
evict_tags_lem :
    (popularity limit evicted : ℕ) (m pending : List (ℕ × TagEntry))
    → ArePaired m
    → let r = evict_tags popularity limit evicted m pending in
      ArePaired r.0 × (tags_size r.0 + r.2 ≡ tags_size m + evicted)
unfolding evict_tags
evict_tags_lem popularity limit evicted [] pending p = (tt, refl)
evict_tags_lem popularity limit evicted ((tag, e) ∷ m) pending p =
    let (left, size, count, complete, paired) = evict_entry_lem limit evicted e p.0 in
    elim (Bool-cases (leb e.popularity popularity)) [
      | inl old ↦
          let (rest, total) =
            evict_tags_lem popularity limit (evicted + num_seqnums_in_suffix e) m
              (erase tag pending) p.1 in
          rw old (rest, omega (arith, total))
      | inr recent ↦
          let (rest, total) =
            evict_tags_lem popularity limit (evict_entry limit evicted e).1 m pending p.1 in
          rw recent ((paired, rest), omega (arith, size, count, total))
    ]

evict_spaces_lem :
    (popularity limit evicted : ℕ) (m : List (ℕ × PerSpaceTagCache))
    → AreAllPaired m
    → let r = evict_spaces popularity limit evicted m in
      AreAllPaired r.0 × (spaces_size r.0 + r.1 ≡ spaces_size m + evicted)
unfolding evict_spaces evict_space
evict_spaces_lem popularity limit evicted [] p = (tt, refl)
evict_spaces_lem popularity limit evicted ((id, s) ∷ m) p =
    let (paired, total) = evict_tags_lem popularity limit evicted s.tags s.pending_min_tags p.0 in
    let n = (evict_tags popularity limit evicted s.tags s.pending_min_tags).2 in
    let (rest, total') = evict_spaces_lem popularity limit n m p.1 in
    ((paired, rest), omega (arith, total, total'))

-- `cache_size_` is how many numbers the tags of all log spaces keep.
pub record IsCounted (c : TagCache) : Type 0 where
  pub size : c.cache_size ≡ spaces_size c.per_space_cache
  pub in_range : c.cache_size < 2 ^ 64
  pub paired : AreAllPaired c.per_space_cache

-- One round after another, each of a cache over its limit.
pub data Rounds (ceil_fifth : ℕ → ℕ) : TagCache → TagCache → Type 0 where
  stop : {c : TagCache} → Rounds ceil_fifth c c
  further :
      {c d e : TagCache}
      → c.max_cache_size < c.cache_size
      → evict_round ceil_fifth c ≡ ok d
      → Rounds ceil_fifth d e
      → Rounds ceil_fifth c e

module _ (ceil_fifth : ℕ → ℕ) where
  -- A round ends the process for want of the popularity that it reads, or takes popularities away.
  evict_round_lem :
      (c : TagCache)
      → IsCounted c
      → ((evict_round ceil_fifth c ≡ fatal)
          × (length c.popularity_sequence ≤ ceil_fifth (length c.popularity_sequence)))
        ⊎ ((c' : TagCache) × (evict_round ceil_fifth c ≡ ok c')
            × IsCounted c'
            × (length c'.popularity_sequence < length c.popularity_sequence)
            × (c'.max_cache_size ≡ c.max_cache_size))
  unfolding evict_round
  evict_round_lem c v =
      let ix = ceil_fifth (length c.popularity_sequence) in
      elim (Option-cases (get_elem? c.popularity_sequence ix)) [
        | inl past ↦ inl (rw past refl, get_elem?-none c.popularity_sequence ix past)
        | inr (popularity, at) ↦
            let (paired, total) =
              evict_spaces_lem popularity c.per_tag_seqnums_limit 0 c.per_space_cache v.paired in
            let r = evict_spaces popularity c.per_tag_seqnums_limit 0 c.per_space_cache in
            inr (
              record c {
                per_space_cache = r.0;
                popularity_sequence = drop (ix + 1) c.popularity_sequence;
                cache_size = (c.cache_size + 2 ^ 64 - r.1) % 2 ^ 64;
              },
              rw at refl,
              record {
                size = omega (arith, total, v.size, v.in_range);
                in_range = omega arith;
                paired = paired;
              },
              omega (
                arith,
                length-drop (ix + 1) c.popularity_sequence,
                get_elem?-lt c.popularity_sequence ix popularity at,
              ),
              refl,
            )
      ]

  -- On more rounds than there are popularities the loop of `Evict` ends. It comes to a cache that keeps
  -- no more numbers than its limit; or to one over the limit whose popularities have no element at the
  -- fifth, and there the process ends. In both, `cache_size_`, which was the number of the numbers kept,
  -- still is.
  pub cache_evict_lem :
      (n : ℕ) (c : TagCache)
      → IsCounted c
      → length c.popularity_sequence < n
      → (c' : TagCache) × Rounds ceil_fifth c c'
        × IsCounted c'
        × (((cache_evict ceil_fifth n c ≡ ok c')
              × (spaces_size c'.per_space_cache ≤ c.max_cache_size))
            ⊎ ((cache_evict ceil_fifth n c ≡ fatal)
                × (c.max_cache_size < spaces_size c'.per_space_cache)
                × (length c'.popularity_sequence ≤ ceil_fifth (length c'.popularity_sequence))))
  unfolding cache_evict
  cache_evict_lem zero c v h = absurd (omega arith)
  cache_evict_lem (suc n) c v h = elim (Bool-cases (ltb c.max_cache_size c.cache_size)) [
    | inr within ↦
        let size = v.size in (c, stop, v, inl (rw (within, cache_evict) refl, ground arith))
    | inl over ↦
        let size = v.size in
        let more : c.max_cache_size < c.cache_size = ground arith in
        elim (evict_round_lem c v) [
          | inl (fails, short) ↦ (
            c,
            stop,
            v,
            inr (rw (over, cache_evict) (rw fails refl), omega (arith, more, size), short),
          )
          | inr (c₁, runs, v₁, fewer, same) ↦
              let (c₂, rounds, v₂, end) = cache_evict_lem n c₁ v₁ (omega (arith, fewer)) in
              (
                c₂,
                further more runs rounds,
                v₂,
                elim end [
                  | inl (ends, low) ↦
                      inl (rw (over, cache_evict) (rw runs ends), omega (arith, low, same))
                  | inr (ends, high, short) ↦
                      inr (rw (over, cache_evict) (rw runs ends), omega (arith, high, same), short)
                ],
              )
        ]
  ]
