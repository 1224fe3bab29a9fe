-- ===== src/TagCache/Tests.antt =====
-- Runs of the cache of tags (src/log/index_local_tag_cache.cpp).
use ixe.Prelude.Search.{lower_bound}
use ixe.Prelude.{
  ℕ, ◌+◌, ◌-◌, ◌*◌, ◌^◌, ◌≡◌, refl, false, [], ◌∷◌, drop, min, ltb, if◌then◌else◌, ok, fatal, arith,
  Outcome, ◌⊎◌, ◌≤◌, ◌<◌, length,
}
use ixe.Prelude.Maps.{find?, insert, erase}
use ixe.Bits.{join_two32, join_two16, get_view_id, low_half64}
use ixe.TagCache.{
  TagEntry, PerSpaceTagCache, new_space_cache, new_tag_entry, add_number, num_seqnums_in_suffix,
  evict_entry, found, entry_find_next, entry_find_prev, evict_tags, add_or_update, get_suffix_head,
  get_suffix_tail, link_get_head, link_get_tail, from_view, next_by_tail, next_between,
  link_find_next, prev_between, before_view, evict_links,
}
use ixe.TagCache.Evict.{suffix_rows, IsPaired, evict_entry_lem}
use ixe.TagCache.Extend.{OrNew}
use ixe.TagCache.Tags.{IsSpaceCached, Logged}
use ixe.TagCache.Entry.{num_seqnums}
use ixe.TagCache.Space.{evict_space}
use ixe.TagCache.State.{TagCache, new_tag_cache}
use ixe.TagCache.Advance.{evict_spaces, evict_round, cache_evict}
use ixe.TagCache.Sizes.{IsCounted, Rounds, spaces_size, cache_evict_lem}
use ixe.TagCache.Spaces.{add_or_update-IsSpaceCached}

-- A number of view 1 and sequencer 1.
abbrev at : ℕ → ℕ
at k = k + 65537 * 2 ^ 32

-- The records with the numbers 7 and 9 of one tag, in the shards 5 and 6.
abbrev NoRecord : ℕ → ℕ → Type 0
NoRecord n s = ⊥

abbrev Seven : ℕ → ℕ → Type 0
Seven = OrNew NoRecord (at 7) 5

abbrev Both : ℕ → ℕ → Type 0
Both = OrNew Seven (at 9) 6

abbrev two_records : TagEntry
two_records = add_number 1 9 6 1 (new_tag_entry 1 7 5 0)

between_next : entry_find_next (at 8) 1 two_records ≡ ok (found (at 9) 6)
unfolding entry_find_next add_number new_tag_entry insert find? join_two32 join_two16
    get_suffix_head get_suffix_tail link_get_head link_get_tail from_view get_view_id next_by_tail
    next_between link_find_next lower_bound low_half64
between_next = refl

-- The same query in the other direction is undefined, as `FindPrev` starts before the query's view.
between_prev : entry_find_prev (at 8) 1 two_records ≡ fatal
unfolding entry_find_prev add_number new_tag_entry prev_between before_view insert find? join_two32
    join_two16 get_suffix_head get_suffix_tail link_get_head link_get_tail from_view get_view_id
between_prev = refl

-- With the records 7 and 8, of which 7 is evicted, a query at 7 is answered with 8.
next_skips :
    entry_find_next (at 7) 1 (evict_entry 1 0 (add_number 1 8 6 1 (new_tag_entry 1 7 5 0))).0
    ≡ ok (found (at 8) 6)
unfolding entry_find_next evict_entry evict_links add_number new_tag_entry insert find? join_two32
    join_two16 get_suffix_head get_suffix_tail link_get_head link_get_tail from_view get_view_id
    next_by_tail next_between link_find_next lower_bound low_half64
next_skips = refl

-- A view without a link: a query of view 2 skips the number 2 of view 3.
next_skips_view :
    entry_find_next
      (5 + 131073 * 2 ^ 32)
      1
      (add_number 3 9 5 0 (add_number 3 2 5 0 (new_tag_entry 1 7 5 0)))
    ≡ ok (found (9 + 196609 * 2 ^ 32) 5)
unfolding entry_find_next add_number new_tag_entry insert find? join_two32 join_two16
    get_suffix_head get_suffix_tail link_get_head link_get_tail from_view get_view_id next_by_tail
    next_between link_find_next lower_bound low_half64
next_skips_view = refl

-- An old tag is erased, with what it awaits, and the other one stays.
evict_old :
    evict_tags 3 4 0
      ((5, new_tag_entry 1 7 5 2) ∷ (6, new_tag_entry 1 8 5 4) ∷ [])
      ((5, new_tag_entry 1 7 5 2) ∷ [])
    ≡ ((6, new_tag_entry 1 8 5 4) ∷ [], [], 1)
unfolding evict_tags new_tag_entry num_seqnums_in_suffix num_seqnums evict_entry evict_links erase
evict_old = refl

evict_entry_lem_example :
    let e = two_records in
    let r = evict_entry 1 4 e in
    (suffix_rows r.0.tag_suffix ≡ drop (num_seqnums_in_suffix e - 1) (suffix_rows e.tag_suffix))
    × (num_seqnums_in_suffix r.0 ≡ min 1 (num_seqnums_in_suffix e))
    × (r.1 ≡ 4 + (num_seqnums_in_suffix e - 1))
    × (r.0.complete ≡ (if ltb 1 (num_seqnums_in_suffix e) then false else e.complete))
    × IsPaired r.0.tag_suffix
unfolding add_number new_tag_entry find? insert
evict_entry_lem_example = evict_entry_lem 1 4 two_records (omega arith)

-- No tag has a record yet.
abbrev NoLog : ℕ → ℕ → ℕ → Type 0
NoLog t n s = ⊥

new_space_cache-IsSpaceCached : IsSpaceCached 1 NoLog new_space_cache
unfolding find?
new_space_cache-IsSpaceCached = record { cached = λ t e h. cc; awaited = λ t p h. cc }

add_or_update-IsSpaceCached_example :
    (c' : PerSpaceTagCache) × (add_or_update 4 1 1 7 5 0 new_space_cache ≡ ok c')
    × IsSpaceCached 1 (Logged NoLog 4 (join_two32 (join_two16 1 1) 7) 5) c'
add_or_update-IsSpaceCached_example =
    add_or_update-IsSpaceCached 1 1 7 5 (omega arith) (omega arith) (omega arith) 4 0 NoLog
      new_space_cache new_space_cache-IsSpaceCached (λ m t there. elim there [ ])

-- The log space 2 keeps the two records, and the cache is one over its limit.
abbrev over_full : TagCache
over_full = record (new_tag_cache 0 1 1 1) {
  cache_size = 2;
  popularity_sequence = 0 ∷ 0 ∷ 5 ∷ [];
  per_space_cache = (2, record { tags = (4, two_records) ∷ []; pending_min_tags = [] }) ∷ [];
}

over_full-IsCounted : IsCounted over_full
unfolding add_number new_tag_entry find? insert num_seqnums_in_suffix num_seqnums new_tag_cache
over_full-IsCounted = record {
  size = refl;
  in_range = omega arith;
  paired = (((refl, tt), tt), tt);
}

cache_evict_lem_example :
    (c' : TagCache) × Rounds (λ n. 1) over_full c'
    × IsCounted c'
    × (((cache_evict (λ n. 1) 4 over_full ≡ ok c') × (spaces_size c'.per_space_cache ≤ 1))
        ⊎ ((cache_evict (λ n. 1) 4 over_full ≡ fatal)
            × (1 < spaces_size c'.per_space_cache)
            × (length c'.popularity_sequence ≤ 1)))
unfolding new_tag_cache
cache_evict_lem_example = cache_evict_lem (λ n. 1) 4 over_full over_full-IsCounted (omega arith)

-- One round leaves one number of the two.
abbrev size_after : Outcome TagCache → Outcome ℕ
size_after (ok c) = ok c.cache_size
size_after fatal = fatal

evict_one : size_after (cache_evict (λ n. 1) 4 over_full) ≡ ok 1
unfolding cache_evict evict_round evict_spaces evict_space evict_tags evict_entry evict_links
    add_number new_tag_entry find? insert num_seqnums_in_suffix num_seqnums new_tag_cache
evict_one = refl
