-- ===== src/TagCache/Space.antt =====
-- `PerSpaceTagCache` of src/log/index_local_tag_cache.cpp: the tags of one user log space. `fatal` is
-- also what the language leaves undefined, such as a read through an iterator at the end of a map.
use ixe.Prelude.{
  ℕ, ◌+◌, ◌%◌, ◌^◌, Bool, true, false, ◌&&◌, ◌||◌, not, Option, none, some, List, [], ◌∷◌, ltb, leb,
  ◌==◌, if◌then◌else◌, Outcome, ok, fatal, ◌>>=◌,
}
use ixe.Prelude.Maps.{find?, contains, put, erase}
use ixe.Bits.{join_two16, get_view_id}
use ixe.Query.{invalid_log_seqnum}
use ixe.TagCache.Entry.{
  TagSuffix, TagEntry, min_tag_entry, new_tag_entry, add_number, evict_entry, num_seqnums_in_suffix,
  get_suffix_head, get_suffix_tail, link_find_next, link_find_prev, link_get_head, link_get_tail,
}

pub record PerSpaceTagCache : Type 0 where
  pub tags : List (ℕ × TagEntry)
  pub pending_min_tags : List (ℕ × TagEntry)

abbrev pub new_space_cache : PerSpaceTagCache
new_space_cache = record { tags = []; pending_min_tags = [] }

-- The head of the suffix becomes the least number.
unfoldable pub min_from_head : ℕ → TagEntry → Outcome TagEntry
min_from_head sequencer_id e =
    get_suffix_head sequencer_id e >>= λ h. ok (record e { seqnum_min = h.0; shard_id_min = h.1 })

-- What `AddOrUpdate` does with a pending least number.
unfoldable pub settle_min : ℕ → TagEntry → TagEntry → Outcome TagEntry
unfolding min_from_head
settle_min sequencer_id pending stored =
    (if pending.seqnum_min == invalid_log_seqnum
      then min_from_head sequencer_id stored
      else ok
          (record stored { seqnum_min = pending.seqnum_min; shard_id_min = pending.shard_id_min }))
    >>= λ e. ok (record e { complete = pending.complete })

abbrev pub stored_entry : ℕ → ℕ → ℕ → ℕ → Option TagEntry → TagEntry
stored_entry view_id seqnum storage_shard_id popularity (some e) =
    add_number view_id seqnum storage_shard_id popularity e
stored_entry view_id seqnum storage_shard_id popularity none =
    new_tag_entry view_id seqnum storage_shard_id popularity

unfoldable pub add_or_update : ℕ → ℕ → ℕ → ℕ → ℕ → ℕ → PerSpaceTagCache → Outcome PerSpaceTagCache
add_or_update tag view_id sequencer_id seqnum storage_shard_id popularity c =
    let stored = stored_entry view_id seqnum storage_shard_id popularity (find? tag c.tags) in
    elim (find? tag c.pending_min_tags) [
      | none ↦ ok (record c { tags = put tag stored c.tags })
      | some pending ↦ settle_min sequencer_id pending stored >>= λ e.
          ok (record c { tags = put tag e c.tags; pending_min_tags = erase tag c.pending_min_tags })
    ]

abbrev pub await_tag : ℕ → TagEntry → PerSpaceTagCache → PerSpaceTagCache
await_tag tag e c =
    if contains tag c.pending_min_tags
    then c
    else record c { pending_min_tags = put tag e c.pending_min_tags }

unfoldable pub handle_min_seqnum :
    ℕ → ℕ → ℕ → ℕ → ℕ → ℕ → PerSpaceTagCache → Outcome PerSpaceTagCache
handle_min_seqnum tag min_seqnum min_storage_shard_id timestamp sequencer_id popularity c =
    if min_seqnum == invalid_log_seqnum || leb timestamp min_seqnum
    then elim (find? tag c.tags) [
      | some e ↦ min_from_head sequencer_id e >>= λ e'.
          ok (record c { tags = put tag (record e' { complete = true }) c.tags })
      | none ↦
          ok (
            await_tag tag (min_tag_entry invalid_log_seqnum min_storage_shard_id popularity true) c)
    ]
    else elim (find? tag c.tags) [
      | some e ↦ ok (record c {
        tags =
            put tag (record e { seqnum_min = min_seqnum; shard_id_min = min_storage_shard_id })
              c.tags;
      })
      | none ↦ ok (await_tag tag (min_tag_entry min_seqnum min_storage_shard_id popularity false) c)
    ]

unfoldable pub tag_exists : ℕ → PerSpaceTagCache → Bool
tag_exists tag c = contains tag c.tags

-- The loop of `Evict`, with the pending least numbers and the count of the evicted. An old tag is
-- erased through its iterator, which is then read and moved on to the next tag.
unfoldable pub evict_tags :
    ℕ
    → ℕ
    → ℕ
    → List (ℕ × TagEntry)
    → List (ℕ × TagEntry)
    → List (ℕ × TagEntry) × List (ℕ × TagEntry) × ℕ
evict_tags popularity limit evicted [] pending = ([], pending, evicted)
evict_tags popularity limit evicted ((tag, e) ∷ rest) pending =
    let old = leb e.popularity popularity in
    let r = evict_entry limit evicted e in
    let after =
      evict_tags popularity limit (if old then evicted + num_seqnums_in_suffix e else r.1) rest
        (if old then erase tag pending else pending) in
    if old then after else ((tag, r.0) ∷ after.0, after.1, after.2)

unfoldable pub evict_space : ℕ → ℕ → ℕ → PerSpaceTagCache → PerSpaceTagCache × ℕ
evict_space popularity limit evicted c =
    let r = evict_tags popularity limit evicted c.tags c.pending_min_tags in
    (record { tags = r.0; pending_min_tags = r.1 }, r.2)

-- The state of a query's result, with the number and the shard if it is found.
pub data TagAnswer : Type 0 where
  found : ℕ → ℕ → TagAnswer
  empty : TagAnswer
  miss : TagAnswer

abbrev pub found_at : ℕ × ℕ → TagAnswer
found_at r = found r.0 r.1

-- `lower_bound` of the map: the links from a view on.
unfoldable pub from_view : ℕ → TagSuffix → TagSuffix
from_view view_id [] = []
from_view view_id ((v, link) ∷ rest) =
    let later = from_view view_id rest in if ltb v view_id then later else (v, link) ∷ rest

-- Between head and tail: the link of the query's view, then the head of the next link.
unfoldable pub next_between : ℕ → ℕ → TagSuffix → Outcome TagAnswer
next_between space_id query_seqnum [] = fatal
next_between space_id query_seqnum ((v, link) ∷ rest) =
    link_find_next (join_two16 v space_id) query_seqnum link >>= λ o. elim o [
      | some r ↦ ok (found_at r)
      | none ↦ elim rest [
        | [] ↦ fatal
        | (w, upper) ∷ later ↦ link_get_head (join_two16 w space_id) upper >>= λ r. ok (found_at r)
      ]
    ]

-- For a query below the head.
unfoldable pub next_before : ℕ × ℕ → ℕ → TagEntry → TagAnswer
next_before head query_seqnum e =
    if e.complete
    then found_at head
    else if not (e.seqnum_min == invalid_log_seqnum) && leb query_seqnum e.seqnum_min
    then found e.seqnum_min e.shard_id_min
    else miss

-- For a query past the head.
unfoldable pub next_by_tail : ℕ × ℕ → ℕ → ℕ → TagEntry → Outcome TagAnswer
next_by_tail tail query_seqnum space_id e =
    if tail.0 == query_seqnum
    then ok (found_at tail)
    else if ltb tail.0 query_seqnum
    then ok empty
    else next_between space_id query_seqnum (from_view (get_view_id query_seqnum) e.tag_suffix)

-- What `FindNext` answers for a tag that the cache has.
unfoldable pub entry_find_next : ℕ → ℕ → TagEntry → Outcome TagAnswer
entry_find_next query_seqnum space_id e = get_suffix_head space_id e >>= λ head.
    if ltb ((query_seqnum + 1) % 2 ^ 64) head.0
    then ok (next_before head query_seqnum e)
    else if query_seqnum == head.0
    then ok (found_at head)
    else (get_suffix_tail space_id e >>= λ tail. next_by_tail tail query_seqnum space_id e)

-- The links before `lower_bound`, the last one first: what a reverse iterator there goes over.
unfoldable pub before_view : ℕ → TagSuffix → TagSuffix → TagSuffix
before_view view_id seen [] = seen
before_view view_id seen ((v, link) ∷ rest) =
    let more = before_view view_id ((v, link) ∷ seen) rest in if ltb v view_id then more else seen

-- Between head and tail: the link before the query's view, then the tail of the one before that. At
-- the reverse end the iterator is read too, as it is compared with the reverse begin.
unfoldable pub prev_between : ℕ → ℕ → TagSuffix → Outcome TagAnswer
prev_between space_id query_seqnum [] = fatal
prev_between space_id query_seqnum ((v, link) ∷ rest) =
    link_find_prev (join_two16 v space_id) query_seqnum link >>= λ o. elim o [
      | some r ↦ ok (found_at r)
      | none ↦ elim rest [
        | [] ↦ fatal
        | (w, lower) ∷ earlier ↦
            link_get_tail (join_two16 w space_id) lower >>= λ r. ok (found_at r)
      ]
    ]

-- The link at `lower_bound` is the end exactly when the reverse iterator is the reverse begin.
unfoldable pub entry_find_prev : ℕ → ℕ → TagEntry → Outcome TagAnswer
entry_find_prev query_seqnum space_id e = get_suffix_tail space_id e >>= λ tail.
    if leb tail.0 query_seqnum
    then ok (found_at tail)
    else (get_suffix_head space_id e >>= λ head.
        if query_seqnum == head.0
        then ok (found_at head)
        else if ltb query_seqnum head.0
        then ok (
            if e.complete
            then empty
            else if not (e.seqnum_min == invalid_log_seqnum) && e.seqnum_min == query_seqnum
            then found e.seqnum_min e.shard_id_min
            else miss)
        else elim (from_view (get_view_id query_seqnum) e.tag_suffix) [
          | [] ↦ fatal
          | l ∷ later ↦
              prev_between space_id query_seqnum
                (before_view (get_view_id query_seqnum) [] e.tag_suffix)
        ])

-- A found number makes the tag as popular as the query.
abbrev pub touch : ℕ → ℕ → TagEntry → PerSpaceTagCache → TagAnswer → PerSpaceTagCache × TagAnswer
touch tag popularity e c (found seqnum shard) =
    (record c { tags = put tag (record e { popularity = popularity }) c.tags }, found seqnum shard)
touch tag popularity e c empty = (c, empty)
touch tag popularity e c miss = (c, miss)

unfoldable pub space_find_next :
    ℕ → ℕ → ℕ → ℕ → PerSpaceTagCache → Outcome (PerSpaceTagCache × TagAnswer)
space_find_next query_seqnum user_tag space_id popularity c = elim (find? user_tag c.tags) [
  | none ↦ ok (c, miss)
  | some e ↦ entry_find_next query_seqnum space_id e >>= λ a. ok (touch user_tag popularity e c a)
]

unfoldable pub space_find_prev :
    ℕ → ℕ → ℕ → ℕ → PerSpaceTagCache → Outcome (PerSpaceTagCache × TagAnswer)
space_find_prev query_seqnum user_tag space_id popularity c = elim (find? user_tag c.tags) [
  | none ↦ ok (c, miss)
  | some e ↦ entry_find_prev query_seqnum space_id e >>= λ a. ok (touch user_tag popularity e c a)
]
