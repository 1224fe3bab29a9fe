-- ===== src/TagCache/Entry.antt =====
-- The links and entries of src/log/index_local_tag_cache.cpp: the newest sequence numbers of a tag, by
-- view. `fatal` is also a read that the language leaves undefined, such as `front` of an empty vector.
use ixe.Prelude.{
  ℕ, zero, suc, ◌+◌, ◌-◌, min, Bool, false, Option, none, some, List, [], ◌∷◌, ◌++◌, get_elem?,
  drop, length, ltb, ◌==◌, if◌then◌else◌, Outcome, ok, fatal, ◌>>=◌, at_or_fatal,
}
use ixe.Prelude.Search.{lower_bound, upper_bound}
use ixe.Prelude.Maps.{find?, insert}
use ixe.Bits.{join_two32, join_two16, low_half64}
use ixe.Query.{invalid_log_seqnum}

-- `seqnums_` and `storage_shard_ids_` are read at the same index.
pub record TagSuffixLink : Type 0 where
  pub seqnums : List ℕ
  pub storage_shard_ids : List ℕ

abbrev pub new_link : ℕ → ℕ → TagSuffixLink
new_link seqnum storage_shard_id = record {
  seqnums = seqnum ∷ [];
  storage_shard_ids = storage_shard_id ∷ [];
}

-- The number at an index with its shard.
unfoldable pub number_at : ℕ → TagSuffixLink → ℕ → Outcome (ℕ × ℕ)
number_at identifier link i = at_or_fatal (get_elem? link.seqnums i) >>= λ k.
    at_or_fatal (get_elem? link.storage_shard_ids i) >>= λ shard.
    ok (join_two32 identifier k, shard)

unfoldable pub link_find_prev : ℕ → ℕ → TagSuffixLink → Outcome (Option (ℕ × ℕ))
link_find_prev identifier query_seqnum link =
    elim (upper_bound (low_half64 query_seqnum) link.seqnums) [
      | zero ↦ ok none
      | suc i ↦ number_at identifier link i >>= λ r. ok (some r)
    ]

unfoldable pub link_find_next : ℕ → ℕ → TagSuffixLink → Outcome (Option (ℕ × ℕ))
link_find_next identifier query_seqnum link =
    let i = lower_bound (low_half64 query_seqnum) link.seqnums in
    if i == length link.seqnums then ok none else (number_at identifier link i >>= λ r. ok (some r))

unfoldable pub link_get_head : ℕ → TagSuffixLink → Outcome (ℕ × ℕ)
unfolding number_at
link_get_head identifier link = number_at identifier link 0

-- `back` of both vectors.
unfoldable pub link_get_tail : ℕ → TagSuffixLink → Outcome (ℕ × ℕ)
link_get_tail identifier link =
    at_or_fatal (get_elem? link.seqnums (length link.seqnums - 1)) >>= λ k.
    at_or_fatal (get_elem? link.storage_shard_ids (length link.storage_shard_ids - 1)) >>= λ shard.
    ok (join_two32 identifier k, shard)

-- `TagSuffix`, by rising view.
abbrev pub TagSuffix : Type 0
TagSuffix = List (ℕ × TagSuffixLink)

pub record TagEntry : Type 0 where
  pub tag_suffix : TagSuffix
  pub seqnum_min : ℕ
  pub shard_id_min : ℕ
  pub popularity : ℕ
  pub complete : Bool

-- The constructor for a tag of which only the least number is known.
unfoldable pub min_tag_entry : ℕ → ℕ → ℕ → Bool → TagEntry
min_tag_entry seqnum_min storage_shard_id_min popularity complete = record {
  tag_suffix = [];
  seqnum_min = seqnum_min;
  shard_id_min = storage_shard_id_min;
  popularity = popularity;
  complete = complete;
}

-- The constructor for a tag with its first number.
unfoldable pub new_tag_entry : ℕ → ℕ → ℕ → ℕ → TagEntry
new_tag_entry view_id seqnum storage_shard_id popularity = record {
  tag_suffix = (view_id, new_link seqnum storage_shard_id) ∷ [];
  seqnum_min = invalid_log_seqnum;
  shard_id_min = 0;
  popularity = popularity;
  complete = false;
}

abbrev pub extend_link : ℕ → ℕ → TagSuffixLink → TagSuffixLink
extend_link seqnum storage_shard_id link = record {
  seqnums = link.seqnums ++ seqnum ∷ [];
  storage_shard_ids = link.storage_shard_ids ++ storage_shard_id ∷ [];
}

unfoldable pub add_number : ℕ → ℕ → ℕ → ℕ → TagEntry → TagEntry
add_number view_id seqnum storage_shard_id popularity e = record e {
  tag_suffix =
      insert view_id
        (elim (find? view_id e.tag_suffix) [
          | none ↦ new_link seqnum storage_shard_id
          | some link ↦ extend_link seqnum storage_shard_id link
        ])
        e.tag_suffix;
  popularity = popularity;
}

unfoldable pub num_seqnums : TagSuffix → ℕ
num_seqnums [] = 0
num_seqnums ((view_id, link) ∷ rest) = length link.seqnums + num_seqnums rest

unfoldable pub num_seqnums_in_suffix : TagEntry → ℕ
unfolding num_seqnums
num_seqnums_in_suffix e = num_seqnums e.tag_suffix

abbrev pub drop_link : ℕ → TagSuffixLink → TagSuffixLink
drop_link n link = record {
  seqnums = drop n link.seqnums;
  storage_shard_ids = drop n link.storage_shard_ids;
}

-- A link stays in the map unless it is empty.
abbrev pub keep_link : ℕ → TagSuffixLink → TagSuffix → TagSuffix
keep_link view_id link rest = if length link.seqnums == 0 then rest else (view_id, link) ∷ rest

-- The loop of `Evict`, with the numbers still to erase and the count of the evicted.
unfoldable pub evict_links : ℕ → ℕ → TagSuffix → TagSuffix × ℕ
evict_links erase_counter evicted [] = ([], evicted)
evict_links erase_counter evicted ((view_id, link) ∷ rest) =
    let n = min erase_counter (length link.seqnums) in
    let r = evict_links (erase_counter - n) (evicted + n) rest in
    if erase_counter == 0
    then ((view_id, link) ∷ rest, evicted)
    else (keep_link view_id (drop_link n link) r.0, r.1)

-- With the count of the evicted, from the one given.
unfoldable pub evict_entry : ℕ → ℕ → TagEntry → TagEntry × ℕ
unfolding num_seqnums_in_suffix
evict_entry per_tag_seqnums_limit evicted e =
    let erase_counter = num_seqnums_in_suffix e - per_tag_seqnums_limit in
    let r = evict_links erase_counter evicted e.tag_suffix in
    (
      record e { tag_suffix = r.0; complete = if ltb 0 erase_counter then false else e.complete },
      r.1,
    )

-- The first link's head, and the last link's tail.
unfoldable pub suffix_head : ℕ → TagSuffix → Outcome (ℕ × ℕ)
suffix_head sequencer_id [] = fatal
suffix_head sequencer_id ((view_id, link) ∷ rest) =
    link_get_head (join_two16 view_id sequencer_id) link

unfoldable pub suffix_tail : ℕ → TagSuffix → Outcome (ℕ × ℕ)
suffix_tail sequencer_id [] = fatal
suffix_tail sequencer_id ((view_id, link) ∷ []) =
    link_get_tail (join_two16 view_id sequencer_id) link
suffix_tail sequencer_id (l ∷ k ∷ rest) = suffix_tail sequencer_id (k ∷ rest)

unfoldable pub get_suffix_head : ℕ → TagEntry → Outcome (ℕ × ℕ)
unfolding suffix_head
get_suffix_head sequencer_id e = suffix_head sequencer_id e.tag_suffix

unfoldable pub get_suffix_tail : ℕ → TagEntry → Outcome (ℕ × ℕ)
unfolding suffix_tail
get_suffix_tail sequencer_id e = suffix_tail sequencer_id e.tag_suffix
