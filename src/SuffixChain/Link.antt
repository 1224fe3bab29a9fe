-- ===== src/SuffixChain/Link.antt =====
-- `SeqnumSuffixLink` of src/log/index_local_suffix.cpp: the newest cuts of a log space, of which each
-- gives the shard of every sequence number. `fatal` is also a read that the language leaves undefined.
use mathlib.Core.List.{reverse}
use ixe.Prelude.Search.{lower_bound}
use ixe.Prelude.{
  ℕ, ◌+◌, ◌-◌, ◌%◌, ◌^◌, Option, none, some, List, [], ◌∷◌, map, get_elem?, length, drop, min, ltb,
  leb, ◌==◌, if◌then◌else◌, Outcome, ok, fatal, ◌>>=◌, at_or_fatal,
}
use ixe.Prelude.Maps.{contains, insert}
use ixe.Bits.{join_two32, low_half64}
use ixe.LogSpace.Data.{log_suffix, normal}
use ixe.LogSpace.Base.{Space, Hooks, new_core, no_hooks}

-- `key_diffs_` is how far the last number of each productive shard is below the last of all.
pub record LinkEntry : Type 0 where
  pub storage_shard_ids : List ℕ
  pub key_diffs : List ℕ

abbrev pub Entries : Type 0
Entries = List (ℕ × LinkEntry)

abbrev pub SeqnumSuffixLink : Type 0
SeqnumSuffixLink = Space Entries

abbrev pub last {ℓ} : {A : Type ℓ} → List A → Option A
last [] = none
last (x ∷ []) = some x
last (x ∷ y ∷ xs) = last (y ∷ xs)

-- The shard and the last number of each productive shard.
unfoldable pub new_link_entry : ℕ → List (ℕ × ℕ) → LinkEntry
new_link_entry key_seqnum productive_shards = record {
  storage_shard_ids = map (λ c. c.0) productive_shards;
  key_diffs = map (λ c. ((key_seqnum + 2 ^ 32 - c.1) % 2 ^ 32) % 2 ^ 16) productive_shards;
}

-- The shard of the difference that a search from the back finds at an index, or of the one after it.
unfoldable pub shard_from_back : List ℕ → ℕ → ℕ → Option ℕ → Outcome ℕ
shard_from_back ids diff ix none = at_or_fatal (get_elem? ids 0)
shard_from_back ids diff ix (some d) =
    if d == diff
    then at_or_fatal (get_elem? ids (length ids - 1 - ix))
    else if ix == 0
    then fatal
    else if ltb 1 (length ids)
    then at_or_fatal (get_elem? ids (length ids - 1 - (ix - 1)))
    else fatal

-- `std::lower_bound` from the back of the differences, where they are least.
unfoldable pub find_storage_shard_id : ℕ → LinkEntry → ℕ → Outcome ℕ
find_storage_shard_id key_seqnum entry query_seqnum =
    let diff = (key_seqnum - query_seqnum) % 2 ^ 16 in
    let diffs = reverse entry.key_diffs in
    let ix = lower_bound diff diffs in
    if ltb key_seqnum query_seqnum
    then fatal
    else if query_seqnum == key_seqnum
    then at_or_fatal (last entry.storage_shard_ids)
    else if diff == 0
    then fatal
    else shard_from_back entry.storage_shard_ids diff ix (get_elem? diffs ix)

-- `emplace_hint` leaves an entry that is there.
unfoldable pub link_on_new_logs : List (ℕ × ℕ) → Entries → Outcome Entries
link_on_new_logs productive_shards entries = at_or_fatal (last productive_shards) >>= λ key. ok (
    if contains key.1 entries
    then entries
    else insert key.1 (new_link_entry key.1 productive_shards) entries)

abbrev pub suffix_hooks : Hooks Entries
suffix_hooks = record no_hooks { on_new_cuts = λ c cuts. link_on_new_logs cuts c.derived }

unfoldable pub new_suffix_link : ℕ → ℕ → List ℕ → ℕ → SeqnumSuffixLink
new_suffix_link view_id sequencer_id shard_ids metalog_position = record {
  core = record (new_core log_suffix view_id sequencer_id shard_ids []) {
    state = normal;
    metalog_position = metalog_position;
  };
  pending_metalogs = [];
}

abbrev pub entries_of : SeqnumSuffixLink → Entries
entries_of l = l.core.derived

abbrev pub with_entries : Entries → SeqnumSuffixLink → SeqnumSuffixLink
with_entries entries l = record l { core = record l.core { derived = entries } }

unfoldable pub link_clear : SeqnumSuffixLink → SeqnumSuffixLink
link_clear l = with_entries [] l

-- The loop of `Trim`, with what is left of the counter.
unfoldable pub trim_entries : ℕ → Entries → Entries × ℕ
trim_entries counter entries = (drop counter entries, counter - min counter (length entries))

unfoldable pub entries_head : ℕ → Entries → Outcome (ℕ × ℕ)
entries_head id [] = fatal
entries_head id ((key, entry) ∷ rest) = elim (get_elem? entry.key_diffs 0) [
  | some d ↦ at_or_fatal (get_elem? entry.storage_shard_ids 0) >>= λ shard.
      ok (join_two32 id ((key + 2 ^ 32 - d) % 2 ^ 32), shard)
  | none ↦ at_or_fatal (last entry.storage_shard_ids) >>= λ shard. ok (join_two32 id key, shard)
]

unfoldable pub entries_tail : ℕ → Entries → Outcome (ℕ × ℕ)
entries_tail id entries = at_or_fatal (last entries) >>= λ e.
    at_or_fatal (last e.1.storage_shard_ids) >>= λ shard. ok (join_two32 id e.0, shard)

-- The entry after `upper_bound`, or the one before it when its key is the number.
unfoldable pub shard_at : Option (ℕ × LinkEntry) → ℕ → ℕ × LinkEntry → Outcome ℕ
unfolding find_storage_shard_id
shard_at none local (key, entry) = find_storage_shard_id key entry local
shard_at (some (lower_key, lower)) local (key, entry) =
    if lower_key == local
    then at_or_fatal (last lower.storage_shard_ids)
    else find_storage_shard_id key entry local

unfoldable pub search_entries : Option (ℕ × LinkEntry) → ℕ → Entries → Outcome ℕ
search_entries lower local [] = fatal
search_entries lower local (e ∷ rest) =
    let later = search_entries (some e) local rest in
    if ltb local e.0 then shard_at lower local e else later

-- The query itself, with its shard.
unfoldable pub point_hit : ℕ → Entries → Outcome (Option (ℕ × ℕ))
point_hit query_seqnum entries = search_entries none (low_half64 query_seqnum) entries >>= λ shard.
    ok (some (query_seqnum, shard))

unfoldable pub entries_find_next : ℕ → ℕ → Entries → Outcome (Option (ℕ × ℕ))
entries_find_next id query_seqnum [] = ok none
entries_find_next id query_seqnum (e ∷ es) = entries_head id (e ∷ es) >>= λ head.
    if ltb query_seqnum head.0
    then ok none
    else if query_seqnum == head.0
    then ok (some head)
    else (entries_tail id (e ∷ es) >>= λ tail.
        if ltb tail.0 query_seqnum
        then ok none
        else if query_seqnum == tail.0
        then ok (some tail)
        else point_hit query_seqnum (e ∷ es))

unfoldable pub entries_find_prev : ℕ → ℕ → Entries → Outcome (Option (ℕ × ℕ))
entries_find_prev id query_seqnum [] = ok none
entries_find_prev id query_seqnum (e ∷ es) = entries_head id (e ∷ es) >>= λ head.
    if ltb query_seqnum head.0
    then ok none
    else (entries_tail id (e ∷ es) >>= λ tail.
        if leb tail.0 query_seqnum then ok (some tail) else point_hit query_seqnum (e ∷ es))
