-- ===== src/TagCache/Cached.antt =====
-- What the cache of a tag in src/log/index_local_tag_cache.cpp may keep of the tag's records, and what
-- `FindNext` answers from it.
use ixe.Prelude.{ℕ, ◌+◌, ◌≤◌, ◌<◌, ◌≡◌, ◌≢◌, true, false, length}
use ixe.Prelude.Maps.{contains}
use ixe.Bits.{get_view_id, get_sequencer_id}
use ixe.Query.{invalid_log_seqnum}
use ixe.TagCache.Entry.{TagEntry}
use ixe.TagCache.Space.{TagAnswer, found, empty, miss}
use ixe.TagCache.Held.{Held, IsSuffix, Above}

-- `log n s`: a record with the tag has the number `n` and lies in the shard `s`. The suffix holds all
-- of them from some number on, and all if the tag is complete; the least number is that of all of them.
pub record IsCached (space : ℕ) (log : ℕ → ℕ → Type 0) (e : TagEntry) : Type 0 where
  pub suffix : IsSuffix 0 e.tag_suffix
  pub not_empty : 0 < length e.tag_suffix
  pub sound : (n s : ℕ) → Held space e.tag_suffix n s → log n s
  pub newest :
      (m t n s : ℕ) → Held space e.tag_suffix m t → m ≤ n → log n s → Held space e.tag_suffix n s
  pub all : e.complete ≡ true → (n s : ℕ) → log n s → Held space e.tag_suffix n s
  pub least :
      e.seqnum_min ≢ invalid_log_seqnum → log e.seqnum_min e.shard_id_min × Above log e.seqnum_min

-- From one before the first number held up to the last, the query is one of the sequencer and of a
-- view that the suffix has.
abbrev pub IsLocated : ℕ → ℕ → TagEntry → Type 0
IsLocated space q e =
    (m t n s : ℕ)
    → Held space e.tag_suffix m t
    → m ≤ q + 1
    → Held space e.tag_suffix n s
    → q ≤ n
    → (get_sequencer_id q ≡ space) × (contains (get_view_id q) e.tag_suffix ≡ true)

-- A record at the query is kept if a record with the next number is.
abbrev pub IsWhole : (ℕ → ℕ → Type 0) → ℕ → ℕ → TagEntry → Type 0
IsWhole log space q e =
    (m t : ℕ)
    → Held space e.tag_suffix m t
    → m ≡ q + 1
    → (s : ℕ) → log q s
    → Held space e.tag_suffix q s

-- An answer is the next record of all of those with the tag, or there is none; a miss comes only from
-- a tag that is not complete, for a query below all that is held.
abbrev pub IsRightNext : ℕ → (ℕ → ℕ → Type 0) → ℕ → TagEntry → TagAnswer → Type 0
IsRightNext space log q e (found n s) = log n s × (q ≤ n) × ((m t : ℕ) → log m t → q ≤ m → n ≤ m)
IsRightNext space log q e empty = (m t : ℕ) → log m t → m < q
IsRightNext space log q e miss =
    (e.complete ≡ false) × ((m t : ℕ) → Held space e.tag_suffix m t → q < m)
