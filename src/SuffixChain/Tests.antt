-- ===== src/SuffixChain/Tests.antt =====
-- Runs of the chain of suffixes (src/log/index_local_suffix.cpp).
use ixe.Prelude.{
  ◌>>=◌, ℕ, ◌+◌, ◌*◌, ◌/◌, ◌≤◌, ◌<◌, ◌≡◌, refl, none, some, List, [], ◌∷◌, ◌++◌, drop, length, ok,
  fatal, Outcome, arith,
}
use ixe.Prelude.Maps.{contains, insert, put}
use ixe.Bits.{join_two32}
use ixe.LogSpace.Data.{MetaLog, new_logs}
use ixe.LogSpace.Base.{
  collect_cuts, new_core, provide_meta_log, advance_meta_log_progress, apply_next, apply_meta_log,
  apply_suffix,
}
use ixe.SuffixChain.{
  Entries, new_link_entry, find_storage_shard_id, shard_from_back, link_on_new_logs,
  entries_find_next, entries_find_prev, SeqnumSuffixChain, new_chain, extend_chain, trim_chain,
  extend_last, last_link, trim_links, trim_entries, with_entries, new_suffix_link,
}
use ixe.Prelude.Search.{lower_bound}
use ixe.SuffixChain.Owner.{owner, IsCut}
use ixe.SuffixChain.Shard.{find_storage_shard_id_lem}
use ixe.SuffixChain.Search.{IsEntries}
use ixe.SuffixChain.Points.{IsPoint, entries_find_next_lem, entries_find_prev_lem}
use ixe.SuffixChain.Trim.{all_entries, trim_chain_lem}
use ixe.SuffixChain.Grow.{next_number, shard_of, link_on_new_logs-IsEntries}

-- Shard 5 has the numbers 10 to 12, shard 7 those up to 15.
abbrev two_shards : List (ℕ × ℕ)
two_shards = (5, 12) ∷ (7, 15) ∷ []

abbrev two_shards-IsCut : IsCut 10 15 two_shards
two_shards-IsCut = record {
  rising = omega arith;
  count = 1;
  counted = omega arith;
  shard = 7;
  at_key = refl;
  narrow = omega arith;
  in_range = omega arith;
}

-- Then shard 5 has the numbers up to 20.
abbrev one_shard : List (ℕ × ℕ)
one_shard = (5, 20) ∷ []

abbrev one_shard-IsCut : IsCut 16 20 one_shard
one_shard-IsCut = record {
  rising = omega arith;
  count = 0;
  counted = omega arith;
  shard = 5;
  at_key = refl;
  narrow = omega arith;
  in_range = omega arith;
}

find_storage_shard_id_lem_example :
    (shard : ℕ) × (owner 13 two_shards ≡ some shard)
    × (find_storage_shard_id 15 (new_link_entry 15 two_shards) 13 ≡ ok shard)
find_storage_shard_id_lem_example =
    find_storage_shard_id_lem 10 15 two_shards two_shards-IsCut 13 (omega arith) (omega arith)

shard_of_13 : owner 13 two_shards ≡ some 7
unfolding owner
shard_of_13 = refl

abbrev two_entries : Entries
two_entries = (15, new_link_entry 15 two_shards) ∷ (20, new_link_entry 20 one_shard) ∷ []

two_entries-IsEntries : IsEntries 10 two_entries (two_shards ∷ one_shard ∷ [])
two_entries-IsEntries = (two_shards-IsCut, refl, (one_shard-IsCut, refl, tt))

entries_find_next_lem_example :
    (18 < 12 → entries_find_next 65537 (join_two32 65537 18) two_entries ≡ ok none)
    × (20 < 18 → entries_find_next 65537 (join_two32 65537 18) two_entries ≡ ok none)
    × (12 ≤ 18
        → 18 ≤ 20
        → IsPoint 65537 18
            (two_shards ++ one_shard)
            (entries_find_next 65537 (join_two32 65537 18) two_entries))
entries_find_next_lem_example =
    entries_find_next_lem 65537 10 15 12 5 (new_link_entry 15 two_shards) ((7, 15) ∷ [])
      ((20, new_link_entry 20 one_shard) ∷ []) (one_shard ∷ []) (20, new_link_entry 20 one_shard) 18
      (omega arith) (omega arith) two_entries-IsEntries refl

entries_find_prev_lem_example :
    (25 < 12 → entries_find_prev 65537 (join_two32 65537 25) two_entries ≡ ok none)
    × (12 ≤ 25
        → 25 ≤ 20
        → IsPoint 65537 25
            (two_shards ++ one_shard)
            (entries_find_prev 65537 (join_two32 65537 25) two_entries))
    × (20 < 25
        → IsPoint 65537 20
            (two_shards ++ one_shard)
            (entries_find_prev 65537 (join_two32 65537 25) two_entries))
entries_find_prev_lem_example =
    entries_find_prev_lem 65537 10 15 12 5 (new_link_entry 15 two_shards) ((7, 15) ∷ [])
      ((20, new_link_entry 20 one_shard) ∷ []) (one_shard ∷ []) (20, new_link_entry 20 one_shard) 25
      (omega arith) (omega arith) two_entries-IsEntries refl

-- A cut of 70010 numbers: the difference of the first shard is 60000, which is kept, but that of the
-- number 3000 is 67009, of which 1473 is kept, and the search takes it for a later one of shard 7.
wide_cut :
    (owner 3000 ((5, 10009) ∷ (7, 70009) ∷ []) ≡ some 5)
    × (find_storage_shard_id 70009 (new_link_entry 70009 ((5, 10009) ∷ (7, 70009) ∷ [])) 3000
        ≡ ok 7)
unfolding owner find_storage_shard_id new_link_entry lower_bound shard_from_back
wide_cut = (refl, refl)

-- A difference that is narrowed: the first shard ends 70000 numbers before the last one, which counts as
-- 4464. The number 50000 of shard 7 is 20009 before the last one, past both, and goes to shard 5.
narrowed_difference :
    (owner 50000 ((5, 9) ∷ (7, 70009) ∷ []) ≡ some 7)
    × (find_storage_shard_id 70009 (new_link_entry 70009 ((5, 9) ∷ (7, 70009) ∷ [])) 50000 ≡ ok 5)
unfolding owner find_storage_shard_id new_link_entry lower_bound shard_from_back
narrowed_difference = (refl, refl)

-- The meta log that gave the second entry: shard 5 gets five records more.
link_on_new_logs-IsEntries_example :
    (es' : Entries) × (link_on_new_logs ((5, 20) ∷ []) ((15, new_link_entry 15 two_shards) ∷ [])
      ≡ ok es')
    × IsEntries 10 es' (two_shards ∷ ((5, 20) ∷ []) ∷ [])
    × (next_number 10 es' ≡ 16 + 5)
    × (◌≡◌ {A = ℕ} 21 (16 + 5))
    × ((n : ℕ)
        → 16 ≤ n
        → n < next_number 10 es'
        → owner n ((5, 20) ∷ []) ≡ shard_of n 16 (5 ∷ []) (5 ∷ []))
unfolding collect_cuts put
link_on_new_logs-IsEntries_example =
    link_on_new_logs-IsEntries [] (5 ∷ []) (3 ∷ []) (5 ∷ []) 10
      ((15, new_link_entry 15 two_shards) ∷ []) (two_shards ∷ []) ((5, 8) ∷ [], (5, 20) ∷ [], 21)
      (two_shards-IsCut, refl, tt) refl (omega arith) (omega arith) (omega arith)

-- A chain with one link of view 1, which has the two entries.
abbrev full_chain : SeqnumSuffixChain
full_chain = record (new_chain 1 1) {
  current_entries = 2;
  suffix_chain = (1, with_entries two_entries (new_suffix_link 1 1 (5 ∷ 7 ∷ []) 2)) ∷ [];
}

trim_chain_lem_example :
    let c' = trim_chain (λ n. n / 2) full_chain in
    (c'.current_entries ≡ length (all_entries c'.suffix_chain))
    × (1 < 2 → all_entries c'.suffix_chain ≡ drop (2 / 2) (all_entries full_chain.suffix_chain))
    × (2 ≤ 1 → c'.suffix_chain ≡ full_chain.suffix_chain)
unfolding new_chain new_suffix_link new_core
trim_chain_lem_example =
    trim_chain_lem (λ n. n / 2) full_chain (λ n. omega arith) refl (omega arith)

-- A counter that is the size of all links takes the last link out as well.
trim_all : (trim_links 2 full_chain.suffix_chain).0 ≡ []
unfolding trim_links trim_entries new_chain new_suffix_link new_core
trim_all = refl

-- The meta logs 0 and 1 give shard 5 three records each.
abbrev meta_log : ℕ → MetaLog
meta_log n = record {
  logspace_id = 65537;
  metalog_seqnum = n;
  kind = new_logs;
  new_logs_proto = record {
    start_seqnum = n * 3;
    shard_ids = 5 ∷ [];
    shard_starts = n * 3 ∷ [];
    shard_deltas = 3 ∷ [];
  };
  trim_proto = record { user_logspace = 0; user_tag = 0; trim_seqnum = 0 };
}

abbrev counts : SeqnumSuffixChain → ℕ × ℕ
counts c = (c.current_entries, length (all_entries c.suffix_chain))

abbrev counted : Outcome SeqnumSuffixChain → Outcome (ℕ × ℕ)
counted fatal = fatal
counted (ok c) = ok (counts c)

-- Out of order they come to two entries at once, which are counted as one.
miscount :
    counted (
      extend_last (meta_log 1) (extend_chain 1 (5 ∷ []) 0 (new_chain 1 10))
      >>= extend_last (meta_log 0))
    ≡ ok (1, 2)
unfolding extend_last last_link extend_chain contains new_chain insert provide_meta_log
    new_suffix_link advance_meta_log_progress apply_next apply_meta_log new_core apply_suffix
    collect_cuts link_on_new_logs
miscount = refl
