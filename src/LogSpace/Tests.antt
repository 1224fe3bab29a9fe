-- ===== src/LogSpace/Tests.antt =====
-- Runs of the log spaces of src/log/log_space_base.cpp and src/log/log_space.cpp.
use ixe.Prelude.{
  ℕ, zero, suc, ◌+◌, ◌^◌, ◌%◌, ◌<◌, ◌≡◌, refl, ◌∙◌, true, false, ◌&&◌, not, [], ◌∷◌, ◌++◌, map,
  arith, elem, ok, if◌then◌else◌,
}
use ixe.Prelude.Maps.{put}
use ixe.LogSpace.Data.{MetaLog, new_logs, full_mode, trim, log_storage}
use ixe.LogSpace.Base.{
  Core, Space, no_hooks, is_trim, is_full, new_core, apply_next, apply_new_logs, apply_shards,
  provide_all,
}
use ixe.LogSpace.Replay.{replay}
use ixe.LogSpace.Stall.{trim_lem}
use ixe.LogSpace.Order.{fresh, delivery_lem, delivery_comm}
use ixe.LogSpace.Progress.{apply_shard_plain, apply_meta_log_full, mode-apply_next}

-- A stream in which entry `k` cuts one record of shard 3.
abbrev entry : ℕ → MetaLog
entry k = record {
  logspace_id = 65536;
  metalog_seqnum = k;
  kind = new_logs;
  new_logs_proto = record {
    start_seqnum = k;
    shard_ids = 3 ∷ [];
    shard_starts = k ∷ [];
    shard_deltas = 1 ∷ [];
  };
  trim_proto = record { user_logspace = 0; user_tag = 0; trim_seqnum = 0 };
}

abbrev first_core : Core (Unit {0})
first_core = new_core full_mode 1 0 [] tt

abbrev after_entry : ℕ → Core (Unit {0}) → Core (Unit {0})
after_entry k c = record c {
  shard_progresses = put (3 % 2 ^ 16) ((k + 1) % 2 ^ 32) c.shard_progresses;
  seqnum_position = (k + 1) % 2 ^ 32;
}

entry_cuts :
    (k : ℕ) (c : Core (Unit {0})) → apply_new_logs no_hooks (entry k) c ≡ ok (after_entry k c)
unfolding apply_new_logs apply_shards
entry_cuts k c = rw (apply_shard_plain k c 3 k 1 k) refl

entry_runs :
    (k : ℕ) (c : Core (Unit {0}))
    → c.mode ≡ full_mode
    → (d : Core (Unit {0})) × (apply_next no_hooks (entry k) c ≡ ok d)
unfolding apply_next
entry_runs k c full =
    let d = after_entry k c in
    let applied =
      if is_full d.mode then d.applied_metalogs ++ entry k ∷ [] else d.applied_metalogs in
    (
      record d { applied_metalogs = applied; metalog_position = (k + 1) % 2 ^ 32 },
      rw (apply_meta_log_full no_hooks (entry k) c full refl ∙ entry_cuts k c) refl,
    )

replay_runs :
    (n : ℕ)
    → (c : Core (Unit {0})) × (replay no_hooks entry first_core n ≡ ok c) × (c.mode ≡ full_mode)
unfolding replay new_core
replay_runs zero = (first_core, refl, refl)
replay_runs (suc n) =
    let (c, e, full) = replay_runs n in
    let (d, f) = entry_runs (0 + n) c full in
    (d, rw e f, mode-apply_next no_hooks (entry (0 + n)) c d f ∙ full)

runs : (n : ℕ) → (c : Core (Unit {0})) × (replay no_hooks entry first_core n ≡ ok c)
runs n = let (c, e, full) = replay_runs n in (c, e)

heard : (k : ℕ) → (is_trim (entry k).kind && not (is_full first_core.mode)) ≡ false
unfolding new_core
heard k = refl

-- Entries 2, 0, 0, 4: two are applied, and 2 and 4 wait.
delivery_lem_example :
    (n : ℕ) × (s : Space (Unit {0})) × (provide_all no_hooks
        (map entry (2 ∷ 0 ∷ 0 ∷ 4 ∷ []))
        (fresh no_hooks entry first_core)
      ≡ ok s)
    × (replay no_hooks entry first_core n ≡ ok s.core)
    × (s.core.metalog_position ≡ first_core.metalog_position + n)
    × ((j : ℕ) → j < n → elem (first_core.metalog_position + j) (2 ∷ 0 ∷ 0 ∷ 4 ∷ []) ≡ true)
    × (elem (first_core.metalog_position + n) (2 ∷ 0 ∷ 0 ∷ 4 ∷ []) ≡ false)
delivery_lem_example =
    delivery_lem no_hooks entry first_core (λ k. refl) runs heard (2 ∷ 0 ∷ 0 ∷ 4 ∷ [])
      (ground arith)

delivery_comm_example :
    (s : Space (Unit {0})) × (provide_all no_hooks
        (map entry (2 ∷ 0 ∷ 1 ∷ []))
        (fresh no_hooks entry first_core)
      ≡ ok s)
    × (provide_all no_hooks (map entry (1 ∷ 2 ∷ 0 ∷ 0 ∷ [])) (fresh no_hooks entry first_core)
        ≡ ok s)
unfolding elem
delivery_comm_example =
    delivery_comm no_hooks entry first_core (λ k. refl) runs heard (2 ∷ 0 ∷ 1 ∷ [])
      (1 ∷ 2 ∷ 0 ∷ 0 ∷ []) (ground arith) (ground arith) (λ j. ground arith)

abbrev lite_core : Core (Unit {0})
lite_core = record first_core { mode = log_storage }

-- Entry 0 is a trim; entries 1 and 2 then wait for ever.
abbrev trim_entry : MetaLog
trim_entry = record (entry 0) { kind = trim }

trim_lem_example :
    (s' : Space (Unit {0})) × (provide_all no_hooks
        (entry 1 ∷ trim_entry ∷ entry 2 ∷ [])
        (record { core = lite_core; pending_metalogs = [] })
      ≡ ok s')
    × (s'.core ≡ lite_core)
unfolding new_core
trim_lem_example =
    trim_lem no_hooks (entry 1 ∷ trim_entry ∷ entry 2 ∷ [])
      (record { core = lite_core; pending_metalogs = [] }) refl (ground arith) tt
