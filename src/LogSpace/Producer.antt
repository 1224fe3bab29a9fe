-- ===== src/LogSpace/Producer.antt =====
-- `LogProducer` of src/log/log_space.cpp: the appends of one engine that wait for their sequence
-- numbers. The pointer that identifies a caller is any value.
pub mod Fifo
pub mod Tests
use ixe.Prelude.{
  ℕ, zero, suc, ◌+◌, ◌-◌, ◌%◌, ◌^◌, List, [], ◌∷◌, ◌++◌, Outcome, ok, ◌>>=◌, at_or_fatal,
}
use ixe.Prelude.Maps.{find?, put, erase}
use ixe.Bits.{join_two32}
use ixe.LogSpace.Data.{MetaLog, log_producer, normal}
use ixe.LogSpace.Base.{
  Core, Hooks, new_core, add_interested_shard, identifier, global_seqnum_position,
}

abbrev pub invalid_log_seqnum : ℕ
invalid_log_seqnum = 2 ^ 64 - 1

pub record AppendResult {ℓ} (D : Type ℓ) : Type ℓ where
  pub seqnum : ℕ
  pub localid : ℕ
  pub metalog_progress : ℕ
  pub caller_data : D

pub record Producer {ℓ} (D : Type ℓ) : Type ℓ where
  pub next_localid : ℕ
  pub pending_appends : List (ℕ × D)
  pub pending_append_results : List (AppendResult D)

module _ {ℓ} {D : Type ℓ} where
  -- The constructor.
  unfoldable pub new_producer : ℕ → ℕ → ℕ → List ℕ → ℕ → ℕ → Core (Producer D)
  new_producer storage_shard_id view_id sequencer_id shard_ids metalog_position next_start_id =
      let p : Producer D = record {
        next_localid = join_two32 storage_shard_id next_start_id;
        pending_appends = [];
        pending_append_results = [];
      } in
      record (add_interested_shard storage_shard_id
        (new_core log_producer view_id sequencer_id shard_ids p)) {
          metalog_position = metalog_position;
          state = normal;
        }

  -- The localid and the next sequence number go to the caller.
  unfoldable pub local_append : D → Core (Producer D) → Core (Producer D) × ℕ × ℕ
  local_append caller_data c =
      let p = c.derived in
      let p' : Producer D = record p {
        pending_appends = put p.next_localid caller_data p.pending_appends;
        next_localid = (p.next_localid + 1) % 2 ^ 64;
      } in
      (record c { derived = p' }, p.next_localid, global_seqnum_position c)

  unfoldable pub poll_append_results : Producer D → List (AppendResult D) × Producer D
  poll_append_results p = (p.pending_append_results, record p { pending_append_results = [] })

  -- The loop of `OnNewLogs`, with the rounds left.
  unfoldable pub complete_appends : ℕ → ℕ → ℕ → ℕ → Producer D → Outcome (Producer D)
  complete_appends progress seqnum localid zero p = ok p
  complete_appends progress seqnum localid (suc n) p = do
    caller ← at_or_fatal (find? localid p.pending_appends)
    let r : AppendResult D = record {
      seqnum = seqnum;
      localid = localid;
      metalog_progress = progress;
      caller_data = caller;
    }
    let p' : Producer D = record p {
      pending_append_results = p.pending_append_results ++ r ∷ [];
      pending_appends = erase localid p.pending_appends;
    }
    complete_appends progress ((seqnum + 1) % 2 ^ 64) ((localid + 1) % 2 ^ 64) n p'

  unfoldable pub producer_on_new_logs : Core (Producer D) → ℕ → ℕ → ℕ → ℕ → ℕ → Outcome (Producer D)
  producer_on_new_logs c metalog_seqnum start_seqnum start_localid delta shard =
      complete_appends (join_two32 (identifier c) ((metalog_seqnum + 1) % 2 ^ 32)) start_seqnum
        start_localid delta c.derived

  unfoldable pub discarded : List (ℕ × D) → List (AppendResult D)
  discarded [] = []
  discarded ((localid, caller_data) ∷ rest) =
      record {
        seqnum = invalid_log_seqnum;
        localid = localid;
        metalog_progress = 0;
        caller_data = caller_data;
      }
      ∷ discarded rest

  unfoldable pub producer_on_finalized : Core (Producer D) → ℕ → Outcome (Producer D)
  producer_on_finalized c metalog_position =
      let p = c.derived in
      ok (record p {
        pending_append_results = p.pending_append_results ++ discarded p.pending_appends;
        pending_appends = [];
      })

  abbrev pub producer_hooks : Hooks (Producer D)
  producer_hooks = record {
    on_new_logs = producer_on_new_logs;
    on_new_cuts = λ c _. ok c.derived;
    on_trim = λ c _ _ _ _. ok c.derived;
    on_meta_log_applied = λ c _. ok c.derived;
    on_finalized = producer_on_finalized;
  }
