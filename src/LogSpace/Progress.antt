-- ===== src/LogSpace/Progress.antt =====
-- What one applied meta log moves, and the rounds of `AdvanceMetaLogProgress`
-- (src/log/log_space_base.cpp).
use ixe.Prelude.{
  ℕ, ◌+◌, ◌%◌, ◌^◌, ◌≤◌, ◌≡◌, ◌∙◌, false, ◌&&◌, not, List, [], ◌∷◌, arith, ltb, ok, >>=-eq-ok, ◌≢◌,
}
use ixe.Prelude.Maps.{put, insert}
use ixe.LogSpace.Data.{full_mode, new_logs, MetaLog}
use ixe.LogSpace.Base.{
  no_hooks, Core, Space, Hooks, is_trim, is_full, apply_shard, apply_shards, apply_new_logs,
  apply_suffix, apply_trim, apply_meta_log, apply_next, advance_meta_log_progress, provide_meta_log,
}

module _ {ℓ} {S : Type ℓ} (h : Hooks S) where
  -- Applying an entry moves the position just past it.
  pub position-apply_next :
      (m : MetaLog) (c c' : Core S)
      → apply_next h m c ≡ ok c'
      → c'.metalog_position ≡ (m.metalog_seqnum + 1) % 2 ^ 32
  unfolding apply_next
  position-apply_next m c c' e =
      let (c₁, e₁, f₁) = >>=-eq-ok (apply_meta_log h m c) _ e in
      let (s, e₂, f₂) = >>=-eq-ok (h.on_meta_log_applied _ m) _ f₁ in ground arith

  mode-apply_shard :
      (seqnum i b d start : ℕ) (c c' : Core S)
      → apply_shard h seqnum c i b d start ≡ ok c'
      → c'.mode ≡ c.mode
  unfolding apply_shard
  mode-apply_shard seqnum i b d start c c' e = ground arith

  mode-apply_shards :
      (seqnum : ℕ) (ids starts deltas : List ℕ) (start : ℕ) (c : Core S) (r : Core S × ℕ)
      → apply_shards h seqnum c ids starts deltas start ≡ ok r
      → r.0.mode ≡ c.mode
  unfolding apply_shards
  mode-apply_shards seqnum [] starts deltas start c r e = ground arith
  mode-apply_shards seqnum (i ∷ ids) [] deltas start c r e = cc
  mode-apply_shards seqnum (i ∷ ids) (b ∷ starts) [] start c r e = cc
  mode-apply_shards seqnum (i ∷ ids) (b ∷ starts) (d ∷ deltas) start c r e =
      let (c', e', f) = >>=-eq-ok (apply_shard h seqnum c i b d start) _ e in
      mode-apply_shards seqnum ids starts deltas ((start + d) % 2 ^ 32) c' r f
      ∙ mode-apply_shard seqnum i b d start c c' e'

  mode-apply_new_logs :
      (m : MetaLog) (c c' : Core S) → apply_new_logs h m c ≡ ok c' → c'.mode ≡ c.mode
  unfolding apply_new_logs
  mode-apply_new_logs m c c' e =
      let n = m.new_logs_proto in
      let (r, e', f) =
        >>=-eq-ok
          (apply_shards h m.metalog_seqnum c n.shard_ids n.shard_starts n.shard_deltas
            n.start_seqnum)
          _ e in
      let g =
        mode-apply_shards m.metalog_seqnum n.shard_ids n.shard_starts n.shard_deltas n.start_seqnum
          c r e' in
      ground arith

  pub mode-apply_meta_log :
      (m : MetaLog) (c c' : Core S) → apply_meta_log h m c ≡ ok c' → c'.mode ≡ c.mode
  unfolding apply_meta_log apply_suffix apply_trim
  mode-apply_meta_log m c c' e = ground (arith, mode-apply_new_logs m c c')

  pub mode-apply_next : (m : MetaLog) (c c' : Core S) → apply_next h m c ≡ ok c' → c'.mode ≡ c.mode
  unfolding apply_next
  mode-apply_next m c c' e =
      let (c₁, e₁, f₁) = >>=-eq-ok (apply_meta_log h m c) _ e in
      let g = mode-apply_meta_log m c c₁ e₁ in ground arith

  -- The three ways of a round of `advance_meta_log_progress`.
  pub advance_now :
      (k : ℕ) (m : MetaLog) (rest : List (ℕ × MetaLog)) (c c' : Core S)
      → c.metalog_position ≤ k
      → m.metalog_seqnum ≡ c.metalog_position
      → apply_next h m c ≡ ok c'
      → advance_meta_log_progress h c ((k, m) ∷ rest) ≡ advance_meta_log_progress h c' rest
  unfolding advance_meta_log_progress
  advance_now k m rest c c' p q e = ground arith

  pub advance_stop :
      (k : ℕ) (m : MetaLog) (rest : List (ℕ × MetaLog)) (c : Core S)
      → c.metalog_position ≤ k
      → m.metalog_seqnum ≢ c.metalog_position
      → advance_meta_log_progress h c ((k, m) ∷ rest)
        ≡ ok (record { core = c; pending_metalogs = (k, m) ∷ rest })
  unfolding advance_meta_log_progress
  advance_stop k m rest c p q = ground arith

  -- A meta log that is neither dropped nor old goes into the pending ones, which then advance.
  pub provide_advance :
      (m : MetaLog) (k : ℕ) (s s' : Space S)
      → m.metalog_seqnum ≡ k
      → (is_trim m.kind && not (is_full s.core.mode)) ≡ false
      → s.core.metalog_position ≤ k
      → advance_meta_log_progress h s.core (insert k m s.pending_metalogs) ≡ ok s'
      → provide_meta_log h m s ≡ ok (s', ltb s.core.metalog_position s'.core.metalog_position)
  unfolding provide_meta_log
  provide_advance m k s s' q t p e = rw (t, q) (ground (arith, e))

  -- In mode `full_mode` a `NEW_LOGS` goes through the loop over its shards.
  pub apply_meta_log_full :
      (m : MetaLog) (c : Core S)
      → c.mode ≡ full_mode
      → m.kind ≡ new_logs
      → apply_meta_log h m c ≡ apply_new_logs h m c
  unfolding apply_meta_log
  apply_meta_log_full m c full kind = ground (arith, full, kind)

pub apply_shard_plain {ℓ} :
    {S : Type ℓ} (seqnum : ℕ) (c : Core S) (i b d start : ℕ)
    → apply_shard no_hooks seqnum c i b d start
      ≡ ok (record c { shard_progresses = put (i % 2 ^ 16) ((b + d) % 2 ^ 32) c.shard_progresses })
unfolding apply_shard
apply_shard_plain seqnum c i b d start = ground arith
