-- ===== src/LogSpace/Primary/MarkCut.antt =====
-- `MarkNextCut` of src/log/log_space.cpp.
use ixe.Prelude.{
  ℕ, ◌+◌, ◌%◌, ◌^◌, ◌<◌, ◌≡◌, refl, sym, ap, ap₂, subst, ◌∙◌, true, false, List, [], ◌∷◌, ◌++◌,
  elem, arith, ltb, if◌then◌else◌, Outcome, ok, ◌>>=◌, some, none, Option, inl, inr, Bool-cases,
}
use ixe.Prelude.Maps.{put, insert}
use ixe.Bits.{join_two16, join_two16-lt, join_two32_lem, low_half64}
use ixe.LogSpace.Data.{MetaLog, full_mode}
use ixe.LogSpace.Base.{
  Core, Space, no_hooks, is_full, identifier, global_seqnum_position, apply_shards, apply_new_logs,
  apply_meta_log, apply_next, advance_meta_log_progress, provide_meta_log,
}
use ixe.LogSpace.Progress.{apply_shard_plain, apply_meta_log_full, provide_advance, advance_now}
use ixe.LogSpace.Primary.{
  Primary, Cut, get_shard_replicated_position, cut_shards, cut_meta_log, after_cut, cut_now,
  mark_next_cut,
}
use ixe.LogSpace.Primary.CutShards.{IsCut, sum, Advances, cut_shards_lem}
use ixe.LogSpace.Primary.Durable.{Distinct, IsDurable}

start_lem :
    (c : Core Primary)
    → c.seqnum_position < 2 ^ 32
    → low_half64 (global_seqnum_position c) ≡ c.seqnum_position
unfolding low_half64 global_seqnum_position identifier
start_lem c h = omega (
  arith,
  join_two32_lem (join_two16 c.view_id c.sequencer_id) c.seqnum_position
      (join_two16-lt c.view_id c.sequencer_id) h,
)

-- With the virtual methods of `LogSpaceBase` a cut goes through the loop of `NEW_LOGS`: nothing but the
-- progresses and the sequence numbers move.
apply_shards_plain :
    (p : Primary) (m : List (ℕ × ℕ)) (seqnum : ℕ) (c : Core Primary) (ks ids starts deltas : List ℕ)
    (start : ℕ)
    → start < 2 ^ 32
    → IsCut p m ks ids starts deltas
    → (ps : List (ℕ × ℕ)) × (apply_shards no_hooks seqnum c ids starts deltas start
        ≡ ok (record c { shard_progresses = ps }, (start + sum deltas) % 2 ^ 32))
unfolding apply_shards
apply_shards_plain p m seqnum c [] [] [] [] start b v =
    (c.shard_progresses, ap (λ e. ok (c, e)) (omega arith))
apply_shards_plain p m seqnum c (k ∷ ks) (i ∷ ids) (b ∷ starts) (d ∷ deltas) start h v =
    let ps = put (i % 2 ^ 16) ((b + d) % 2 ^ 32) c.shard_progresses in
    let (qs, e) =
      apply_shards_plain p m seqnum (record c { shard_progresses = ps }) ks ids starts deltas
        ((start + d) % 2 ^ 32) (omega arith) v.4 in
    (
      qs,
      rw (apply_shard_plain seqnum c i b d start)
          (e ∙ ap (λ n. ok (record c { shard_progresses = qs }, n)) (omega arith)),
    )
apply_shards_plain p m seqnum c [] [] [] (d ∷ deltas) start h v = absurd v
apply_shards_plain p m seqnum c [] [] (b ∷ starts) deltas start h v = absurd v
apply_shards_plain p m seqnum c [] (i ∷ ids) starts deltas start h v = absurd v
apply_shards_plain p m seqnum c (j ∷ ks) [] starts deltas start h v = absurd v
apply_shards_plain p m seqnum c (j ∷ ks) (i ∷ ids) [] deltas start h v = absurd v
apply_shards_plain p m seqnum c (j ∷ ks) (i ∷ ids) (b ∷ starts) [] start h v = absurd v

-- A log space that a `MetaLogPrimary` cuts: nothing waits, and the numbers have room.
pub record IsReady (s : Space Primary) : Type 0 where
  pub mode : s.core.mode ≡ full_mode
  pub pending : s.pending_metalogs ≡ []
  pub position : s.core.metalog_position + 1 < 2 ^ 32
  pub seqnum : s.core.seqnum_position < 2 ^ 32

abbrev cut_space : Space Primary → Cut → List (ℕ × ℕ) → Space Primary
cut_space s cut ps = record {
  core = record (after_cut s cut).core {
    shard_progresses = ps;
    seqnum_position = (s.core.seqnum_position + sum cut.deltas) % 2 ^ 32;
    applied_metalogs = s.core.applied_metalogs ++ cut_meta_log s.core cut ∷ [];
    metalog_position = s.core.metalog_position + 1;
  };
  pending_metalogs = [];
}

apply_new_logs_plain :
    (m : MetaLog) (c : Core Primary) (ps : List (ℕ × ℕ)) (next : ℕ)
    → apply_shards no_hooks m.metalog_seqnum c m.new_logs_proto.shard_ids
        m.new_logs_proto.shard_starts m.new_logs_proto.shard_deltas m.new_logs_proto.start_seqnum
      ≡ ok (record c { shard_progresses = ps }, next)
    → apply_new_logs no_hooks m c ≡ ok (record c { shard_progresses = ps; seqnum_position = next })
unfolding apply_new_logs
apply_new_logs_plain m c ps next e = rw e refl

apply_next_full :
    (m : MetaLog) (c d : Core Primary)
    → d.mode ≡ full_mode
    → apply_meta_log no_hooks m c ≡ ok d
    → apply_next no_hooks m c
      ≡ ok (record d {
        applied_metalogs = d.applied_metalogs ++ m ∷ [];
        metalog_position = (m.metalog_seqnum + 1) % 2 ^ 32;
      })
unfolding apply_next
apply_next_full m c d full e = rw e (
    ap
      (λ b. ok (record d {
        applied_metalogs = if b then d.applied_metalogs ++ m ∷ [] else d.applied_metalogs;
        metalog_position = (m.metalog_seqnum + 1) % 2 ^ 32;
      }))
      (ap is_full full))

cut_runs :
    (s : Space Primary) (cut : Cut) (ks : List ℕ)
    → IsReady s
    → IsCut s.core.derived s.core.derived.last_cut ks cut.ids cut.starts cut.deltas
    → (ps : List (ℕ × ℕ)) × (apply_next no_hooks (cut_meta_log s.core cut) (after_cut s cut).core
        ≡ ok (cut_space s cut ps).core)
cut_runs s cut ks v c =
    let m = cut_meta_log s.core cut in
    let here = start_lem s.core v.seqnum in
    let start = low_half64 (global_seqnum_position s.core) in
    let (ps, e) =
      apply_shards_plain s.core.derived s.core.derived.last_cut s.core.metalog_position
        (after_cut s cut).core ks cut.ids cut.starts cut.deltas start
        (omega (arith, here, v.seqnum)) c in
    let next = (start + sum cut.deltas) % 2 ^ 32 in
    let d : Core Primary = record (after_cut s cut).core {
      shard_progresses = ps;
      seqnum_position = next;
    } in
    let loop =
      apply_meta_log_full no_hooks m (after_cut s cut).core v.mode refl
      ∙ apply_new_logs_plain m (after_cut s cut).core ps next e in
    (
      ps,
      apply_next_full m (after_cut s cut).core d v.mode loop
          ∙ ap₂
              (λ n p.
                ok (record (cut_space s cut ps).core { seqnum_position = n; metalog_position = p }))
              (ap (λ n. (n + sum cut.deltas) % 2 ^ 32) here) (omega (arith, v.position)),
    )

cut_moves :
    (s : Space Primary) (cut : Cut) (ps : List (ℕ × ℕ))
    → IsReady s
    → apply_next no_hooks (cut_meta_log s.core cut) (after_cut s cut).core
      ≡ ok (cut_space s cut ps).core
    → provide_meta_log no_hooks (cut_meta_log s.core cut) (after_cut s cut)
      ≡ ok (cut_space s cut ps, ltb s.core.metalog_position (s.core.metalog_position + 1))
unfolding insert advance_meta_log_progress
cut_moves s cut ps v e =
    let m = cut_meta_log s.core cut in
    let k = s.core.metalog_position in
    let c = (after_cut s cut).core in
    provide_advance no_hooks m k (after_cut s cut) (cut_space s cut ps) refl refl (omega arith) (
      ap (λ w. advance_meta_log_progress no_hooks c (insert k m w)) v.pending
      ∙ advance_now no_hooks k m [] c (cut_space s cut ps).core (omega arith) refl e)

cut_now_lem :
    (s : Space Primary) (cut : Cut) (ps : List (ℕ × ℕ))
    → IsReady s
    → apply_next no_hooks (cut_meta_log s.core cut) (after_cut s cut).core
      ≡ ok (cut_space s cut ps).core
    → cut_now s cut ≡ ok (some (cut_meta_log s.core cut), cut_space s cut ps)
cut_now_lem s cut ps v e =
    let moved : ltb s.core.metalog_position (s.core.metalog_position + 1) ≡ true = ground arith in
    rw (cut_moves s cut ps v e) (rw moved refl)

-- What `MarkNextCut` promises of the meta log it makes and of the log space it leaves.
pub record Marked (s : Space Primary) (m : MetaLog) (s' : Space Primary) : Type 0 where
  pub runs : mark_next_cut s ≡ ok (some m, s')
  pub cuts :
      IsCut s.core.derived s.core.derived.last_cut s.core.derived.dirty_shards
        m.new_logs_proto.shard_ids m.new_logs_proto.shard_starts m.new_logs_proto.shard_deltas
  pub advances :
      Advances s.core.derived s.core.derived.last_cut s.core.derived.dirty_shards
        s'.core.derived.last_cut
  pub start : m.new_logs_proto.start_seqnum ≡ s.core.seqnum_position
  pub end :
      s'.core.seqnum_position
      ≡ (s.core.seqnum_position + sum m.new_logs_proto.shard_deltas) % 2 ^ 32
  pub position : s'.core.metalog_position ≡ s.core.metalog_position + 1
  pub kept : s'.core.applied_metalogs ≡ s.core.applied_metalogs ++ m ∷ []
  pub clean : s'.core.derived ≡ record s.core.derived {
    last_cut = s'.core.derived.last_cut;
    blocking_change = false;
    dirty_shards = [];
  }
  pub mode : s'.core.mode ≡ full_mode
  pub pending : s'.pending_metalogs ≡ []
  pub durable : IsDurable s'.core.derived

mark_runs :
    (s : Space Primary) (k : ℕ) (ks : List ℕ) (cut : Cut)
    → s.core.derived.dirty_shards ≡ k ∷ ks
    → cut_shards s.core.derived s.core.derived.last_cut (k ∷ ks) ≡ ok cut
    → mark_next_cut s ≡ cut_now s cut
unfolding mark_next_cut
mark_runs s k ks cut d e =
    ap
      (λ (w : List ℕ). elim w as (λ _. Outcome (Option MetaLog × Space Primary)) [
        | [] ↦ ok (none, s)
        | j ∷ js ↦
            cut_shards s.core.derived s.core.derived.last_cut (j ∷ js) >>= λ cut. cut_now s cut
      ])
      d
    ∙ ap (λ o. o >>= λ cut. cut_now s cut) e

some-injective : (a b : ℕ) → some a ≡ some b → a ≡ b
some-injective a b h = cc

-- Once the cuts are taken, the last cuts are still behind the storage nodes.
cut-IsDurable :
    (p : Primary) (ks : List ℕ) (after : List (ℕ × ℕ))
    → IsDurable p
    → Advances p p.last_cut ks after
    → IsDurable (record p { last_cut = after; blocking_change = false; dirty_shards = [] })
unfolding get_shard_replicated_position elem
cut-IsDurable p ks after v a = record {
  covered = λ k c f. elim (Bool-cases (elem k ks)) [
    | inl cut ↦ let (r, e, g) = (a k).0 cut in (r, e, omega (arith, some-injective _ _ (sym g ∙ f)))
    | inr kept ↦ v.covered k c (sym ((a k).1 kept) ∙ f)
  ];
  ahead = λ k h. cc;
  unblocked = λ k h. cc;
  distinct = tt;
}

-- With a dirty shard `MarkNextCut` makes the next meta log. It cuts exactly the dirty shards, each at
-- the least progress of its storage nodes and past its last cut; the log space applies it at once;
-- and the last cuts still do not run ahead of the storage nodes.
pub mark_next_cut_lem :
    (s : Space Primary) (k : ℕ) (ks : List ℕ)
    → IsReady s
    → IsDurable s.core.derived
    → s.core.derived.dirty_shards ≡ k ∷ ks
    → (m : MetaLog) × (s' : Space Primary) × Marked s m s'
mark_next_cut_lem s k ks ready v d =
    let p = s.core.derived in
    let (cut, e, c, a) =
      cut_shards_lem p p.last_cut (k ∷ ks) (subst Distinct d v.distinct)
        (λ j h. let (c, r, f, e, l) = v.ahead j (ap (elem j) d ∙ h) in (c, r, f, e, l)) in
    let (ps, runs) = cut_runs s cut (k ∷ ks) ready c in
    (
      cut_meta_log s.core cut,
      cut_space s cut ps,
      record {
        runs = mark_runs s k ks cut d e ∙ cut_now_lem s cut ps ready runs;
        cuts = subst (λ l. IsCut p p.last_cut l cut.ids cut.starts cut.deltas) (sym d) c;
        advances = subst (λ l. Advances p p.last_cut l cut.last_cut) (sym d) a;
        start = start_lem s.core ready.seqnum;
        end = refl;
        position = refl;
        kept = refl;
        clean = refl;
        mode = ready.mode;
        pending = refl;
        durable = cut-IsDurable p (k ∷ ks) cut.last_cut v a;
      },
    )
