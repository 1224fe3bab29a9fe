-- ===== src/LogSpace/Primary/Reach.antt =====
-- Every state that a `MetaLogPrimary` (src/log/log_space.cpp) gets to from its constructor.
use ixe.Prelude.{
  ℕ, ◌+◌, ◌-◌, ◌*◌, ◌^◌, ◌≤◌, ◌<◌, ◌≡◌, refl, sym, ap, subst, subst₂, ◌∙◌, true, false, ◌||◌, List,
  [], ◌∷◌, elem, arith, Option, none, some, ◌==◌, length, Outcome, ok, ◌>>=◌, >>=-eq-ok, require,
  ok-injective, inl, inr, ◌⊎◌, ℕ_discrete,
}
use ixe.Prelude.Maps.{find?, contains, put, find?-put, contains-put}
use ixe.Bits.{join_two16, low_half32}
use ixe.View.{
  View, Sequencer, StorageShard, get_storage_shard, get_sequencer_node, get_storage_node,
}
use ixe.LogSpace.Data.{MetaLog, full_mode}
use ixe.LogSpace.Base.{new_core, Core, Space}
use ixe.LogSpace.Primary.{
  Primary, put_zeros, accept_replica_progress, update_meta_log_replicated_position, check_shards,
  new_primary, block_shard, unblock_shard, min_progress, raise_shard, update_shard, update_shards,
  set_progress, get_shard_replicated_position, update_storage_progress, values,
  update_replica_progress, mark_next_cut, cut_shards, cut_now,
}
use ixe.LogSpace.Primary.Durable.{
  IsDurable, block_shard-IsDurable, unblock_shard-IsDurable, update_storage_progress-IsDurable,
}
use ixe.LogSpace.Primary.MarkCut.{IsReady, Marked, mark_next_cut_lem}
use ixe.LogSpace.Primary.Quorum.{
  length-values, put-UpTo, IsQuorate, count_from, AllUpTo, update_replica_progress_lem,
}

abbrev pub with_primary : Space Primary → Primary → Space Primary
with_primary s p = record s { core = record s.core { derived = p } }

-- The calls that a sequencer makes of its log space, in any order. A position and a number of the log
-- have 32 bits, and a cut is only made while the position has room.
pub data Step (s : Space Primary) : Space Primary → Type 0 where
  block : (k : ℕ) → Step s (with_primary s (block_shard k s.core.derived).0)
  unblock : (k : ℕ) → Step s (with_primary s (unblock_shard k s.core.derived).0)
  storage_report :
      (storage : ℕ) (progress : List ℕ) (p : Primary)
      → update_storage_progress storage progress s.core.derived ≡ ok p
      → Step s (with_primary s p)
  replica_report :
      (k position : ℕ) (p : Primary)
      → update_replica_progress s.core.metalog_position k position s.core.derived ≡ ok p
      → Step s (with_primary s p)
  cut :
      (m : Option MetaLog) (s' : Space Primary)
      → s.core.metalog_position + 1 < 2 ^ 32
      → mark_next_cut s ≡ ok (m, s')
      → Step s s'

pub data Reach (view : View) (sequencer_id : ℕ) : Space Primary → Type 0 where
  start :
      (c : Core Primary)
      → new_primary view sequencer_id ≡ ok c
      → Reach view sequencer_id (record { core = c; pending_metalogs = [] })
  next : {s s' : Space Primary} → Reach view sequencer_id s → Step s s' → Reach view sequencer_id s'

pub record IsSound (s : Space Primary) : Type 0 where
  pub mode : s.core.mode ≡ full_mode
  pub pending : s.pending_metalogs ≡ []
  pub seqnum : s.core.seqnum_position < 2 ^ 32
  pub durable : IsDurable s.core.derived
  pub quorate : IsQuorate s.core.metalog_position s.core.derived

-- What the other operations leave to `update_replica_progress`.
abbrev SameReplicas : Primary → Primary → Type 0
SameReplicas p q =
    (q.replicated_metalog_position ≡ p.replicated_metalog_position)
    × (q.metalog_progresses ≡ p.metalog_progresses)
    × (q.sequencer_node ≡ p.sequencer_node)

SameReplicas-IsQuorate :
    (position : ℕ) (p q : Primary) → SameReplicas p q → IsQuorate position p → IsQuorate position q
SameReplicas-IsQuorate position p q h v = record {
  majority =
      subst₂ (λ r m. length m + 1 < 2 * (1 + count_from r (values m))) (sym h.0) (sym h.1)
        v.majority;
  bounded = subst (λ r. r ≤ position) (sym h.0) v.bounded;
  reached = subst (λ m. AllUpTo position (values m)) (sym h.1) v.reached;
  known = λ k e.
      ap (contains k) h.1 ∙ v.known k (ap (λ n. elem k n.replica_sequencer_nodes) (sym h.2) ∙ e);
}

block_shard-SameReplicas : (k : ℕ) (p : Primary) → SameReplicas p (block_shard k p).0
unfolding block_shard
block_shard-SameReplicas k p = ground arith

unblock_shard-SameReplicas : (k : ℕ) (p : Primary) → SameReplicas p (unblock_shard k p).0
unfolding unblock_shard
unblock_shard-SameReplicas k p = ground arith

raise_shard-SameReplicas :
    (shard : ℕ) (p q : Primary) → raise_shard shard p ≡ ok q → SameReplicas p q
unfolding raise_shard
raise_shard-SameReplicas shard p q e = ground arith

update_shard-SameReplicas :
    (storage shard n : ℕ) (p q : Primary) → update_shard storage shard n p ≡ ok q → SameReplicas p q
unfolding update_shard
update_shard-SameReplicas storage shard n p q e =
    let r = record p { shard_progresses = set_progress shard storage n p.shard_progresses } in
    let h = raise_shard-SameReplicas shard r q in ground arith

update_shards-SameReplicas :
    (storage : ℕ) (gs vs : List ℕ) (p q : Primary)
    → update_shards storage gs vs p ≡ ok q
    → SameReplicas p q
unfolding update_shards
update_shards-SameReplicas storage [] vs p q e = ground arith
update_shards-SameReplicas storage (g ∷ gs) [] p q e = ground arith
update_shards-SameReplicas storage (g ∷ gs) (n ∷ vs) p q e =
    let (t, e₁, f) = >>=-eq-ok (update_shard storage (low_half32 g) n p) _ e in
    let a = update_shard-SameReplicas storage (low_half32 g) n p t e₁ in
    let b = update_shards-SameReplicas storage gs vs t q f in (b.0 ∙ a.0, b.1 ∙ a.1, b.2 ∙ a.2)

update_storage_progress-SameReplicas :
    (storage : ℕ) (progress : List ℕ) (p q : Primary)
    → update_storage_progress storage progress p ≡ ok q
    → SameReplicas p q
unfolding update_storage_progress
update_storage_progress-SameReplicas storage progress p q e =
    let (node, e₁, f) = >>=-eq-ok (get_storage_node p.view storage) _ e in
    let (u, e₂, g) = >>=-eq-ok (require (length progress == length node.storage_shard_ids)) _ f in
    update_shards-SameReplicas storage node.storage_shard_ids progress p q g

find?-put_zeros :
    (k c : ℕ) (ks : List ℕ) (m : List (ℕ × ℕ))
    → find? k (put_zeros ks m) ≡ some c
    → (elem k ks ≡ true × c ≡ 0) ⊎ (find? k m ≡ some c)
unfolding put_zeros elem
find?-put_zeros k c [] m h = inr h
find?-put_zeros k c (j ∷ ks) m h = elim (find?-put_zeros k c ks (put j 0 m) h) [
  | inl (e, z) ↦ inl (ground arith, z)
  | inr f ↦ ground (arith, find?-put j k 0 m)
]

contains-put_zeros :
    (k : ℕ) (ks : List ℕ) (m : List (ℕ × ℕ))
    → contains k (put_zeros ks m) ≡ (elem k ks || contains k m)
unfolding put_zeros elem
contains-put_zeros k [] m = refl
contains-put_zeros k (j ∷ ks) m =
    ground (arith, contains-put_zeros k ks (put j 0 m), contains-put j k 0 m)

check_shards-ok :
    (view : View) (sequencer_id : ℕ) (ks : List ℕ) (k : ℕ)
    → check_shards view sequencer_id ks ≡ ok tt
    → elem k ks ≡ true
    → (unit : StorageShard) × (get_storage_shard view (join_two16 sequencer_id k) ≡ ok unit)
unfolding check_shards elem
check_shards-ok view sequencer_id [] k h e = cc
check_shards-ok view sequencer_id (j ∷ ks) k h e =
    let (unit, f, g) = >>=-eq-ok (get_storage_shard view (join_two16 sequencer_id j)) _ h in
    elim (ℕ_discrete j k) [
      | yes same ↦
          (unit, ap (λ i. get_storage_shard view (join_two16 sequencer_id i)) (sym same) ∙ f)
      | no other ↦ check_shards-ok view sequencer_id ks k g (ground arith)
    ]

put_zeros-zeros :
    (ks : List ℕ) (m : List (ℕ × ℕ)) → AllUpTo 0 (values m) → AllUpTo 0 (values (put_zeros ks m))
unfolding put_zeros
put_zeros-zeros [] m a = a
put_zeros-zeros (k ∷ ks) m a = put_zeros-zeros ks (put k 0 m) (put-UpTo 0 k 0 m (omega arith) a)

count_from-zero : (l : List ℕ) → count_from 0 l ≡ length l
count_from-zero [] = refl
count_from-zero (y ∷ ys) = ground (arith, count_from-zero ys)

-- The state that the constructor makes for the node.
abbrev started : View → Sequencer → Primary
started view node = record {
  view = view;
  sequencer_node = node;
  dirty_shards = [];
  last_cut = put_zeros node.storage_shard_ids [];
  shard_progresses = λ shard storage. 0;
  unblocked_shards = [];
  blocking_change = false;
  metalog_progresses = put_zeros node.replica_sequencer_nodes [];
  replicated_metalog_position = 0;
}

started-IsDurable :
    (view : View) (node : Sequencer)
    → check_shards view node.node_id node.storage_shard_ids ≡ ok tt
    → IsDurable (started view node)
unfolding get_shard_replicated_position elem find?
started-IsDurable view node h = record {
  covered = λ k c f. elim (find?-put_zeros k c node.storage_shard_ids [] f) [
    | inl (e, z) ↦
        let (unit, u) = check_shards-ok view node.node_id node.storage_shard_ids k h e in
        (min_progress (λ storage. 0) (2 ^ 32 - 1) unit.storage_nodes, rw u, omega arith)
    | inr n ↦ cc
  ];
  ahead = λ k e. cc;
  unblocked = λ k e. cc;
  distinct = tt;
}

started-IsQuorate : (view : View) (node : Sequencer) → IsQuorate 0 (started view node)
unfolding values
started-IsQuorate view node =
    let m = put_zeros node.replica_sequencer_nodes [] in
    record {
      majority = omega (arith, count_from-zero (values m), length-values m);
      bounded = omega arith;
      reached = put_zeros-zeros node.replica_sequencer_nodes [] tt;
      known = λ k e.
          contains-put_zeros k node.replica_sequencer_nodes []
          ∙ ap (λ b. b || contains {V = ℕ} k []) e;
    }

new_primary-IsSound :
    (view : View) (sequencer_id : ℕ) (c : Core Primary)
    → ((node : Sequencer)
        → get_sequencer_node view sequencer_id ≡ ok node
        → node.node_id ≡ sequencer_id)
    → new_primary view sequencer_id ≡ ok c
    → IsSound (record { core = c; pending_metalogs = [] })
unfolding new_primary new_core
new_primary-IsSound view sequencer_id c named e =
    let (node, e₁, f) = >>=-eq-ok (get_sequencer_node view sequencer_id) _ e in
    let (u, e₂, g) = >>=-eq-ok (check_shards view sequencer_id node.storage_shard_ids) _ f in
    let checked =
      subst (λ i. check_shards view i node.storage_shard_ids ≡ ok tt) (sym (named node e₁)) e₂ in
    subst (λ d. IsSound (record { core = d; pending_metalogs = [] })) (ok-injective _ c g)
      (record {
        mode = refl;
        pending = refl;
        seqnum = omega arith;
        durable = started-IsDurable view node checked;
        quorate = started-IsQuorate view node;
      })

replica_report-shape :
    (position k v : ℕ) (p q : Primary)
    → update_replica_progress position k v p ≡ ok q
    → record p {
      metalog_progresses = q.metalog_progresses;
      replicated_metalog_position = q.replicated_metalog_position;
    }
      ≡ q
unfolding update_replica_progress accept_replica_progress update_meta_log_replicated_position
replica_report-shape position k v p q e = ground arith

replica_report-IsDurable :
    (r : ℕ) (m : List (ℕ × ℕ)) (p : Primary)
    → IsDurable p
    → IsDurable (record p { metalog_progresses = m; replicated_metalog_position = r })
unfolding get_shard_replicated_position
replica_report-IsDurable r m p v = record {
  covered = v.covered;
  ahead = v.ahead;
  unblocked = v.unblocked;
  distinct = v.distinct;
}

replica_report-accepted :
    (position k v : ℕ) (p q : Primary)
    → update_replica_progress position k v p ≡ ok q
    → (elem k p.sequencer_node.replica_sequencer_nodes ≡ true) × (v ≤ position)
unfolding update_replica_progress
replica_report-accepted position k v p q e = ground arith

replica_report_lem :
    (position k v : ℕ) (p q : Primary)
    → update_replica_progress position k v p ≡ ok q
    → IsDurable p
    → IsQuorate position p
    → IsDurable q × IsQuorate position q
replica_report_lem position k v p q e d w =
    let (replica, le) = replica_report-accepted position k v p q e in
    let (q', e', w', up, old, new) = update_replica_progress_lem position k v p w replica le in
    (
      subst IsDurable (replica_report-shape position k v p q e)
          (replica_report-IsDurable q.replicated_metalog_position q.metalog_progresses p d),
      subst (IsQuorate position) (ok-injective q' q (sym e' ∙ e)) w',
    )

AllUpTo-suc : (top : ℕ) (l : List ℕ) → AllUpTo top l → AllUpTo (top + 1) l
AllUpTo-suc top [] a = tt
AllUpTo-suc top (y ∷ ys) a = (omega (arith, a.0), AllUpTo-suc top ys a.1)

mark_next_cut-clean :
    (s : Space Primary) → s.core.derived.dirty_shards ≡ [] → mark_next_cut s ≡ ok (none, s)
unfolding mark_next_cut
mark_next_cut-clean s d =
    ap
      (λ (w : List ℕ). elim w as (λ _. Outcome (Option MetaLog × Space Primary)) [
        | [] ↦ ok (none, s)
        | j ∷ js ↦
            cut_shards s.core.derived s.core.derived.last_cut (j ∷ js) >>= λ cut. cut_now s cut
      ])
      d

Marked-IsSound : (s s' : Space Primary) (m : MetaLog) → IsSound s → Marked s m s' → IsSound s'
Marked-IsSound s s' m v w = record {
  mode = w.mode;
  pending = w.pending;
  seqnum = omega (arith, w.end);
  durable = w.durable;
  quorate = subst₂ IsQuorate (sym w.position) (sym w.clean) (record {
    majority = v.quorate.majority;
    bounded = omega (arith, v.quorate.bounded);
    reached =
        AllUpTo-suc s.core.metalog_position (values s.core.derived.metalog_progresses)
          v.quorate.reached;
    known = v.quorate.known;
  });
}

cut-IsSound :
    (s s' : Space Primary) (m : Option MetaLog) (dirty : List ℕ)
    → IsSound s
    → s.core.metalog_position + 1 < 2 ^ 32
    → s.core.derived.dirty_shards ≡ dirty
    → mark_next_cut s ≡ ok (m, s')
    → IsSound s'
cut-IsSound s s' m [] v room d e =
    subst (λ (r : Option MetaLog × Space Primary). IsSound r.1)
      (ok-injective (none, s) (m, s') (sym (mark_next_cut-clean s d) ∙ e)) v
cut-IsSound s s' m (k ∷ ks) v room d e =
    let ready : IsReady s = record {
      mode = v.mode;
      pending = v.pending;
      position = room;
      seqnum = v.seqnum;
    } in
    let (n, t, w) = mark_next_cut_lem s k ks ready v.durable d in
    subst (λ (r : Option MetaLog × Space Primary). IsSound r.1)
      (ok-injective (some n, t) (m, s') (sym w.runs ∙ e)) (Marked-IsSound s t n v w)

with_primary-IsSound :
    (s : Space Primary) (p : Primary)
    → IsSound s
    → IsDurable p
    → IsQuorate s.core.metalog_position p
    → IsSound (with_primary s p)
with_primary-IsSound s p v d q = record {
  mode = v.mode;
  pending = v.pending;
  seqnum = v.seqnum;
  durable = d;
  quorate = q;
}

Step-IsSound : (s s' : Space Primary) → IsSound s → Step s s' → IsSound s'
Step-IsSound s _ v (block k) =
    let p = s.core.derived in
    with_primary-IsSound s (block_shard k p).0 v (block_shard-IsDurable k p v.durable) (
      SameReplicas-IsQuorate s.core.metalog_position p (block_shard k p).0
        (block_shard-SameReplicas k p) v.quorate)
Step-IsSound s _ v (unblock k) =
    let p = s.core.derived in
    with_primary-IsSound s (unblock_shard k p).0 v (unblock_shard-IsDurable k p v.durable) (
      SameReplicas-IsQuorate s.core.metalog_position p (unblock_shard k p).0
        (unblock_shard-SameReplicas k p) v.quorate)
Step-IsSound s _ v (storage_report storage progress p e) =
    let d = s.core.derived in
    with_primary-IsSound s p v (update_storage_progress-IsDurable storage progress d p e v.durable)
      (SameReplicas-IsQuorate s.core.metalog_position d p
        (update_storage_progress-SameReplicas storage progress d p e) v.quorate)
Step-IsSound s _ v (replica_report k position p e) =
    let both =
      replica_report_lem s.core.metalog_position k position s.core.derived p e v.durable
        v.quorate in
    with_primary-IsSound s p v both.0 both.1
Step-IsSound s s' v (cut m t room e) = cut-IsSound s s' m s.core.derived.dirty_shards v room refl e

-- In every state that the calls lead to from the constructor: no storage node is behind the last cut
-- of one of its shards, the dirty shards are unblocked and ahead of their last cuts, and the
-- replicated position of the meta log is one that more than half of the sequencers have. The
-- condition is that the view lists the sequencer under its own id.
pub Reach-IsSound :
    (view : View) (sequencer_id : ℕ) (s : Space Primary)
    → ((node : Sequencer)
        → get_sequencer_node view sequencer_id ≡ ok node
        → node.node_id ≡ sequencer_id)
    → Reach view sequencer_id s
    → IsSound s
Reach-IsSound view sequencer_id _ named (start c e) =
    new_primary-IsSound view sequencer_id c named e
Reach-IsSound view sequencer_id s named (next {s = s₀} r step) =
    Step-IsSound s₀ s (Reach-IsSound view sequencer_id s₀ named r) step
