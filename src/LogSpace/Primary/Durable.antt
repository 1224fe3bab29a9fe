-- ===== src/LogSpace/Primary/Durable.antt =====
-- The cuts of a `MetaLogPrimary` (src/log/log_space.cpp) never run ahead of the storage nodes.
use ixe.Prelude.{
  ℕ, ◌-◌, ◌^◌, ◌≤◌, ◌<◌, ◌≡◌, refl, sym, ap, ◌∙◌, min, true, false, ◌||◌, List, [], ◌∷◌, elem,
  arith, ltb, ◌==◌, ok, >>=-eq-ok, ok-injective, at_or_fatal, some, require, length, ℕ_discrete,
  inl, inr, not, ◌&&◌, subst, Bool-cases, Option-cases, ltb→lt,
}
use ixe.Prelude.Maps.{find?}
use ixe.Bits.{join_two16, low_half32}
use ixe.View.{StorageShard, get_storage_shard, get_storage_node}
use ixe.LogSpace.Primary.{
  Primary, set_insert, set_erase, block_shard, unblock_shard, min_progress,
  get_shard_replicated_position, set_progress, raise_shard, update_shard, update_shards,
  update_storage_progress,
}

pub min_progress-le_acc : (f : ℕ → ℕ) (acc : ℕ) (ks : List ℕ) → min_progress f acc ks ≤ acc
unfolding min_progress
min_progress-le_acc f acc [] = omega arith
min_progress-le_acc f acc (k ∷ ks) = omega (arith, min_progress-le_acc f (min acc (f k)) ks)

min_progress-le :
    (f : ℕ → ℕ) (acc : ℕ) (ks : List ℕ) (k : ℕ) → elem k ks ≡ true → min_progress f acc ks ≤ f k
unfolding min_progress elem
min_progress-le f acc [] k h = cc
min_progress-le f acc (j ∷ ks) k h = elim (ℕ_discrete j k) [
  | yes e ↦ omega (arith, min_progress-le_acc f (min acc (f j)) ks, ap f e)
  | no ne ↦ min_progress-le f (min acc (f j)) ks k (ground arith)
]

min_progress_mono :
    (f g : ℕ → ℕ) (a b : ℕ) (ks : List ℕ)
    → a ≤ b
    → ((k : ℕ) → f k ≤ g k)
    → min_progress f a ks ≤ min_progress g b ks
unfolding min_progress
min_progress_mono f g a b [] h m = h
min_progress_mono f g a b (k ∷ ks) h m =
    min_progress_mono f g (min a (f k)) (min b (g k)) ks (omega (arith, m k)) m

-- The shard's storage nodes all hold its records up to `r`, and `r` is the most of which that is so.
abbrev pub Replicated : Primary → ℕ → ℕ → Type 0
Replicated p k r = get_shard_replicated_position p k ≡ ok r

abbrev pub Distinct : List ℕ → Type 0
Distinct [] = Unit {0}
Distinct (k ∷ ks) = (elem k ks ≡ false) × Distinct ks

pub record IsDurable (p : Primary) : Type 0 where
  pub covered : (k c : ℕ) → find? k p.last_cut ≡ some c → (r : ℕ) × Replicated p k r × (c ≤ r)
  pub ahead :
      (k : ℕ)
      → elem k p.dirty_shards ≡ true
      → (c : ℕ) × (r : ℕ) × (find? k p.last_cut ≡ some c) × Replicated p k r × (c < r)
  pub unblocked : (k : ℕ) → elem k p.dirty_shards ≡ true → elem k p.unblocked_shards ≡ true
  pub distinct : Distinct p.dirty_shards

set_progress-le :
    (shard storage n : ℕ) (f : ℕ → ℕ → ℕ) (i j : ℕ)
    → f shard storage < n
    → f i j ≤ set_progress shard storage n f i j
set_progress-le shard storage n f i j h = ground arith

Replicated-mono :
    (p q : Primary) (k r : ℕ)
    → q.view ≡ p.view
    → q.sequencer_node ≡ p.sequencer_node
    → ((i j : ℕ) → p.shard_progresses i j ≤ q.shard_progresses i j)
    → Replicated p k r
    → (r' : ℕ) × Replicated q k r' × (r ≤ r')
unfolding get_shard_replicated_position
Replicated-mono p q k r v n m h =
    let (unit, e, f) =
      >>=-eq-ok (get_storage_shard p.view (join_two16 p.sequencer_node.node_id k)) _ h in
    (
      min_progress (q.shard_progresses k) (2 ^ 32 - 1) unit.storage_nodes,
      rw (v, n, e),
      omega (
        arith,
        ok-injective _ r f,
        min_progress_mono (p.shard_progresses k) (q.shard_progresses k) (2 ^ 32 - 1) (2 ^ 32 - 1)
            unit.storage_nodes (omega arith) (m k),
      ),
    )

-- No storage node of a shard is behind the shard's last cut: a record has its place in the log only
-- once all of them hold it.
pub last_cut_lem :
    (p : Primary) (k c : ℕ) (unit : StorageShard) (storage : ℕ)
    → IsDurable p
    → find? k p.last_cut ≡ some c
    → get_storage_shard p.view (join_two16 p.sequencer_node.node_id k) ≡ ok unit
    → elem storage unit.storage_nodes ≡ true
    → c ≤ p.shard_progresses k storage
unfolding get_shard_replicated_position
last_cut_lem p k c unit storage v f u h =
    let (r, e, le) = v.covered k c f in
    let least = min_progress (p.shard_progresses k) (2 ^ 32 - 1) unit.storage_nodes in
    let q : get_shard_replicated_position p k ≡ ok least = rw u in
    omega (
      arith,
      ok-injective least r (sym q ∙ e),
      min_progress-le (p.shard_progresses k) (2 ^ 32 - 1) unit.storage_nodes storage h,
    )

set_erase-elem : (k j : ℕ) (ks : List ℕ) → elem j (set_erase k ks) ≡ (not (k == j) && elem j ks)
unfolding set_erase elem
set_erase-elem k j [] = ground arith
set_erase-elem k j (i ∷ ks) = ground (arith, set_erase-elem k j ks)

set_erase-Distinct : (k : ℕ) (ks : List ℕ) → Distinct ks → Distinct (set_erase k ks)
unfolding set_erase
set_erase-Distinct k [] d = tt
set_erase-Distinct k (j ∷ ks) d = ground (arith, set_erase-Distinct k ks d.1, set_erase-elem k j ks)

set_insert-elem : (k j : ℕ) (ks : List ℕ) → elem j (set_insert k ks) ≡ (k == j || elem j ks)
unfolding set_insert elem
set_insert-elem k j ks = ground (arith, ap (λ (i : ℕ). elem i ks) {x = k} {y = j})

set_insert-Distinct : (k : ℕ) (ks : List ℕ) → Distinct ks → Distinct (set_insert k ks)
unfolding set_insert
set_insert-Distinct k ks d = ground arith

pub block_shard-IsDurable : (k : ℕ) (p : Primary) → IsDurable p → IsDurable (block_shard k p).0
unfolding block_shard get_shard_replicated_position
block_shard-IsDurable k p v = elim (Bool-cases (elem k p.unblocked_shards)) [
  | inl live ↦ elim (Option-cases (find? k p.last_cut)) [
    | inl unknown ↦ rw (unknown, block_shard) v
    | inr (c, known) ↦
        rw (known, block_shard, live)
          (record {
            covered = v.covered;
            ahead = λ j h. v.ahead j (ground (arith, set_erase-elem k j p.dirty_shards));
            unblocked = λ j h. ground (
              arith,
              v.unblocked j,
              set_erase-elem k j p.dirty_shards,
              set_erase-elem k j p.unblocked_shards,
            );
            distinct = set_erase-Distinct k p.dirty_shards v.distinct;
          })
  ]
  | inr shut ↦ elim (Option-cases (find? k p.last_cut)) [
    | inl unknown ↦ rw (unknown, block_shard) v
    | inr (c, known) ↦ rw (known, block_shard, shut) v
  ]
]

pub unblock_shard-IsDurable : (k : ℕ) (p : Primary) → IsDurable p → IsDurable (unblock_shard k p).0
unfolding unblock_shard get_shard_replicated_position
unblock_shard-IsDurable k p v = elim (Bool-cases (elem k p.unblocked_shards)) [
  | inl live ↦ elim (Option-cases (find? k p.last_cut)) [
    | inl unknown ↦ rw (unknown, unblock_shard) v
    | inr (c, known) ↦ rw (known, unblock_shard, live) v
  ]
  | inr shut ↦ elim (Option-cases (find? k p.last_cut)) [
    | inl unknown ↦ rw (unknown, unblock_shard) v
    | inr (c, known) ↦
        rw (known, unblock_shard, shut)
          (record {
            covered = v.covered;
            ahead = v.ahead;
            unblocked =
                λ j h. ground (arith, v.unblocked j, set_insert-elem k j p.unblocked_shards);
            distinct = v.distinct;
          })
  ]
]

-- More progress of one storage node keeps what was replicated.
progress-IsDurable :
    (shard storage n : ℕ) (p : Primary)
    → p.shard_progresses shard storage < n
    → IsDurable p
    → IsDurable (record p { shard_progresses = set_progress shard storage n p.shard_progresses })
progress-IsDurable shard storage n p h v =
    let q = record p { shard_progresses = set_progress shard storage n p.shard_progresses } in
    let grows = λ (i j : ℕ). set_progress-le shard storage n p.shard_progresses i j h in
    record {
      covered = λ k c f.
          let (r, e, le) = v.covered k c f in
          let (r', e', le') = Replicated-mono p q k r refl refl grows e in (r', e', omega arith);
      ahead = λ k d.
          let (c, r, f, e, lt) = v.ahead k d in
          let (r', e', le') = Replicated-mono p q k r refl refl grows e in
          (c, r', f, e', omega arith);
      unblocked = v.unblocked;
      distinct = v.distinct;
    }

raise_shard-IsDurable :
    (shard : ℕ) (p q : Primary)
    → elem shard p.unblocked_shards ≡ true
    → raise_shard shard p ≡ ok q
    → IsDurable p
    → IsDurable q
unfolding raise_shard get_shard_replicated_position
raise_shard-IsDurable shard p q live e v =
    let (r, e₁, f) = >>=-eq-ok (get_shard_replicated_position p shard) _ e in
    let (c, e₂, g) = >>=-eq-ok (at_or_fatal (find? shard p.last_cut)) _ f in
    let found : find? shard p.last_cut ≡ some c = ground arith in
    subst IsDurable (ok-injective _ q g) (elim (Bool-cases (ltb c r)) [
      | inr low ↦ rw low v
      | inl past ↦ rw past (record {
        covered = v.covered;
        ahead = λ k h. elim (ℕ_discrete shard k) [
          | yes same ↦ (
            c,
            r,
            ap (λ i. find? i p.last_cut) (sym same) ∙ found,
            ap (get_shard_replicated_position p) (sym same) ∙ e₁,
            ltb→lt c r past,
          )
          | no other ↦ v.ahead k (ground (arith, set_insert-elem shard k p.dirty_shards))
        ];
        unblocked = λ k h. ground (
          arith,
          v.unblocked k,
          set_insert-elem shard k p.dirty_shards,
          ap (λ i. elem i p.unblocked_shards) {x = shard} {y = k},
        );
        distinct = set_insert-Distinct shard p.dirty_shards v.distinct;
      })
    ])

update_shard-IsDurable :
    (storage shard n : ℕ) (p q : Primary)
    → update_shard storage shard n p ≡ ok q
    → IsDurable p
    → IsDurable q
unfolding update_shard
update_shard-IsDurable storage shard n p q e v = elim (Bool-cases (elem shard p.unblocked_shards)) [
  | inr shut ↦
      let kept : update_shard storage shard n p ≡ ok p = ground arith in
      subst IsDurable (ok-injective p q (sym kept ∙ e)) v
  | inl live ↦ elim (Bool-cases (ltb (p.shard_progresses shard storage) n)) [
    | inr old ↦
        let kept : update_shard storage shard n p ≡ ok p = ground arith in
        subst IsDurable (ok-injective p q (sym kept ∙ e)) v
    | inl new ↦
        raise_shard-IsDurable shard
          (record p { shard_progresses = set_progress shard storage n p.shard_progresses }) q live
          (ground arith) (progress-IsDurable shard storage n p (ltb→lt _ n new) v)
  ]
]

update_shards-IsDurable :
    (storage : ℕ) (gs vs : List ℕ) (p q : Primary)
    → update_shards storage gs vs p ≡ ok q
    → IsDurable p
    → IsDurable q
unfolding update_shards
update_shards-IsDurable storage [] vs p q e v = subst IsDurable (ok-injective p q e) v
update_shards-IsDurable storage (g ∷ gs) [] p q e v = subst IsDurable (ok-injective p q e) v
update_shards-IsDurable storage (g ∷ gs) (n ∷ vs) p q e v =
    let (t, e₁, f) = >>=-eq-ok (update_shard storage (low_half32 g) n p) _ e in
    update_shards-IsDurable storage gs vs t q f
      (update_shard-IsDurable storage (low_half32 g) n p t e₁ v)

pub update_storage_progress-IsDurable :
    (storage : ℕ) (progress : List ℕ) (p q : Primary)
    → update_storage_progress storage progress p ≡ ok q
    → IsDurable p
    → IsDurable q
unfolding update_storage_progress
update_storage_progress-IsDurable storage progress p q e v =
    let (node, e₁, f) = >>=-eq-ok (get_storage_node p.view storage) _ e in
    let (u, e₂, g) = >>=-eq-ok (require (length progress == length node.storage_shard_ids)) _ f in
    update_shards-IsDurable storage node.storage_shard_ids progress p q g v
