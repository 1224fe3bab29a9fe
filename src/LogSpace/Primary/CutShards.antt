-- ===== src/LogSpace/Primary/CutShards.antt =====
-- The loop of `MarkNextCut` over the dirty shards (src/log/log_space.cpp).
use ixe.Prelude.{
  ℕ, ◌+◌, ◌-◌, ◌%◌, ◌^◌, ◌<◌, ◌≡◌, refl, ap, subst, ◌∙◌, true, false, List, [], ◌∷◌, elem, arith,
  ok, >>=-eq-ok, ok-injective, some, inl, inr, Bool-cases,
}
use ixe.Prelude.Maps.{find?, put, find?-put}
use ixe.Bits.{join_two16}
use ixe.View.{get_storage_shard}
use ixe.LogSpace.Primary.{Primary, Cut, min_progress, get_shard_replicated_position, cut_shards}
use ixe.LogSpace.Primary.Durable.{Replicated, Distinct, min_progress-le_acc}

-- The entries of a cut of the shards `ks`: each starts at the shard's last cut and ends where all its
-- storage nodes have got to, and none is empty.
abbrev pub IsCut : Primary → List (ℕ × ℕ) → List ℕ → List ℕ → List ℕ → List ℕ → Type 0
IsCut p last_cut [] [] [] [] = Unit {0}
IsCut p last_cut (k ∷ ks) (i ∷ ids) (b ∷ starts) (d ∷ deltas) =
    (i ≡ k)
    × (find? k last_cut ≡ some b)
    × Replicated p k (b + d)
    × (0 < d)
    × IsCut p last_cut ks ids starts deltas
IsCut p last_cut _ _ _ _ = ⊥

abbrev pub sum : List ℕ → ℕ
sum [] = 0
sum (d ∷ ds) = d + sum ds

Replicated-bound : (p : Primary) (k r : ℕ) → Replicated p k r → r < 2 ^ 32
unfolding get_shard_replicated_position
Replicated-bound p k r h =
    let (unit, e, f) =
      >>=-eq-ok (get_storage_shard p.view (join_two16 p.sequencer_node.node_id k)) _ h in
    let least = min_progress (p.shard_progresses k) (2 ^ 32 - 1) unit.storage_nodes in
    omega (
      arith,
      ok-injective least r f,
      min_progress-le_acc (p.shard_progresses k) (2 ^ 32 - 1) unit.storage_nodes,
    )

-- A cut of other shards does not depend on the last cut of `k`.
IsCut-put :
    (p : Primary) (k v : ℕ) (m : List (ℕ × ℕ)) (ks ids starts deltas : List ℕ)
    → elem k ks ≡ false
    → IsCut p (put k v m) ks ids starts deltas
    → IsCut p m ks ids starts deltas
unfolding elem
IsCut-put p k v m [] [] [] [] h c = tt
IsCut-put p k v m (j ∷ ks) (i ∷ ids) (b ∷ starts) (d ∷ deltas) h c = (
  c.0,
  ground (arith, find?-put k j v m, c.1),
  c.2,
  c.3,
  IsCut-put p k v m ks ids starts deltas (ground arith) c.4,
)
IsCut-put p k v m [] [] [] (d ∷ deltas) h c = absurd c
IsCut-put p k v m [] [] (b ∷ starts) deltas h c = absurd c
IsCut-put p k v m [] (i ∷ ids) starts deltas h c = absurd c
IsCut-put p k v m (j ∷ ks) [] starts deltas h c = absurd c
IsCut-put p k v m (j ∷ ks) (i ∷ ids) [] deltas h c = absurd c
IsCut-put p k v m (j ∷ ks) (i ∷ ids) (b ∷ starts) [] h c = absurd c

-- The shards of a cut end where they are replicated, and the others keep their last cut.
abbrev pub Advances : Primary → List (ℕ × ℕ) → List ℕ → List (ℕ × ℕ) → Type 0
Advances p before ks after =
    (k : ℕ)
    → (elem k ks ≡ true → (r : ℕ) × Replicated p k r × (find? k after ≡ some r))
      × (elem k ks ≡ false → find? k after ≡ find? k before)

pub cut_shards_lem :
    (p : Primary) (m : List (ℕ × ℕ)) (ks : List ℕ)
    → Distinct ks
    → ((k : ℕ)
        → elem k ks ≡ true
        → (c : ℕ) × (r : ℕ) × (find? k m ≡ some c) × Replicated p k r × (c < r))
    → (cut : Cut) × (cut_shards p m ks ≡ ok cut)
      × IsCut p m ks cut.ids cut.starts cut.deltas
      × Advances p m ks cut.last_cut
unfolding cut_shards elem
cut_shards_lem p m [] d a = (
  record { ids = []; starts = []; deltas = []; last_cut = m },
  refl,
  tt,
  λ k. (λ h. cc, λ h. refl),
)
cut_shards_lem p m (k ∷ ks) d a =
    let (c, r, found, repl, lt) = a k (ground arith) in
    let b = Replicated-bound p k r repl in
    let (cut, e, v, w) = cut_shards_lem p (put k r m) ks d.1 (λ j h.
      let (c', r', f', g', l') = a j (ground arith) in
      (
        c',
        r',
        ground (arith, find?-put k j r m, f', d.0, h, ap (λ (i : ℕ). elem i ks) {x = k} {y = j}),
        g',
        l',
      )) in
    (
      record {
        ids = k ∷ cut.ids;
        starts = c ∷ cut.starts;
        deltas = (r + 2 ^ 32 - c) % 2 ^ 32 ∷ cut.deltas;
        last_cut = cut.last_cut;
      },
      rw (found, repl, e),
      (
        refl,
        found,
        repl ∙ ap ok (omega arith),
        omega arith,
        IsCut-put p k r m ks cut.ids cut.starts cut.deltas d.0 v,
      ),
      λ j. (
        λ h. elim (Bool-cases (elem j ks)) [
          | inl later ↦ (w j).0 later
          | inr done ↦
              let same : k ≡ j = ground arith in
              (
                r,
                subst (λ i. Replicated p i r) same repl,
                (w j).1 done ∙ find?-put k j r m ∙ ground arith,
              )
        ],
        λ h. (w j).1 (ground arith) ∙ find?-put k j r m ∙ ground arith,
      ),
    )
