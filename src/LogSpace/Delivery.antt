-- ===== src/LogSpace/Delivery.antt =====
-- The order in which meta logs arrive at a log space: `ProvideMetaLog` and
-- `AdvanceMetaLogProgress` of src/log/log_space_base.cpp.
use ixe.Prelude.{
  elem, fun_ext, map, ℕ, ◌+◌, ◌^◌, ◌≤◌, ◌<◌, ◌≡◌, refl, ap, subst, ◌∙◌, Bool, true, false, ◌||◌,
  ◌&&◌, not, List, [], ◌∷◌, arith, ltb, ◌==◌, ok, dec_lt,
}
use ixe.Prelude.Maps.{
  contains, insert, Rising, contains-insert, contains_below, insert-Rising, Rising-mono,
}
use ixe.LogSpace.Data.{MetaLog}
use ixe.LogSpace.Base.{
  Core, Space, Hooks, is_trim, is_full, advance_meta_log_progress, provide_meta_log, provide_all,
}
use ixe.LogSpace.Progress.{provide_advance}
use ixe.LogSpace.Replay.{replay, FromStream, Bounded, insert-FromStream, advance-Advanced}

or_swap : (a b c : Bool) → (a || (b || c)) ≡ ((b || a) || c)
or_swap a b c = ground arith

module _ {ℓ} {S : Type ℓ} (h : Hooks S) (L : ℕ → MetaLog) (c₀ : Core S) where
  -- What holds once the entries in `has` have arrived.
  pub record Delivered (has : ℕ → Bool) (s : Space S) : Type ℓ where
    pub count : ℕ
    pub replayed : replay h L c₀ count ≡ ok s.core
    pub position : s.core.metalog_position ≡ c₀.metalog_position + count
    pub mode_kept : s.core.mode ≡ c₀.mode
    pub used : (j : ℕ) → j < count → has (c₀.metalog_position + j) ≡ true
    pub gap : has (c₀.metalog_position + count) ≡ false
    pub rising : Rising (c₀.metalog_position + count + 1) s.pending_metalogs
    pub from : FromStream L s.pending_metalogs
    pub kept : (k : ℕ) → c₀.metalog_position + count < k → contains k s.pending_metalogs ≡ has k

  module _ (seqnums : (k : ℕ) → (L k).metalog_seqnum ≡ k)
      (runs : (n : ℕ) → (c : Core S) × (replay h L c₀ n ≡ ok c))
      (heard : (k : ℕ) → (is_trim (L k).kind && not (is_full c₀.mode)) ≡ false) where
    -- A repeated entry changes nothing.
    provide_old :
        (has : ℕ → Bool) (s : Space S) (k : ℕ)
        → Delivered has s
        → k < s.core.metalog_position
        → (provide_meta_log h (L k) s ≡ ok (s, false)) × Delivered (λ j. k == j || has j) s
    unfolding provide_meta_log
    provide_old has s k d old = (
      ground (arith, seqnums k, heard k, d.mode_kept),
      record {
        count = d.count;
        replayed = d.replayed;
        position = d.position;
        mode_kept = d.mode_kept;
        used = λ j p. ground (arith, d.used j p);
        gap = ground (arith, d.gap, d.position);
        rising = d.rising;
        from = d.from;
        kept = λ j p. ground (arith, d.kept j p, d.position);
      },
    )

    provide_new :
        (has : ℕ → Bool) (s : Space S) (k : ℕ)
        → Delivered has s
        → s.core.metalog_position ≤ k
        → k + 1 < 2 ^ 32
        → (s' : Space S) × (advance_meta_log_progress h s.core (insert k (L k) s.pending_metalogs)
            ≡ ok s')
          × Delivered (λ j. k == j || has j) s'
    provide_new has s k d new b =
        let p₀ = c₀.metalog_position in
        let pending = insert k (L k) s.pending_metalogs in
        let here : Rising (p₀ + d.count) pending =
          insert-Rising (p₀ + d.count) k (L k) s.pending_metalogs (omega (arith, d.position)) (
            Rising-mono (p₀ + d.count) (p₀ + d.count + 1) s.pending_metalogs (omega arith)
              d.rising) in
        let a =
          advance-Advanced h L c₀ seqnums runs d.count s.core pending d.replayed d.position
            d.mode_kept here (insert-FromStream L k s.pending_metalogs b d.from) in
        let added = λ (j : ℕ). contains-insert k j (L k) s.pending_metalogs in
        (
          a.space,
          a.result,
          record {
            count = a.count;
            replayed = a.replayed;
            position = a.position;
            mode_kept = a.mode_kept;
            used = λ j p. ground (
              arith,
              d.used j,
              a.used j,
              added (p₀ + j),
              d.kept (p₀ + j),
              contains_below (p₀ + d.count + 1) (p₀ + j) s.pending_metalogs d.rising,
            );
            gap = ground (
              arith,
              a.grows,
              a.gap,
              added (p₀ + a.count),
              d.gap,
              ap (λ (n : ℕ). has (p₀ + n)) {x = d.count} {y = a.count},
              d.kept (p₀ + a.count),
            );
            rising = a.rising;
            from = a.from;
            kept = λ j p.
                a.kept j p ∙ added j ∙ ap (λ b. k == j || b) (d.kept j (omega (arith, a.grows)));
          },
        )

    provide-Delivered :
        (has : ℕ → Bool) (s : Space S) (k : ℕ)
        → Delivered has s
        → k + 1 < 2 ^ 32
        → (s' : Space S) × (b : Bool) × (provide_meta_log h (L k) s ≡ ok (s', b))
          × Delivered (λ j. k == j || has j) s'
    provide-Delivered has s k d b = elim (dec_lt k s.core.metalog_position) [
      | yes old ↦ let (e, d') = provide_old has s k d old in (s, false, e, d')
      | no new ↦
          let (s', e, d') = provide_new has s k d (omega arith) b in
          (
            s',
            ltb s.core.metalog_position s'.core.metalog_position,
            provide_advance h (L k) k s s' (seqnums k) (rw d.mode_kept (heard k)) (omega arith) e,
            d',
          )
    ]

    pub provide_all-Delivered :
        (ks : List ℕ) (has : ℕ → Bool) (s : Space S)
        → Bounded ks
        → Delivered has s
        → (s' : Space S) × (provide_all h (map L ks) s ≡ ok s')
          × Delivered (λ j. elem j ks || has j) s'
    unfolding provide_all elem
    provide_all-Delivered [] has s b d = (s, refl, d)
    provide_all-Delivered (k ∷ ks) has s b d =
        let (s₁, moved, e, d₁) = provide-Delivered has s k d b.0 in
        let (s₂, e₂, d₂) = provide_all-Delivered ks (λ j. k == j || has j) s₁ b.1 d₁ in
        (
          s₂,
          rw e e₂,
          subst (λ f. Delivered f s₂) (fun_ext (λ j. or_swap (elem j ks) (k == j) (has j))) d₂,
        )
