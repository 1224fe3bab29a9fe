-- ===== src/LogSpace/Order.antt =====
-- What a log space comes to, whatever the order in which the meta logs reach it: `ProvideMetaLog`
-- of src/log/log_space_base.cpp.
use ixe.Prelude.{
  ℕ, ◌+◌, ◌<◌, ◌≡◌, refl, sym, ap, ◌∙◌, Bool, true, false, ◌||◌, ◌&&◌, not, elem, List, [], map,
  arith, ok, ok-injective, subst,
}
use ixe.Prelude.Maps.{contains, contains_below, Rising}
use ixe.LogSpace.Data.{MetaLog}
use ixe.LogSpace.Base.{Core, Space, Hooks, is_trim, is_full, provide_all}
use ixe.LogSpace.Replay.{replay, Bounded, FromStream-unique}
use ixe.LogSpace.Delivery.{Delivered, provide_all-Delivered}

module _ {ℓ} {S : Type ℓ} (h : Hooks S) (L : ℕ → MetaLog) (c₀ : Core S) where
  abbrev pub fresh : Space S
  fresh = record { core = c₀; pending_metalogs = [] }

  fresh-Delivered : Delivered h L c₀ (λ _. false) fresh
  unfolding replay contains
  fresh-Delivered = record {
    count = 0;
    replayed = refl;
    position = omega arith;
    mode_kept = refl;
    used = λ j p. absurd (omega arith);
    gap = refl;
    rising = tt;
    from = tt;
    kept = λ k p. refl;
  }

  -- What has arrived determines the state.
  same_Delivered :
      {has hos : ℕ → Bool} {s t : Space S}
      → ((j : ℕ) → has j ≡ hos j)
      → Delivered h L c₀ has s
      → Delivered h L c₀ hos t
      → s ≡ t
  same_Delivered {s} {t} same d g =
      let p₀ = c₀.metalog_position in
      let counts : d.count ≡ g.count = counts_eq in
      let cores : s.core ≡ t.core =
        ok-injective s.core t.core (sym d.replayed ∙ ap (replay h L c₀) counts ∙ g.replayed) in
      let pendings =
        FromStream-unique L (p₀ + d.count + 1) s.pending_metalogs t.pending_metalogs d.rising
          (subst (λ n. Rising (p₀ + n + 1) t.pending_metalogs) (sym counts) g.rising) d.from g.from
          (λ k. ground (
            arith,
            same k,
            contains_below (p₀ + d.count + 1) k s.pending_metalogs d.rising,
            contains_below (p₀ + g.count + 1) k t.pending_metalogs g.rising,
            d.kept k,
            g.kept k,
          )) in
      λ i. record { core = cores i; pending_metalogs = pendings i }
    where
      counts_eq : d.count ≡ g.count
      counts_eq = ground (
        arith,
        d.gap,
        g.gap,
        d.used g.count,
        g.used d.count,
        same (c₀.metalog_position + d.count),
        same (c₀.metalog_position + g.count),
      )

  module _ (seqnums : (k : ℕ) → (L k).metalog_seqnum ≡ k)
      (runs : (n : ℕ) → (c : Core S) × (replay h L c₀ n ≡ ok c))
      (heard : (k : ℕ) → (is_trim (L k).kind && not (is_full c₀.mode)) ≡ false) where
    arrived :
        (ks : List ℕ)
        → Bounded ks
        → (s : Space S) × (provide_all h (map L ks) fresh ≡ ok s)
          × Delivered h L c₀ (λ j. elem j ks || false) s
    arrived ks b =
        provide_all-Delivered h L c₀ seqnums runs heard ks (λ _. false) fresh b fresh-Delivered

    -- Every entry of the stream that arrives is applied at its turn and once: whatever the order of
    -- arrival and the repetitions, the log space has applied, in order, exactly the entries before
    -- the first one that is missing.
    pub delivery_lem :
        (ks : List ℕ)
        → Bounded ks
        → (n : ℕ) × (s : Space S) × (provide_all h (map L ks) fresh ≡ ok s)
          × (replay h L c₀ n ≡ ok s.core)
          × (s.core.metalog_position ≡ c₀.metalog_position + n)
          × ((j : ℕ) → j < n → elem (c₀.metalog_position + j) ks ≡ true)
          × (elem (c₀.metalog_position + n) ks ≡ false)
    delivery_lem ks b =
        let (s, e, d) = arrived ks b in
        (
          d.count,
          s,
          e,
          d.replayed,
          d.position,
          λ j p. ground (arith, d.used j p),
          ground (arith, d.gap),
        )

    -- Two log spaces that got the same entries, in any order and with any repetitions, are in the
    -- same state, the entries that still wait included.
    pub delivery_comm :
        (ks js : List ℕ)
        → Bounded ks
        → Bounded js
        → ((j : ℕ) → elem j ks ≡ elem j js)
        → (s : Space S) × (provide_all h (map L ks) fresh ≡ ok s)
          × (provide_all h (map L js) fresh ≡ ok s)
    delivery_comm ks js b c same =
        let (s, e, d) = arrived ks b in
        let (t, f, g) = arrived js c in
        (s, e, f ∙ ap ok (sym (same_Delivered (λ j. ap (λ b. b || false) (same j)) d g)))
