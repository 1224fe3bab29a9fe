-- ===== src/LogSpace/Replay.antt =====
-- A stream of meta logs replayed in order, and how far the pending ones carry a log space.
use ixe.Prelude.{
  ℕ, zero, suc, ◌+◌, ◌^◌, ◌≤◌, ◌<◌, ◌≡◌, refl, ap, sym, subst, ◌∙◌, true, false, List, [], ◌∷◌,
  arith, Outcome, ok, ◌>>=◌, ℕ_discrete,
}
use ixe.Prelude.Maps.{contains, insert, Rising, contains_below}
use ixe.LogSpace.Data.{MetaLog}
use ixe.LogSpace.Base.{Core, Space, Hooks, apply_next, advance_meta_log_progress}
use ixe.LogSpace.Progress.{position-apply_next, mode-apply_next, advance_now, advance_stop}

abbrev pub Bounded : List ℕ → Type 0
Bounded [] = Unit {0}
Bounded (k ∷ ks) = (k + 1 < 2 ^ 32) × Bounded ks

module _ (L : ℕ → MetaLog) where
  -- What is pending has come from the stream, and its position is no number that wraps.
  abbrev pub FromStream : List (ℕ × MetaLog) → Type 0
  FromStream [] = Unit {0}
  FromStream ((k, m) ∷ rest) = (m ≡ L k) × (k + 1 < 2 ^ 32) × FromStream rest

  pub insert-FromStream :
      (k : ℕ) (rest : List (ℕ × MetaLog))
      → k + 1 < 2 ^ 32
      → FromStream rest
      → FromStream (insert k (L k) rest)
  unfolding insert
  insert-FromStream k [] b f = (refl, b, tt)
  insert-FromStream k ((j, m) ∷ rest) b f = ground (arith, insert-FromStream k rest)

  -- A list of pending meta logs by rising position is determined by its set of positions.
  pub FromStream-unique :
      (lo : ℕ) (xs ys : List (ℕ × MetaLog))
      → Rising lo xs
      → Rising lo ys
      → FromStream xs
      → FromStream ys
      → ((k : ℕ) → contains k xs ≡ contains k ys)
      → xs ≡ ys
  unfolding contains
  FromStream-unique lo [] [] r q f g same = refl
  FromStream-unique lo [] ((k, v) ∷ ys) r q f g same = absurd (ground (arith, same k))
  FromStream-unique lo ((k, v) ∷ xs) [] r q f g same = absurd (ground (arith, same k))
  FromStream-unique lo ((k, v) ∷ xs) ((j, w) ∷ ys) r q f g same =
      let heads : k ≡ j =
        ground (
          arith,
          same k,
          same j,
          contains_below (j + 1) k ys q.1,
          contains_below (k + 1) j xs r.1,
        ) in
      let tails =
        FromStream-unique (k + 1) xs ys r.1 (subst (λ i. Rising (i + 1) ys) (sym heads) q.1) f.2 g.2
          (λ i.
            ground
              (arith, same i, contains_below (k + 1) i xs r.1, contains_below (j + 1) i ys q.1)) in
      ground (arith, heads, tails, ap L heads)

-- A stream of meta logs `L`, by position, and the state `c₀` of the log space that receives it.
module _ {ℓ} {S : Type ℓ} (h : Hooks S) (L : ℕ → MetaLog) (c₀ : Core S) where
  -- The first `n` entries of the stream applied in order.
  unfoldable pub replay : ℕ → Outcome (Core S)
  replay zero = ok c₀
  replay (suc n) = replay n >>= λ c. apply_next h (L (c₀.metalog_position + n)) c

  replay_next :
      (n : ℕ) (c : Core S)
      → replay n ≡ ok c
      → replay (suc n) ≡ apply_next h (L (c₀.metalog_position + n)) c
  unfolding replay
  replay_next n c e = rw e

  pub record Advanced (n : ℕ) (rest : List (ℕ × MetaLog)) (r : Outcome (Space S)) : Type ℓ where
    pub count : ℕ
    pub grows : n ≤ count
    pub space : Space S
    pub result : r ≡ ok space
    pub replayed : replay count ≡ ok space.core
    pub position : space.core.metalog_position ≡ c₀.metalog_position + count
    pub mode_kept : space.core.mode ≡ c₀.mode
    pub used : (j : ℕ) → n ≤ j → j < count → contains (c₀.metalog_position + j) rest ≡ true
    pub gap : contains (c₀.metalog_position + count) rest ≡ false
    pub rising : Rising (c₀.metalog_position + count + 1) space.pending_metalogs
    pub from : FromStream L space.pending_metalogs
    pub kept :
        (k : ℕ)
        → c₀.metalog_position + count < k
        → contains k space.pending_metalogs ≡ contains k rest

  -- The entry whose turn it is was applied before the others advanced.
  Advanced-cons :
      (n k : ℕ) (v : MetaLog) (rest : List (ℕ × MetaLog)) (r : Outcome (Space S))
      → k ≡ c₀.metalog_position + n
      → Advanced (suc n) rest r
      → Advanced n ((k, v) ∷ rest) r
  unfolding contains
  Advanced-cons n k v rest r e a = record {
    count = a.count;
    grows = omega arith;
    space = a.space;
    result = a.result;
    replayed = a.replayed;
    position = a.position;
    mode_kept = a.mode_kept;
    used = λ j p q. ground (arith, a.used j);
    gap = ground arith;
    rising = a.rising;
    from = a.from;
    kept = λ i p. ground (arith, a.kept i p);
  }

  module _ (seqnums : (k : ℕ) → (L k).metalog_seqnum ≡ k)
      (runs : (n : ℕ) → (c : Core S) × (replay n ≡ ok c)) where
    pub advance-Advanced :
        (n : ℕ) (c : Core S) (rest : List (ℕ × MetaLog))
        → replay n ≡ ok c
        → c.metalog_position ≡ c₀.metalog_position + n
        → c.mode ≡ c₀.mode
        → Rising (c₀.metalog_position + n) rest
        → FromStream L rest
        → Advanced n rest (advance_meta_log_progress h c rest)
    unfolding advance_meta_log_progress contains
    advance-Advanced n c [] e p m r f = record {
      count = n;
      grows = omega arith;
      space = record { core = c; pending_metalogs = [] };
      result = refl;
      replayed = e;
      position = p;
      mode_kept = m;
      used = λ j a b. absurd (omega arith);
      gap = refl;
      rising = tt;
      from = tt;
      kept = λ k a. refl;
    }
    advance-Advanced n c ((k, v) ∷ rest) e p m r f = elim (ℕ_discrete k c.metalog_position) [
      | yes now ↦
          let (c', e') = runs (suc n) in
          let turn : v.metalog_seqnum ≡ k =
            ap (λ (m : MetaLog). m.metalog_seqnum) f.0 ∙ seqnums k in
          let f' : apply_next h v c ≡ ok c' = rw (f.0, now ∙ p) (sym (replay_next n c e) ∙ e') in
          let q : c'.metalog_position ≡ c₀.metalog_position + suc n =
            omega (arith, position-apply_next h v c c' f') in
          let here : c.metalog_position ≤ k = omega arith in
          let rest_rising : Rising (c₀.metalog_position + suc n) rest =
            subst (λ i. Rising i rest) (omega arith) r.1 in
          rw (advance_now h k v rest c c' here (turn ∙ now) f') (
            Advanced-cons n k v rest _ (now ∙ p) (
              advance-Advanced (suc n) c' rest e' q (mode-apply_next h v c c' f' ∙ m) rest_rising
                f.2))
      | no later ↦
          rw
            (advance_stop h k v rest c (omega arith)
              (λ e'. later (sym (ap (λ (m : MetaLog). m.metalog_seqnum) f.0 ∙ seqnums k) ∙ e')))
            (record {
              count = n;
              grows = omega arith;
              space = record { core = c; pending_metalogs = (k, v) ∷ rest };
              result = refl;
              replayed = e;
              position = p;
              mode_kept = m;
              used = λ j a b. absurd (omega arith);
              gap = ground (arith, contains_below (k + 1) (c₀.metalog_position + n) rest);
              rising = ground arith;
              from = f;
              kept = λ j a. refl;
            })
    ]
