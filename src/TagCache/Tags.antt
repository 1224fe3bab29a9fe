-- ===== src/TagCache/Tags.antt =====
-- `AddOrUpdate` and `HandleMinSeqnum` of src/log/index_local_tag_cache.cpp keep what the cache of a log
-- space promises of each tag.
use ixe.Prelude.{
  ℕ, ◌^◌, ◌<◌, ◌≡◌, ◌≢◌, ◌↔◌, ◌⊎◌, inl, inr, refl, sym, ◌∙◌, subst, Bool, true, none, some, ◌==◌,
  Bool-cases, ok, arith,
}
use ixe.Prelude.Maps.{find?}
use ixe.Query.{invalid_log_seqnum}
use ixe.TagCache.Entry.{TagEntry, get_suffix_head}
use ixe.TagCache.Space.{PerSpaceTagCache, min_from_head, settle_min}
use ixe.TagCache.Held.{Held, Above}
use ixe.TagCache.Ends.{suffix_head_lem}
use ixe.TagCache.Cached.{IsCached}
use ixe.TagCache.Extend.{OrNew}

-- What is known of a tag with no numbers yet: its least record, or that it has none.
pub record IsAwaited (log : ℕ → ℕ → Type 0) (p : TagEntry) : Type 0 where
  pub none_before : p.seqnum_min ≡ invalid_log_seqnum → (n s : ℕ) → ¬ (log n s)
  pub least :
      p.seqnum_min ≢ invalid_log_seqnum → log p.seqnum_min p.shard_id_min × Above log p.seqnum_min
  pub all : p.complete ≡ true → (n s : ℕ) → ¬ (log n s)

-- `log t n s`: a record with the tag `t` has the number `n` and lies in the shard `s`.
pub record IsSpaceCached (space : ℕ) (log : ℕ → ℕ → ℕ → Type 0) (c : PerSpaceTagCache)
    : Type 0 where
  pub cached : (t : ℕ) (e : TagEntry) → find? t c.tags ≡ some e → IsCached space (log t) e
  pub awaited :
      (t : ℕ) (p : TagEntry)
      → find? t c.pending_min_tags ≡ some p
      → (find? t c.tags ≡ none) × IsAwaited (log t) p

-- The records after one more with the tag.
abbrev pub Logged : (ℕ → ℕ → ℕ → Type 0) → ℕ → ℕ → ℕ → ℕ → ℕ → ℕ → Type 0
Logged log tag n s t m u = ((t ≡ tag) × (m ≡ n) × (u ≡ s)) ⊎ log t m u

pub IsCached-congr :
    (space : ℕ) (log log' : ℕ → ℕ → Type 0) (e : TagEntry)
    → ((n s : ℕ) → log n s ↔ log' n s)
    → IsCached space log e
    → IsCached space log' e
IsCached-congr space log log' e same c = record {
  suffix = c.suffix;
  not_empty = c.not_empty;
  sound = λ n s h. (same n s).0 (c.sound n s h);
  newest = λ m t n s h le in_log. c.newest m t n s h le ((same n s).1 in_log);
  all = λ complete n s in_log. c.all complete n s ((same n s).1 in_log);
  least = λ valid.
      let (in_log, first) = c.least valid in
      ((same _ _).0 in_log, λ m t other. first m t ((same m t).1 other));
}

module _ (space : ℕ) (in_range : space < 2 ^ 16) (log : ℕ → ℕ → Type 0) where
  -- The head becomes the least number where nothing of the log is missing.
  pub min_from_head-IsCached :
      (e : TagEntry)
      → IsCached space log e
      → ((n s : ℕ) → log n s → Held space e.tag_suffix n s)
      → (e' : TagEntry) × (min_from_head space e ≡ ok e')
        × ((b : Bool) → IsCached space log (record e' { complete = b }))
  unfolding min_from_head get_suffix_head
  min_from_head-IsCached e c whole =
      let (h, hs, run, held, above) =
        suffix_head_lem space in_range 0 e.tag_suffix c.suffix c.not_empty in
      (
        record e { seqnum_min = h; shard_id_min = hs },
        rw run refl,
        λ b. record {
          suffix = c.suffix;
          not_empty = c.not_empty;
          sound = c.sound;
          newest = c.newest;
          all = λ complete n s in_log. whole n s in_log;
          least = λ valid. (c.sound h hs held, λ m t in_log. above m t (whole m t in_log));
        },
      )

module _ (space n s : ℕ) (in_range : space < 2 ^ 16) (log : ℕ → ℕ → Type 0) where
  -- If there were no records before, the new one is all that there is, and it is held.
  whole_of_none :
      (e : TagEntry)
      → IsCached space (OrNew log n s) e
      → ((m t : ℕ) → ¬ (log m t))
      → (m t : ℕ) → OrNew log n s m t
      → Held space e.tag_suffix m t
  whole_of_none e c nothing m t o =
      let (h, hs, run, held, above) =
        suffix_head_lem space in_range 0 e.tag_suffix c.suffix c.not_empty in
      elim o [
        | inr in_log ↦ absurd (nothing m t in_log)
        | inl new ↦ elim (c.sound h hs held) [
          | inr in_log ↦ absurd (nothing h hs in_log)
          | inl first ↦
              subst (λ i. Held space e.tag_suffix i t) (first.0 ∙ sym new.0)
                (subst (Held space e.tag_suffix h) (first.1 ∙ sym new.1) held)
        ]
      ]

  pub settle_min-IsCached :
      (p stored : TagEntry)
      → IsAwaited log p
      → IsCached space (OrNew log n s) stored
      → ((m t : ℕ) → log m t → m < n)
      → (e : TagEntry) × (settle_min space p stored ≡ ok e) × IsCached space (OrNew log n s) e
  unfolding settle_min
  settle_min-IsCached p stored a c below = elim (Bool-cases (p.seqnum_min == invalid_log_seqnum)) [
    | inl new ↦
        let (e, run, cached) =
          min_from_head-IsCached space in_range (OrNew log n s) stored c
            (whole_of_none stored c (a.none_before (ground arith))) in
        (record e { complete = p.complete }, simp (new, run), cached p.complete)
    | inr old ↦
        let e = record stored {
          seqnum_min = p.seqnum_min;
          shard_id_min = p.shard_id_min;
          complete = p.complete;
        } in
        let (in_log, first) = a.least (ground arith) in
        (
          e,
          simp old,
          record {
            suffix = c.suffix;
            not_empty = c.not_empty;
            sound = c.sound;
            newest = c.newest;
            all = λ complete. whole_of_none stored c (a.all complete);
            least = λ valid. (
              inr in_log,
              λ m t o. elim o [
                | inl at_new ↦ omega (arith, at_new.0, below p.seqnum_min p.shard_id_min in_log)
                | inr other ↦ first m t other
              ],
            );
          },
        )
  ]
