-- ===== src/TagCache/Spaces.antt =====
-- The operations of `PerSpaceTagCache` of src/log/index_local_tag_cache.cpp on the cache of a log space.
use ixe.Prelude.{
  ℕ, ◌^◌, ◌<◌, ◌≡◌, ◌≢◌, ◌↔◌, inl, inr, sym, ap, subst, true, false, none, some, List, ◌==◌, ◌||◌,
  leb, Option-cases, ok, arith, ℕ_discrete,
}
use ixe.Prelude.Maps.{find?, put, erase, find?-put, find?-erase}
use ixe.Bits.{join_two32, join_two16}
use ixe.Query.{invalid_log_seqnum}
use ixe.TagCache.Entry.{TagEntry}
use ixe.TagCache.Space.{PerSpaceTagCache, stored_entry, add_or_update}
use ixe.TagCache.Held.{Held, Above}
use ixe.TagCache.Cached.{IsCached}
use ixe.TagCache.Extend.{OrNew}
use ixe.TagCache.Add.{add_number-IsCached, new_tag_entry-IsCached}
use ixe.TagCache.Tags.{IsAwaited, IsSpaceCached, Logged, IsCached-congr, settle_min-IsCached}

module _ (space : ℕ) (log : ℕ → ℕ → ℕ → Type 0) (tag n s : ℕ) where
  -- Other tags have the records that they had.
  other_tag : (t m u : ℕ) → t ≢ tag → log t m u ↔ Logged log tag n s t m u
  other_tag t m u ne = (inr, λ o. elim o [ inl new ↦ absurd (ne new.0) | inr old ↦ old ])

  this_tag : (t m u : ℕ) → t ≡ tag → OrNew (log t) n s m u ↔ Logged log tag n s t m u
  this_tag t m u e = (
    λ o. elim o [ inl new ↦ inl (e, new.0, new.1) | inr old ↦ inr old ],
    λ o. elim o [ inl new ↦ inl (new.1, new.2) | inr old ↦ inr old ],
  )

  IsAwaited-congr :
      (t : ℕ) (p : TagEntry) → t ≢ tag → IsAwaited (log t) p → IsAwaited (Logged log tag n s t) p
  IsAwaited-congr t p ne a = record {
    none_before = λ e m u o. a.none_before e m u ((other_tag t m u ne).1 o);
    least = λ valid.
        let (in_log, first) = a.least valid in
        (inr in_log, λ m u o. first m u ((other_tag t m u ne).1 o));
    all = λ complete m u o. a.all complete m u ((other_tag t m u ne).1 o);
  }

  -- The new entry of the tag goes into the map, and nothing is pending for the tag.
  stored_lem :
      (c : PerSpaceTagCache) (e : TagEntry) (pending : List (ℕ × TagEntry))
      → IsSpaceCached space log c
      → IsCached space (OrNew (log tag) n s) e
      → ((t : ℕ) (p : TagEntry)
          → find? t pending ≡ some p
          → (t ≢ tag) × (find? t c.pending_min_tags ≡ some p))
      → IsSpaceCached space
          (Logged log tag n s)
          (record { tags = put tag e c.tags; pending_min_tags = pending })
  stored_lem c e pending v cached rest = record {
    cached = λ t f found. elim (ℕ_discrete t tag) [
      | yes same ↦
          let at_tag : some e ≡ some f = ground (arith, find?-put tag t e c.tags) in
          let at : e ≡ f = cc in
          subst (IsCached space (Logged log tag n s t)) at (
            IsCached-congr space (OrNew (log t) n s) (Logged log tag n s t) e
              (λ m u. this_tag t m u same)
              (subst (λ i. IsCached space (OrNew (log i) n s) e) (sym same) cached))
      | no ne ↦
          IsCached-congr space (log t) (Logged log tag n s t) f (λ m u. other_tag t m u ne)
            (v.cached t f (ground (arith, find?-put tag t e c.tags)))
    ];
    awaited = λ t p found.
        let (ne, was) = rest t p found in
        let (absent, a) = v.awaited t p was in
        (ground (arith, find?-put tag t e c.tags), IsAwaited-congr t p ne a);
  }

clash :
    (m : List (ℕ × TagEntry)) (tag t : ℕ) (p : TagEntry)
    → t ≡ tag
    → find? tag m ≡ none
    → find? t m ≡ some p
    → ⊥
clash m tag t p e nothing found = let same = ap (λ i. find? i m) e in cc

module _ (space v k s : ℕ) (in_range : space < 2 ^ 16) (v_range : v < 2 ^ 16)
    (k_range : k < 2 ^ 32) where
  -- `AddOrUpdate` runs for a record whose number is past those of all records of the tag, and the
  -- cache of the log space keeps its promises, now with that record: the entry of each tag holds the
  -- newest of the tag's records, all of them if it is complete, and knows the least one if it says so.
  pub add_or_update-IsSpaceCached :
      (tag popularity : ℕ) (log : ℕ → ℕ → ℕ → Type 0) (c : PerSpaceTagCache)
      → IsSpaceCached space log c
      → ((m t : ℕ) → log tag m t → m < join_two32 (join_two16 v space) k)
      → (c' : PerSpaceTagCache) × (add_or_update tag v space k s popularity c ≡ ok c')
        × IsSpaceCached space (Logged log tag (join_two32 (join_two16 v space) k) s) c'
  unfolding add_or_update
  add_or_update-IsSpaceCached tag popularity log c valid below =
      let n = join_two32 (join_two16 v space) k in
      let stored = stored_entry v k s popularity (find? tag c.tags) in
      let cached : IsCached space (OrNew (log tag) n s) stored =
        elim (Option-cases (find? tag c.tags)) [
          | inl e ↦ rw e (
              new_tag_entry-IsCached space v k s in_range v_range k_range popularity (log tag)
                below)
          | inr (e, found) ↦ rw found (
              add_number-IsCached space v k s in_range v_range k_range popularity (log tag) e
                (valid.cached tag e found) (λ m t in_log. omega (arith, below m t in_log)))
        ] in
      elim (Option-cases (find? tag c.pending_min_tags)) [
        | inl nothing ↦ (
          record c { tags = put tag stored c.tags },
          simp (nothing, add_or_update),
          stored_lem space log tag n s c stored c.pending_min_tags valid cached (λ t p found.
              (λ e. absurd (clash c.pending_min_tags tag t p e nothing found), found)),
        )
        | inr (p, pending) ↦
            let (absent, a) = valid.awaited tag p pending in
            let (e, run, settled) =
              settle_min-IsCached space n s in_range (log tag) p stored a cached below in
            (
              record c { tags = put tag e c.tags; pending_min_tags = erase tag c.pending_min_tags },
              simp (pending, run, add_or_update),
              stored_lem space log tag n s c e (erase tag c.pending_min_tags) valid settled
                  (λ t p' found. (
                    λ e. ground (arith, find?-erase tag t c.pending_min_tags),
                    ground (arith, find?-erase tag t c.pending_min_tags),
                  )),
            )
      ]

-- What the index says of a tag's least record. Either no record of the tag is before those that the
-- cache holds, or the least record is the one given.
pub record IsMinAnswer (space : ℕ) (log : ℕ → ℕ → ℕ → Type 0) (tag min_seqnum shard timestamp : ℕ)
    (c : PerSpaceTagCache) : Type 0 where
  pub fresh :
      (min_seqnum == invalid_log_seqnum || leb timestamp min_seqnum) ≡ true
      → ((e : TagEntry)
          → find? tag c.tags ≡ some e
          → (n s : ℕ) → log tag n s
          → Held space e.tag_suffix n s)
        × (find? tag c.tags ≡ none → (n s : ℕ) → ¬ (log tag n s))
  pub old :
      (min_seqnum == invalid_log_seqnum || leb timestamp min_seqnum) ≡ false
      → log tag min_seqnum shard × Above (log tag) min_seqnum
