-- ===== src/TagCache/Told.antt =====
-- What `HandleMinSeqnum` of `PerSpaceTagCache` (src/log/index_local_tag_cache.cpp) records of the answer
-- of an index.
use ixe.Prelude.{
  ℕ, ◌≡◌, ◌≢◌, inl, inr, refl, sym, ap, ◌∙◌, Bool, true, false, none, some, [], ◌==◌, ◌||◌, leb,
  if◌then◌else◌, Bool-cases, ok, >>=-eq-ok, ok-injective, arith,
}
use ixe.Prelude.Maps.{find?, put, contains, find?-put, contains-find?}
use ixe.Query.{invalid_log_seqnum}
use ixe.TagCache.Entry.{TagEntry, get_suffix_head}
use ixe.TagCache.Space.{PerSpaceTagCache, await_tag, min_from_head}

-- No record of the tag is older than the question.
abbrev pub is_new : ℕ → ℕ → Bool
is_new min_seqnum timestamp = min_seqnum == invalid_log_seqnum || leb timestamp min_seqnum

module _ (space tag min_seqnum shard timestamp popularity : ℕ) where
  -- The tag's entry has all records and its head is the least, if the tag is new; otherwise it has the
  -- answer for the least. For a tag without an entry that awaits nothing, this is awaited. Other tags
  -- are as they were.
  pub record IsTold (c c' : PerSpaceTagCache) : Type 0 where
    pub others :
        (t : ℕ)
        → t ≢ tag
        → (find? t c'.tags ≡ find? t c.tags)
          × (find? t c'.pending_min_tags ≡ find? t c.pending_min_tags)
    pub new_entry :
        (e : TagEntry)
        → find? tag c.tags ≡ some e
        → is_new min_seqnum timestamp ≡ true
        → (h : ℕ) × (hs : ℕ) × (get_suffix_head space e ≡ ok (h, hs))
          × (find? tag c'.tags
              ≡ some (record e { seqnum_min = h; shard_id_min = hs; complete = true }))
    pub old_entry :
        (e : TagEntry)
        → find? tag c.tags ≡ some e
        → is_new min_seqnum timestamp ≡ false
        → find? tag c'.tags ≡ some (record e { seqnum_min = min_seqnum; shard_id_min = shard })
    pub awaited :
        find? tag c.tags ≡ none
        → find? tag c.pending_min_tags ≡ none
        → find? tag c'.pending_min_tags
          ≡ some (record {
            tag_suffix = [];
            seqnum_min = if is_new min_seqnum timestamp then invalid_log_seqnum else min_seqnum;
            shard_id_min = shard;
            popularity = popularity;
            complete = is_new min_seqnum timestamp;
          })

  pub new-IsTold :
      (c : PerSpaceTagCache) (e e' : TagEntry)
      → find? tag c.tags ≡ some e
      → is_new min_seqnum timestamp ≡ true
      → min_from_head space e ≡ ok e'
      → IsTold c (record c { tags = put tag (record e' { complete = true }) c.tags })
  unfolding min_from_head
  new-IsTold c e e' found new run =
      let (x, head, same) =
        >>=-eq-ok (get_suffix_head space e)
          (λ h. ok (record e { seqnum_min = h.0; shard_id_min = h.1 })) run in
      let is : record e { seqnum_min = x.0; shard_id_min = x.1 } ≡ e' =
        ok-injective (record e { seqnum_min = x.0; shard_id_min = x.1 }) e' same in
      let now : find? tag (put tag (record e' { complete = true }) c.tags)
          ≡ some (record e' { complete = true }) =
        ground (arith, find?-put tag tag (record e' { complete = true }) c.tags) in
      record {
        others =
            λ t ne. (ground (arith, find?-put tag t (record e' { complete = true }) c.tags), refl);
        new_entry = λ f there h.
            let e≡f : e ≡ f = cc in
            (
              x.0,
              x.1,
              ap (get_suffix_head space) (sym e≡f) ∙ head,
              now
                  ∙ ap (λ (r : TagEntry). some (record r { complete = true })) (sym is)
                  ∙ ap
                      (λ (r : TagEntry).
                        some (record r { seqnum_min = x.0; shard_id_min = x.1; complete = true }))
                      e≡f,
            );
        old_entry = λ f there h. absurd (cc);
        awaited = λ absent nothing. absurd (cc);
      }

  pub old-IsTold :
      (c : PerSpaceTagCache) (e : TagEntry)
      → find? tag c.tags ≡ some e
      → is_new min_seqnum timestamp ≡ false
      → let e' = record e { seqnum_min = min_seqnum; shard_id_min = shard } in
        IsTold c (record c { tags = put tag e' c.tags })
  old-IsTold c e found old =
      let e' = record e { seqnum_min = min_seqnum; shard_id_min = shard } in
      let now : find? tag (put tag e' c.tags) ≡ some e' =
        ground (arith, find?-put tag tag e' c.tags) in
      record {
        others = λ t ne. (ground (arith, find?-put tag t e' c.tags), refl);
        new_entry = λ f there h. absurd (cc);
        old_entry = λ f there h.
            let e≡f : e ≡ f = cc in
            now
            ∙ ap
                (λ (r : TagEntry).
                  some (record r { seqnum_min = min_seqnum; shard_id_min = shard }))
                e≡f;
        awaited = λ absent nothing. absurd (cc);
      }

  pub await-IsTold :
      (c : PerSpaceTagCache)
      → find? tag c.tags ≡ none
      → let p : TagEntry = record {
        tag_suffix = [];
        seqnum_min = if is_new min_seqnum timestamp then invalid_log_seqnum else min_seqnum;
        shard_id_min = shard;
        popularity = popularity;
        complete = is_new min_seqnum timestamp;
      } in
        IsTold c (await_tag tag p c)
  await-IsTold c absent =
      let p : TagEntry = record {
        tag_suffix = [];
        seqnum_min = if is_new min_seqnum timestamp then invalid_log_seqnum else min_seqnum;
        shard_id_min = shard;
        popularity = popularity;
        complete = is_new min_seqnum timestamp;
      } in
      elim (Bool-cases (contains tag c.pending_min_tags)) [
        | inl there ↦ rw there (record {
          others = λ t ne. (refl, refl);
          new_entry = λ f found h. absurd (cc);
          old_entry = λ f found h. absurd (cc);
          awaited = λ e nothing. let (q, waits) = contains-find? tag c.pending_min_tags there in cc;
        })
        | inr free ↦ rw free (record {
          others = λ t ne. (refl, ground (arith, find?-put tag t p c.pending_min_tags));
          new_entry = λ f found h. absurd (cc);
          old_entry = λ f found h. absurd (cc);
          awaited = λ e nothing. ground (arith, find?-put tag tag p c.pending_min_tags);
        })
      ]
