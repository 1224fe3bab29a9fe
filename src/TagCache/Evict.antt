-- ===== src/TagCache/Evict.antt =====
-- `TagEntry::Evict` of src/log/index_local_tag_cache.cpp keeps the newest numbers.
use ixe.Prelude.{
  drop-append, length-drop, ℕ, zero, suc, ◌+◌, ◌-◌, ◌≡◌, inl, inr, refl, sym, ap, ap₂, ◌∙◌, false,
  List, [], ◌∷◌, ◌++◌, length, drop, length-append, if◌then◌else◌, min, ltb, ◌==◌, Bool-cases,
  arith,
}
use ixe.TagCache.Entry.{
  TagSuffixLink, TagSuffix, TagEntry, num_seqnums, num_seqnums_in_suffix, drop_link, keep_link,
  evict_links, evict_entry,
}

-- The numbers with their views and shards, as they stand in the suffix.
abbrev pub rows : ℕ → List ℕ → List ℕ → List (ℕ × ℕ × ℕ)
rows view_id [] shards = []
rows view_id (k ∷ ks) [] = []
rows view_id (k ∷ ks) (s ∷ shards) = (view_id, k, s) ∷ rows view_id ks shards

abbrev pub suffix_rows : TagSuffix → List (ℕ × ℕ × ℕ)
suffix_rows [] = []
suffix_rows ((v, link) ∷ rest) = rows v link.seqnums link.storage_shard_ids ++ suffix_rows rest

-- Each link has a shard for each number.
abbrev pub IsPaired : TagSuffix → Type 0
IsPaired [] = Unit {0}
IsPaired ((v, link) ∷ rest) = (length link.storage_shard_ids ≡ length link.seqnums) × IsPaired rest

length-rows :
    (v : ℕ) (ks shards : List ℕ) → length shards ≡ length ks → length (rows v ks shards) ≡ length ks
length-rows v [] shards h = refl
length-rows v (k ∷ ks) [] h = absurd (omega arith)
length-rows v (k ∷ ks) (s ∷ shards) h = omega (arith, length-rows v ks shards)

rows-drop :
    (v n : ℕ) (ks shards : List ℕ)
    → length shards ≡ length ks
    → rows v (drop n ks) (drop n shards) ≡ drop n (rows v ks shards)
rows-drop v zero ks shards h = refl
rows-drop v (suc n) [] [] h = refl
rows-drop v (suc n) [] (s ∷ shards) h = absurd (omega arith)
rows-drop v (suc n) (k ∷ ks) [] h = absurd (omega arith)
rows-drop v (suc n) (k ∷ ks) (s ∷ shards) h = rows-drop v n ks shards (omega arith)

num_seqnums-length :
    (suffix : TagSuffix) → IsPaired suffix → num_seqnums suffix ≡ length (suffix_rows suffix)
unfolding num_seqnums
num_seqnums-length [] p = refl
num_seqnums-length ((v, link) ∷ rest) p = omega (
  arith,
  num_seqnums-length rest p.1,
  length-rows v link.seqnums link.storage_shard_ids p.0,
  length-append (rows v link.seqnums link.storage_shard_ids) (suffix_rows rest),
)

-- What is left after `c` numbers are gone.
abbrev IsEvicted : ℕ → ℕ → TagSuffix → TagSuffix × ℕ → Type 0
IsEvicted c evicted suffix r =
    (suffix_rows r.0 ≡ drop c (suffix_rows suffix))
    × (r.1 ≡ evicted + min c (num_seqnums suffix))
    × IsPaired r.0

no_rows : (v : ℕ) (ks shards : List ℕ) → length ks ≡ 0 → rows v ks shards ≡ []
no_rows v [] shards h = refl
no_rows v (k ∷ ks) shards h = absurd (omega arith)

keep_link-rows :
    (v : ℕ) (link : TagSuffixLink) (rest : TagSuffix)
    → length link.storage_shard_ids ≡ length link.seqnums
    → IsPaired rest
    → (suffix_rows (keep_link v link rest)
        ≡ rows v link.seqnums link.storage_shard_ids ++ suffix_rows rest)
      × IsPaired (keep_link v link rest)
keep_link-rows v link rest h p = elim (Bool-cases (length link.seqnums == 0)) [
  | inl none_left ↦ rw none_left (
    sym (
        ap (λ l. l ++ suffix_rows rest)
          (no_rows v link.seqnums link.storage_shard_ids (ground arith))),
    p,
  )
  | inr some_left ↦ rw some_left (refl, (h, p))
]

evict_links_lem :
    (c evicted : ℕ) (suffix : TagSuffix)
    → IsPaired suffix
    → IsEvicted c evicted suffix (evict_links c evicted suffix)
unfolding evict_links num_seqnums
evict_links_lem zero evicted [] p = (refl, omega arith, tt)
evict_links_lem (suc c) evicted [] p = (refl, omega arith, tt)
evict_links_lem c evicted ((v, link) ∷ rest) p = elim (Bool-cases (c == 0)) [
  | inl done ↦
      let e : c ≡ 0 = ground arith in
      rw done (ap (λ i. drop i (suffix_rows ((v, link) ∷ rest))) {x = 0} (sym e), omega arith, p)
  | inr more ↦
      let n = min c (length link.seqnums) in
      let link' = drop_link n link in
      let (left, count, paired) = evict_links_lem (c - n) (evicted + n) rest p.1 in
      let same : length link'.storage_shard_ids ≡ length link'.seqnums =
        omega (arith, length-drop n link.seqnums, length-drop n link.storage_shard_ids, p.0) in
      let (kept, kept_paired) =
        keep_link-rows v link' (evict_links (c - n) (evicted + n) rest).0 same paired in
      rw more (
        kept
            ∙ ap₂ (◌++◌) (rows-drop v n link.seqnums link.storage_shard_ids p.0) left
            ∙ sym (
                drop-append c n (rows v link.seqnums link.storage_shard_ids) (suffix_rows rest)
                  (omega (arith, length-rows v link.seqnums link.storage_shard_ids p.0))),
        omega (arith, count),
        kept_paired,
      )
]

-- `Evict` takes the oldest numbers out of a tag's suffix, with their shards, and leaves the newest in
-- their order: as many as the limit, or all if they are not more. It counts the numbers that it takes
-- out, after which the tag is not complete.
pub evict_entry_lem :
    (limit evicted : ℕ) (e : TagEntry)
    → IsPaired e.tag_suffix
    → let n = num_seqnums_in_suffix e in
      let r = evict_entry limit evicted e in
      (suffix_rows r.0.tag_suffix ≡ drop (n - limit) (suffix_rows e.tag_suffix))
      × (num_seqnums_in_suffix r.0 ≡ min limit n)
      × (r.1 ≡ evicted + (n - limit))
      × (r.0.complete ≡ (if ltb limit n then false else e.complete))
      × IsPaired r.0.tag_suffix
unfolding evict_entry num_seqnums_in_suffix
evict_entry_lem limit evicted e p =
    let n = num_seqnums e.tag_suffix in
    let (left, count, paired) = evict_links_lem (n - limit) evicted e.tag_suffix p in
    let r = (evict_links (n - limit) evicted e.tag_suffix).0 in
    (
      left,
      omega (
        arith,
        num_seqnums-length r paired,
        ap (λ (l : List (ℕ × ℕ × ℕ)). length l) left,
        length-drop (n - limit) (suffix_rows e.tag_suffix),
        num_seqnums-length e.tag_suffix p,
      ),
      omega (arith, count),
      ground arith,
      paired,
    )
