-- ===== src/SuffixChain/Shard.antt =====
-- `FindStorageShardIdInLinkEntry` of src/log/index_local_suffix.cpp, by the index that it finds from the
-- back of the differences.
use mathlib.Core.List.{reverse}
use ixe.Prelude.Search.{lower_bound, lower_bound-le, lower_bound_before, lower_bound_at}
use ixe.Prelude.{
  get_elem?-none, ==_iff, lt→ltb, get_elem?-total, get_elem?-lt, get_elem?-reverse, length-reverse,
  ℕ, ◌+◌, ◌-◌, ◌%◌, ◌^◌, ◌≤◌, ◌<◌, ◌≡◌, ◌≢◌, inl, inr, refl, sym, ap, ◌∙◌, true, false, Option,
  none, some, List, map, get_elem?, length, ltb, ◌==◌, ok, Bool-cases, at_or_fatal, arith,
  ℕ_discrete,
}
use ixe.SuffixChain.Link.{last, new_link_entry, find_storage_shard_id, shard_from_back}
use ixe.SuffixChain.Owner.{
  owner, Ends-range, Ends-mono, owner_at, last-get_elem?, IsCut, diff_of, get_elem?-map, length-map,
}

module _ (lo key : ℕ) (cuts : List (ℕ × ℕ)) (v : IsCut lo key cuts) where
  pub end-le : (i : ℕ) (c : ℕ × ℕ) → get_elem? cuts i ≡ some c → (lo ≤ c.1) × (c.1 ≤ key)
  end-le i c e = elim (ℕ_discrete i v.count) [
    | yes last_one ↦
        let same : some c ≡ some (v.shard, key) = sym e ∙ ap (get_elem? cuts) last_one ∙ v.at_key in
        let at : c ≡ (v.shard, key) = cc in
        (Ends-range lo i cuts c v.rising e, omega (arith, ap (λ (p : ℕ × ℕ). p.1) at))
    | no before ↦ (
      Ends-range lo i cuts c v.rising e,
      omega (
        arith,
        Ends-mono lo i v.count cuts c (v.shard, key) v.rising e v.at_key
            (omega (arith, v.counted, get_elem?-lt cuts i c e)),
      ),
    )
  ]

  pub diff-exact : (i : ℕ) (c : ℕ × ℕ) → get_elem? cuts i ≡ some c → diff_of key c + c.1 ≡ key
  diff-exact i c e = omega (arith, end-le i c e, v.narrow, v.in_range)

  -- The difference at an index from the back.
  reversed_diff :
      (ix i : ℕ) (c : ℕ × ℕ)
      → ix + i + 1 ≡ length cuts
      → get_elem? cuts i ≡ some c
      → get_elem? (reverse (map (diff_of key) cuts)) ix ≡ some (diff_of key c)
  reversed_diff ix i c h e =
      get_elem?-reverse (map (diff_of key) cuts) ix i (omega (arith, length-map (diff_of key) cuts))
      ∙ get_elem?-map (diff_of key) cuts i c e

  -- The owner, from the index of its cut.
  owner_before :
      (n i : ℕ) (c : ℕ × ℕ)
      → get_elem? cuts i ≡ some c
      → n ≤ c.1
      → ((j : ℕ) (d : ℕ × ℕ) → i ≡ j + 1 → get_elem? cuts j ≡ some d → d.1 < n)
      → owner n cuts ≡ some c.0
  owner_before n i c e h before = owner_at n lo i cuts c v.rising e h before

  abbrev ids : List ℕ
  ids = map (λ c. c.0) cuts

  abbrev diffs : List ℕ
  diffs = reverse (map (diff_of key) cuts)

  ids_at : (i : ℕ) (c : ℕ × ℕ) → get_elem? cuts i ≡ some c → get_elem? ids i ≡ some c.0
  ids_at = get_elem?-map (λ c. c.0) cuts

  module _ (n : ℕ) (from : lo ≤ n) (below : n < key) where
    abbrev ix : ℕ
    ix = lower_bound (key - n) diffs

    -- Before the index found from the back, the cuts end past the number.
    end_past :
        (i j : ℕ) (c : ℕ × ℕ)
        → i + j + 1 ≡ length cuts
        → i < ix
        → get_elem? cuts j ≡ some c
        → n < c.1
    end_past i j c h before e = omega (
      arith,
      diff-exact j c e,
      lower_bound_before (key - n) i (diff_of key c) diffs (reversed_diff i j c h e) before,
    )

    -- At that index, the cut ends at the number or before it.
    end_at : (j : ℕ) (c : ℕ × ℕ) → ix + j + 1 ≡ length cuts → get_elem? cuts j ≡ some c → c.1 ≤ n
    end_at j c h e = omega (
      arith,
      diff-exact j c e,
      end-le j c e,
      lower_bound_at (key - n) (diff_of key c) diffs (reversed_diff ix j c h e),
    )

    ix_le : ix ≤ length cuts
    ix_le = omega (
      arith,
      lower_bound-le (key - n) diffs,
      length-reverse (map (diff_of key) cuts),
      length-map (diff_of key) cuts,
    )

    abbrev IsFound : ℕ → Type 0
    IsFound i =
        (c : ℕ × ℕ) × (get_elem? cuts i ≡ some c)
        × (owner n cuts ≡ some c.0)
        × (get_elem? ids i ≡ some c.0)

    -- All cuts end past the number: it is of the first shard.
    IsFound-first : length cuts ≡ ix → IsFound 0
    IsFound-first h =
        let (c, e) = get_elem?-total cuts 0 (omega (arith, v.counted)) in
        (
          c,
          e,
          owner_before n 0 c e
              (omega (
                arith,
                end_past v.count 0 c (omega (arith, v.counted)) (omega (arith, v.counted, h)) e,
              ))
              (λ j d g k. absurd (omega arith)),
          ids_at 0 c e,
        )

    -- The cut at the index ends at the number.
    IsFound-here : (j : ℕ) (c : ℕ × ℕ) → get_elem? cuts j ≡ some c → c.1 ≡ n → IsFound j
    IsFound-here j c e at = (
      c,
      e,
      owner_before n j c e (omega (arith, at))
          (λ i d g k. omega (arith, at, Ends-mono lo i j cuts d c v.rising k e (omega (arith, g)))),
      ids_at j c e,
    )

    -- The cut at the index ends before the number: it is of the next shard.
    IsFound-next :
        (j : ℕ) (c : ℕ × ℕ)
        → get_elem? cuts j ≡ some c
        → ix + j + 1 ≡ length cuts
        → c.1 < n
        → (0 < ix) × IsFound (j + 1)
    IsFound-next j c e h low =
        let not_last : j ≢ v.count = λ same.
          let at : some c ≡ some (v.shard, key) = sym e ∙ ap (get_elem? cuts) same ∙ v.at_key in
          let at' : c ≡ (v.shard, key) = cc in omega (arith, ap (λ (p : ℕ × ℕ). p.1) at') in
        let (d, there) =
          get_elem?-total cuts (j + 1)
            (omega (arith, not_last, v.counted, get_elem?-lt cuts j c e)) in
        let some_back : 0 < ix = omega (arith, not_last, v.counted, h, get_elem?-lt cuts j c e) in
        (
          some_back,
          (
            d,
            there,
            owner_before n (j + 1) d there
                (omega (arith, end_past (ix - 1) (j + 1) d (omega arith) (omega arith) there))
                (λ i b g k.
                  let same : i ≡ j = omega arith in
                  let at : some b ≡ some c = sym k ∙ ap (get_elem? cuts) same ∙ e in
                  let at' : b ≡ c = cc in omega (arith, ap (λ (p : ℕ × ℕ). p.1) at')),
            ids_at (j + 1) d there,
          ),
        )

    shard_is :
        (shard i j : ℕ)
        → i ≡ j
        → get_elem? ids j ≡ some shard
        → at_or_fatal (get_elem? ids i) ≡ ok shard
    shard_is shard i j e id = ap at_or_fatal (ap (get_elem? ids) e ∙ id)

    shard_from_back_lem :
        (o : Option ℕ)
        → get_elem? diffs ix ≡ o
        → (shard : ℕ) × (owner n cuts ≡ some shard)
          × (shard_from_back ids (key - n) ix o ≡ ok shard)
    unfolding shard_from_back
    shard_from_back_lem none e =
        let (c, at, own, id) = IsFound-first (
          omega (
            arith,
            ix_le,
            get_elem?-none diffs ix e,
            length-reverse (map (diff_of key) cuts),
            length-map (diff_of key) cuts,
          )) in
        (c.0, own, rw id refl)
    shard_from_back_lem (some d) e =
        let j = length cuts - 1 - ix in
        let here : ix < length cuts = omega (
          arith,
          get_elem?-lt diffs ix d e,
          length-reverse (map (diff_of key) cuts),
          length-map (diff_of key) cuts,
        ) in
        let (c, at) = get_elem?-total cuts j (omega arith) in
        let same : some d ≡ some (diff_of key c) = sym e ∙ reversed_diff ix j c (omega arith) at in
        let same' : d ≡ diff_of key c = cc in
        let width : length ids ≡ length cuts = length-map (λ c. c.0) cuts in
        elim (Bool-cases (d == key - n)) [
          | inl exact ↦
              let (b, at_j, own, id) =
                IsFound-here j c at
                  (omega (arith, same', diff-exact j c at, (==_iff d (key - n)).0 exact)) in
              (b.0, own, rw exact (shard_is b.0 (length ids - 1 - ix) j (omega (arith, width)) id))
          | inr over ↦
              let low : c.1 < n =
                ground (arith, end_at j c (omega arith) at, diff-exact j c at, same') in
              let (some_back, (b, at_j, own, id)) = IsFound-next j c at (omega arith) low in
              let not_first : (ix == 0) ≡ false = ground (arith, some_back) in
              let several : ltb 1 (length ids) ≡ true =
                lt→ltb 1 (length ids) (omega (arith, width, some_back)) in
              (
                b.0,
                own,
                rw (over, not_first, several)
                    (shard_is b.0 (length ids - 1 - (ix - 1)) (j + 1)
                      (omega (arith, width, some_back)) id),
              )
        ]

  -- The key itself is of the last shard.
  pub key_lem :
      (n : ℕ)
      → n ≡ key
      → (owner n cuts ≡ some v.shard)
        × (at_or_fatal (last (new_link_entry key cuts).storage_shard_ids) ≡ ok v.shard)
  unfolding new_link_entry
  key_lem n same = (
    owner_before n v.count (v.shard, key) v.at_key (omega (arith, same))
        (λ j d e k. omega (
          arith,
          same,
          Ends-mono lo j v.count cuts d (v.shard, key) v.rising k v.at_key (omega (arith, e)),
        )),
    ap at_or_fatal (
        last-get_elem? ids v.count (omega (arith, length-map (λ c. c.0) cuts, v.counted))
        ∙ ids_at v.count (v.shard, key) v.at_key),
  )

  -- For a number of the cut `FindStorageShardIdInLinkEntry` returns, and what it returns is the shard
  -- of the first productive shard that ends at the number or past it. The cut has at most 2 ^ 16
  -- numbers; in a wider one the differences are narrowed and the shard may be another.
  pub find_storage_shard_id_lem :
      (n : ℕ)
      → lo ≤ n
      → n ≤ key
      → (shard : ℕ) × (owner n cuts ≡ some shard)
        × (find_storage_shard_id key (new_link_entry key cuts) n ≡ ok shard)
  unfolding find_storage_shard_id new_link_entry
  find_storage_shard_id_lem n from within = elim (Bool-cases (n == key)) [
    | inl at_key ↦
        let (own, run) = key_lem n ((==_iff n key).0 at_key) in
        let not_past : ltb key n ≡ false = ground arith in (v.shard, own, rw (not_past, at_key) run)
    | inr before ↦
        let below : n < key = ground arith in
        let not_past : ltb key n ≡ false = ground arith in
        let exact : (key - n) % 2 ^ 16 ≡ key - n = omega (arith, from, v.narrow) in
        let some_diff : (key - n == 0) ≡ false = ground arith in
        let (shard, own, run) =
          shard_from_back_lem n from below (get_elem? diffs (lower_bound (key - n) diffs)) refl in
        (shard, own, rw (not_past, before, exact, some_diff) run)
  ]
