-- ===== src/SuffixChain/Points.antt =====
-- What `FindNext` and `FindPrev` of `SeqnumSuffixLink` (src/log/index_local_suffix.cpp) answer.
use ixe.Prelude.{
  ℕ, ◌+◌, ◌-◌, ◌%◌, ◌^◌, ◌≤◌, ◌<◌, ◌≡◌, refl, sym, ap, ◌∙◌, subst, true, false, Option, none, some,
  List, [], ◌∷◌, ◌++◌, ltb, ◌==◌, ok, Outcome, at_or_fatal, lt→ltb, leb, arith, ℕ_discrete,
}
use ixe.Bits.{join_two32, join_two32_lem, low_half64}
use ixe.SuffixChain.Link.{
  LinkEntry, Entries, last, new_link_entry, entries_head, entries_tail, point_hit,
  entries_find_next, entries_find_prev,
}
use ixe.SuffixChain.Owner.{owner, IsCut, diff_of}
use ixe.SuffixChain.Shard.{end-le, diff-exact, key_lem}
use ixe.SuffixChain.Search.{IsEntries, all_cuts, owner-append, owner-append_past, search_lem}

module _ (id : ℕ) where
  -- The head is where the first productive shard of the first cut ends.
  head_lem :
      (lo key end shard : ℕ) (e : LinkEntry) (g : List (ℕ × ℕ)) (es : Entries)
      → IsCut lo key ((shard, end) ∷ g)
      → e ≡ new_link_entry key ((shard, end) ∷ g)
      → entries_head id ((key, e) ∷ es) ≡ ok (join_two32 id end, shard)
  unfolding entries_head new_link_entry
  head_lem lo key end shard e g es v same =
      let exact = diff-exact lo key ((shard, end) ∷ g) v 0 (shard, end) refl in
      let back : (key + 2 ^ 32 - diff_of key (shard, end)) % 2 ^ 32 ≡ end =
        omega (arith, exact, v.in_range) in
      subst (λ x. entries_head id ((key, x) ∷ es) ≡ ok (join_two32 id end, shard)) (sym same)
        (rw back refl)

  -- The tail is the last number of the last cut.
  tail_lem :
      (lo : ℕ) (es : Entries) (gs : List (List (ℕ × ℕ))) (l : ℕ × LinkEntry)
      → IsEntries lo es gs
      → last es ≡ some l
      → (shard : ℕ) × (owner l.0 (all_cuts gs) ≡ some shard)
        × (entries_tail id es ≡ ok (join_two32 id l.0, shard))
        × (lo ≤ l.0)
        × (l.0 < 2 ^ 32)
  unfolding entries_tail
  tail_lem lo [] gs l v e = cc
  tail_lem lo ((key, x) ∷ es) [] l v e = absurd v
  tail_lem lo ((key, x) ∷ []) (g ∷ gs) (k, y) v e =
      let at : (key, x) ≡ (k, y) = cc in
      let same : k ≡ key = sym (ap (λ (p : ℕ × LinkEntry). p.0) at) in
      let (own, run) = key_lem lo key g v.0 k same in
      let run' = ap (λ (z : LinkEntry). at_or_fatal (last z.storage_shard_ids)) v.1 ∙ run in
      (
        v.0.shard,
        owner-append k v.0.shard g (all_cuts gs) own,
        rw run' (ap (λ i. ok (join_two32 id i, v.0.shard)) (sym same)),
        omega (arith, same, end-le lo key g v.0 v.0.count (v.0.shard, key) v.0.at_key),
        omega (arith, same, v.0.in_range),
      )
  tail_lem lo ((key, x) ∷ y ∷ es) (g ∷ []) l v e = absurd v.2
  tail_lem lo ((key, x) ∷ y ∷ es) (g ∷ g' ∷ gs) l v e =
      let (shard, own, run, low, high) = tail_lem (key + 1) (y ∷ es) (g' ∷ gs) l v.2 e in
      (
        shard,
        owner-append_past l.0 g (all_cuts (g' ∷ gs))
              (λ i c at. omega (arith, low, end-le lo key g v.0 i c at))
            ∙ own,
        run,
        omega (arith, low, end-le lo key g v.0 v.0.count (v.0.shard, key) v.0.at_key),
        high,
      )

  key-le-last :
      (lo key : ℕ) (e : LinkEntry) (es : Entries) (gs : List (List (ℕ × ℕ))) (l : ℕ × LinkEntry)
      → IsEntries lo ((key, e) ∷ es) gs
      → last ((key, e) ∷ es) ≡ some l
      → key ≤ l.0
  key-le-last lo key e es [] l v ends = absurd v
  key-le-last lo key e [] (g ∷ gs) l v ends =
      let at : (key, e) ≡ l = cc in omega (arith, ap (λ (p : ℕ × LinkEntry). p.0) at)
  key-le-last lo key e (y ∷ es) (g ∷ gs) l v ends =
      let (shard, own, run, low, high) = tail_lem (key + 1) (y ∷ es) gs l v.2 ends in
      omega (arith, low)

  -- Joined numbers are in the order of their low halves.
  join_order :
      (i j : ℕ)
      → id < 2 ^ 32
      → i < 2 ^ 32
      → j < 2 ^ 32
      → (i < j → join_two32 id i < join_two32 id j) × (i ≡ j → join_two32 id i ≡ join_two32 id j)
  join_order i j h a b =
      (λ lt. omega (arith, join_two32_lem id i h a, join_two32_lem id j h b), ap (join_two32 id))

  low_half : (n : ℕ) → id < 2 ^ 32 → n < 2 ^ 32 → low_half64 (join_two32 id n) ≡ n
  unfolding low_half64 join_two32
  low_half n h a = omega arith

  -- A number that the link can answer, with its owner, where it stands by itself.
  abbrev pub IsPoint : ℕ → List (ℕ × ℕ) → Outcome (Option (ℕ × ℕ)) → Type 0
  IsPoint n cuts o =
      (shard : ℕ) × (owner n cuts ≡ some shard) × (o ≡ ok (some (join_two32 id n, shard)))

  module _ (lo key end shard : ℕ) (e : LinkEntry) (g : List (ℕ × ℕ)) (es : Entries)
      (gs : List (List (ℕ × ℕ))) (l : ℕ × LinkEntry) (n : ℕ) (id_range : id < 2 ^ 32)
      (n_range : n < 2 ^ 32) (v : IsEntries lo ((key, e) ∷ es) (((shard, end) ∷ g) ∷ gs))
      (ends : last ((key, e) ∷ es) ≡ some l) where
    abbrev query : ℕ
    query = join_two32 id n

    abbrev cuts : List (ℕ × ℕ)
    cuts = ((shard, end) ∷ g) ++ all_cuts gs

    point_hit_lem :
        lo ≤ n
        → n < l.0
        → IsPoint n
            (((shard, end) ∷ g) ++ all_cuts gs)
            (point_hit (join_two32 id n) ((key, e) ∷ es))
    unfolding point_hit
    point_hit_lem from below =
        let (s, own, run) =
          search_lem n lo none ((key, e) ∷ es) (((shard, end) ∷ g) ∷ gs) l v from tt ends below in
        (s, own, rw (low_half n id_range n_range, run) refl)

    -- `FindNext` of a link runs. For a number from the end of the first cut that is left up to the last
    -- number of all, it answers with the number itself and the shard that owns it among all cuts of the
    -- link; for every other number it answers that there is none. Each cut has at most 2 ^ 16
    -- numbers.
    pub entries_find_next_lem :
        (n < end → entries_find_next id (join_two32 id n) ((key, e) ∷ es) ≡ ok none)
        × (l.0 < n → entries_find_next id (join_two32 id n) ((key, e) ∷ es) ≡ ok none)
        × (end ≤ n
            → n ≤ l.0
            → IsPoint n
                (((shard, end) ∷ g) ++ all_cuts gs)
                (entries_find_next id (join_two32 id n) ((key, e) ∷ es)))
    unfolding entries_find_next owner
    entries_find_next_lem =
        let head = head_lem lo key end shard e g es v.0 v.1 in
        let (ts, tail_own, tail, low, high) =
          tail_lem lo ((key, e) ∷ es) (((shard, end) ∷ g) ∷ gs) l v ends in
        let first = end-le lo key ((shard, end) ∷ g) v.0 0 (shard, end) refl in
        let end_range : end < 2 ^ 32 = omega (arith, first, v.0.in_range) in
        let to_head = join_order n end id_range n_range end_range in
        let from_head = join_order end n id_range end_range n_range in
        let to_tail = join_order n l.0 id_range n_range high in
        let from_tail = join_order l.0 n id_range high n_range in
        let within_tail = key-le-last lo key e es (((shard, end) ∷ g) ∷ gs) l v ends in
        (
          λ before.
              let low_query : ltb query (join_two32 id end) ≡ true =
                lt→ltb query (join_two32 id end) (to_head.0 before) in
              rw (head, low_query) refl,
          λ past.
              let over : join_two32 id end < query =
                from_head.0 (omega (arith, first, within_tail)) in
              let not_low : ltb query (join_two32 id end) ≡ false = ground arith in
              let not_head : (query == join_two32 id end) ≡ false = ground arith in
              let beyond : ltb (join_two32 id l.0) query ≡ true =
                lt→ltb (join_two32 id l.0) query (from_tail.0 past) in
              rw (head, not_low, not_head, tail, beyond) refl,
          λ from within. elim (ℕ_discrete n end) [
            | yes at_head ↦
                let same = to_head.1 at_head in
                let not_low : ltb query (join_two32 id end) ≡ false = ground arith in
                let here : (query == join_two32 id end) ≡ true = ground arith in
                (
                  shard,
                  ground arith,
                  rw (head, not_low, here) (ap (λ i. ok (some (i, shard))) (sym same)),
                )
            | no after ↦
                let over : join_two32 id end < query = from_head.0 (omega arith) in
                let not_low : ltb query (join_two32 id end) ≡ false = ground arith in
                let not_head : (query == join_two32 id end) ≡ false = ground arith in
                elim (ℕ_discrete n l.0) [
                  | yes at_tail ↦
                      let same = to_tail.1 at_tail in
                      let not_past : ltb (join_two32 id l.0) query ≡ false = ground arith in
                      let here : (query == join_two32 id l.0) ≡ true = ground arith in
                      (
                        ts,
                        subst (λ i. owner i cuts ≡ some ts) (sym at_tail) tail_own,
                        rw (head, not_low, not_head, tail, not_past, here)
                            (ap (λ i. ok (some (i, ts))) (sym same)),
                      )
                  | no inside ↦
                      let inside' : query < join_two32 id l.0 = to_tail.0 (omega arith) in
                      let not_past : ltb (join_two32 id l.0) query ≡ false = ground arith in
                      let not_tail : (query == join_two32 id l.0) ≡ false = ground arith in
                      let (s, own, run) = point_hit_lem (omega (arith, first)) (omega arith) in
                      (s, own, rw (head, not_low, not_head, tail, not_past, not_tail) run)
                ]
          ],
        )

    -- `FindPrev` of a link runs. Before the end of the first cut that is left it answers that there is
    -- none; from there up to the last number of all it answers with the number itself and the shard
    -- that owns it among all cuts of the link; past the last number it answers with that and its shard.
    -- Each cut has at most 2 ^ 16 numbers.
    pub entries_find_prev_lem :
        (n < end → entries_find_prev id (join_two32 id n) ((key, e) ∷ es) ≡ ok none)
        × (end ≤ n
            → n ≤ l.0
            → IsPoint n
                (((shard, end) ∷ g) ++ all_cuts gs)
                (entries_find_prev id (join_two32 id n) ((key, e) ∷ es)))
        × (l.0 < n
            → IsPoint l.0
                (((shard, end) ∷ g) ++ all_cuts gs)
                (entries_find_prev id (join_two32 id n) ((key, e) ∷ es)))
    unfolding entries_find_prev owner
    entries_find_prev_lem =
        let head = head_lem lo key end shard e g es v.0 v.1 in
        let (ts, tail_own, tail, low, high) =
          tail_lem lo ((key, e) ∷ es) (((shard, end) ∷ g) ∷ gs) l v ends in
        let first = end-le lo key ((shard, end) ∷ g) v.0 0 (shard, end) refl in
        let end_range : end < 2 ^ 32 = omega (arith, first, v.0.in_range) in
        let to_head = join_order n end id_range n_range end_range in
        let from_head = join_order end n id_range end_range n_range in
        let to_tail = join_order n l.0 id_range n_range high in
        let from_tail = join_order l.0 n id_range high n_range in
        let within_tail = key-le-last lo key e es (((shard, end) ∷ g) ∷ gs) l v ends in
        let not_low : end ≤ n → ltb query (join_two32 id end) ≡ false = λ from.
          elim (ℕ_discrete end n) [
            | yes same ↦ let at = from_head.1 same in ground arith
            | no after ↦ let over = from_head.0 (omega arith) in ground arith
          ] in
        (
          λ before.
              let low_query : ltb query (join_two32 id end) ≡ true =
                lt→ltb query (join_two32 id end) (to_head.0 before) in
              rw (head, low_query) refl,
          λ from within. elim (ℕ_discrete n l.0) [
            | yes at_tail ↦
                let same = to_tail.1 at_tail in
                let here : leb (join_two32 id l.0) query ≡ true = ground arith in
                (
                  ts,
                  subst (λ i. owner i cuts ≡ some ts) (sym at_tail) tail_own,
                  rw (head, not_low from, tail, here) (ap (λ i. ok (some (i, ts))) (sym same)),
                )
            | no inside ↦
                let inside' : query < join_two32 id l.0 = to_tail.0 (omega arith) in
                let not_tail : leb (join_two32 id l.0) query ≡ false = ground arith in
                let (s, own, run) = point_hit_lem (omega (arith, first)) (omega arith) in
                (s, own, rw (head, not_low from, tail, not_tail) run)
          ],
          λ past.
              let over : join_two32 id l.0 < query = from_tail.0 past in
              let here : leb (join_two32 id l.0) query ≡ true = ground arith in
              (
                ts,
                tail_own,
                rw (head, not_low (omega (arith, first, within_tail)), tail, here) refl,
              ),
        )
