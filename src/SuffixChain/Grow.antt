-- ===== src/SuffixChain/Grow.antt =====
-- A `NEW_LOGS` meta log gives a link of src/log/index_local_suffix.cpp one more entry.
use ixe.Prelude.{
  ℕ, suc, ◌+◌, ◌-◌, ◌%◌, ◌^◌, ◌≤◌, ◌<◌, ◌≡◌, inl, inr, refl, sym, ap, ◌∙◌, subst, true, false,
  Option, none, some, List, [], ◌∷◌, ◌++◌, get_elem?, length, ltb, leb, ◌==◌, ok, Bool-cases,
  Outcome, >>=-eq-ok, ok-injective, if◌then◌else◌, arith,
}
use ixe.Prelude.Maps.{contains, insert, put}
use ixe.LogSpace.Base.{collect_cuts}
use ixe.SuffixChain.Link.{LinkEntry, Entries, last, new_link_entry, link_on_new_logs}
use ixe.SuffixChain.Owner.{owner, Ends, IsCut, last-get_elem?}
use ixe.SuffixChain.Shard.{end-le}
use ixe.SuffixChain.Search.{IsEntries}

-- How many records the shards of a meta log have.
abbrev pub total : List ℕ → List ℕ → ℕ
total [] deltas = 0
total (i ∷ ids) [] = 0
total (i ∷ ids) (d ∷ deltas) = d + total ids deltas

-- The shard of a number: each shard of a meta log has as many numbers as it has records, in the order of
-- the meta log.
abbrev pub shard_of : ℕ → ℕ → List ℕ → List ℕ → Option ℕ
shard_of n start [] deltas = none
shard_of n start (i ∷ ids) [] = none
shard_of n start (i ∷ ids) (d ∷ deltas) =
    if ltb n (start + d) then some (i % 2 ^ 16) else shard_of n (start + d) ids deltas

-- The cuts of the productive shards, from the first number to the one before `end`.
record IsCollected (start count : ℕ) (shard_at : ℕ → Option ℕ) (cuts : List (ℕ × ℕ)) (end : ℕ)
    : Type 0 where
  ends : end ≡ start + count
  rising : Ends start cuts
  last_cut :
      0 < count
      → (i : ℕ) × (shard : ℕ) × (i + 1 ≡ length cuts) × (get_elem? cuts i ≡ some (shard, end - 1))
  none_new : count ≡ 0 → cuts ≡ []
  owned : (n : ℕ) → start ≤ n → n < end → owner n cuts ≡ shard_at n

-- One more shard in front.
IsCollected-cons :
    (shard start d before count : ℕ) (shard_at : ℕ → Option ℕ) (cuts : List (ℕ × ℕ)) (end : ℕ)
    → (0 < d → before + 1 ≡ start + d)
    → IsCollected (start + d) count shard_at cuts end
    → IsCollected start
        (d + count)
        (λ n. if ltb n (start + d) then some shard else shard_at n)
        (if ltb 0 d then (shard, before) ∷ cuts else cuts)
        end
unfolding owner
IsCollected-cons shard start d before count shard_at cuts end one_less c =
    elim (Bool-cases (ltb 0 d)) [
      | inl some_new ↦
          let pos : 0 < d = ground arith in
          let next = one_less pos in
          rw some_new (record {
            ends = omega (arith, c.ends);
            rising = (omega (arith, pos, next), subst (λ i. Ends i cuts) (sym next) c.rising);
            last_cut = λ h. elim (Bool-cases (ltb 0 count)) [
              | inl more ↦
                  let (i, s, e, f) = c.last_cut (ground arith) in (suc i, s, omega (arith, e), f)
              | inr last_one ↦
                  let nothing : count ≡ 0 = ground arith in
                  let same : end ≡ start + d = omega (arith, nothing, c.ends) in
                  (
                    0,
                    shard,
                    omega (arith, ap (λ (l : List (ℕ × ℕ)). length l) (c.none_new nothing)),
                    let at : before ≡ end - 1 = omega (arith, same, next) in
                        ap (λ i. some (shard, i)) at,
                  )
            ];
            none_new = λ h. absurd (omega (arith, pos, h));
            owned = λ n low high. elim (Bool-cases (ltb n (start + d))) [
              | inl here ↦
                  let within : leb n before ≡ true = ground (arith, next) in rw (within, here) refl
              | inr later ↦
                  let past : leb n before ≡ false = ground (arith, next) in
                  rw (past, later) (c.owned n (ground arith) high)
            ];
          })
      | inr nothing_new ↦
          let none_here : d ≡ 0 = ground arith in
          rw nothing_new (record {
            ends = omega (arith, c.ends);
            rising = subst (λ i. Ends i cuts) {x = start + d} (omega (arith, none_here)) c.rising;
            last_cut = λ h. c.last_cut (omega (arith, none_here, h));
            none_new = λ h. c.none_new (omega (arith, none_here, h));
            owned = λ n low high.
                let later : ltb n (start + d) ≡ false = ground (arith, none_here) in
                rw later (c.owned n (omega (arith, none_here)) high);
          })
    ]

collect_cuts_lem :
    (ps : List (ℕ × ℕ)) (ids starts deltas : List ℕ) (start : ℕ)
    (r : List (ℕ × ℕ) × List (ℕ × ℕ) × ℕ)
    → collect_cuts ps ids starts deltas start ≡ ok r
    → start + total ids deltas < 2 ^ 32
    → IsCollected start (total ids deltas) (λ n. shard_of n start ids deltas) r.1 r.2
unfolding collect_cuts
collect_cuts_lem ps [] starts deltas start r e h =
    let same : (ps, [], start) ≡ r = ok-injective (ps, [], start) r e in
    subst (λ (p : List (ℕ × ℕ) × List (ℕ × ℕ) × ℕ). IsCollected start 0 (λ n. none) p.1 p.2) same
      (record {
        ends = omega arith;
        rising = tt;
        last_cut = λ h. absurd (omega (arith, h));
        none_new = λ h. refl;
        owned = λ n low high. absurd (omega arith);
      })
collect_cuts_lem ps (i ∷ ids) [] deltas start r e h = cc
collect_cuts_lem ps (i ∷ ids) (b ∷ starts) [] start r e h = cc
collect_cuts_lem ps (i ∷ ids) (b ∷ starts) (d ∷ deltas) start r e h =
    let next : (start + d) % 2 ^ 32 ≡ start + d = omega arith in
    let cut = λ (next : ℕ) (cuts : List (ℕ × ℕ)).
      if ltb 0 d then (i % 2 ^ 16, (next + 2 ^ 32 - 1) % 2 ^ 32) ∷ cuts else cuts in
    let after = λ (x : List (ℕ × ℕ) × List (ℕ × ℕ) × ℕ).
      let o : Outcome (List (ℕ × ℕ) × List (ℕ × ℕ) × ℕ) =
        ok (x.0, cut ((start + d) % 2 ^ 32) x.1, x.2) in
      o in
    let (x, run, fin) =
      >>=-eq-ok
        (collect_cuts (put (i % 2 ^ 16) ((b + d) % 2 ^ 32) ps) ids starts deltas
          ((start + d) % 2 ^ 32))
        after e in
    let same : (x.0, cut ((start + d) % 2 ^ 32) x.1, x.2) ≡ r = ok-injective _ r fin in
    let c =
      collect_cuts_lem (put (i % 2 ^ 16) ((b + d) % 2 ^ 32) ps) ids starts deltas (start + d) x
        (ap (λ n. collect_cuts (put (i % 2 ^ 16) ((b + d) % 2 ^ 32) ps) ids starts deltas n)
            (sym next)
          ∙ run)
        (omega arith) in
    subst
      (λ (p : List (ℕ × ℕ) × List (ℕ × ℕ) × ℕ).
        IsCollected start (d + total ids deltas) (λ n. shard_of n start (i ∷ ids) (d ∷ deltas)) p.1
          p.2)
      same
      (IsCollected-cons (i % 2 ^ 16) start d (((start + d) % 2 ^ 32 + 2 ^ 32 - 1) % 2 ^ 32)
        (total ids deltas) (λ n. shard_of n (start + d) ids deltas) x.1 x.2 (λ pos. omega arith) c)

-- The number after those of the entries, the first of which starts at `lo`.
abbrev pub next_number : ℕ → Entries → ℕ
next_number lo [] = lo
next_number lo ((key, e) ∷ es) = next_number (key + 1) es

next_number-le :
    (lo : ℕ) (es : Entries) (gs : List (List (ℕ × ℕ))) → IsEntries lo es gs → lo ≤ next_number lo es
next_number-le lo [] gs v = omega arith
next_number-le lo ((key, e) ∷ es) [] v = absurd v
next_number-le lo ((key, e) ∷ es) (g ∷ gs) v = omega (
  arith,
  next_number-le (key + 1) es gs v.2,
  end-le lo key g v.0 v.0.count (v.0.shard, key) v.0.at_key,
)

next_number-append :
    (lo key : ℕ) (e : LinkEntry) (es : Entries) → next_number lo (es ++ (key, e) ∷ []) ≡ key + 1
next_number-append lo key e [] = refl
next_number-append lo key e ((k, x) ∷ es) = next_number-append (k + 1) key e es

append-IsEntries :
    (lo key : ℕ) (e : LinkEntry) (cuts : List (ℕ × ℕ)) (es : Entries) (gs : List (List (ℕ × ℕ)))
    → IsEntries lo es gs
    → IsCut (next_number lo es) key cuts
    → e ≡ new_link_entry key cuts
    → IsEntries lo (es ++ (key, e) ∷ []) (gs ++ cuts ∷ [])
append-IsEntries lo key e cuts [] [] v c same = (c, same, tt)
append-IsEntries lo key e cuts [] (g ∷ gs) v c same = absurd v
append-IsEntries lo key e cuts ((k, x) ∷ es) [] v c same = absurd v
append-IsEntries lo key e cuts ((k, x) ∷ es) (g ∷ gs) v c same =
    (v.0, v.1, append-IsEntries (k + 1) key e cuts es gs v.2 c same)

insert_past :
    (key : ℕ) (e : LinkEntry) (lo : ℕ) (es : Entries) (gs : List (List (ℕ × ℕ)))
    → IsEntries lo es gs
    → next_number lo es ≤ key
    → (contains key es ≡ false) × (insert key e es ≡ es ++ (key, e) ∷ [])
unfolding contains insert
insert_past key e lo [] gs v past = (refl, refl)
insert_past key e lo ((k, x) ∷ es) [] v past = absurd v
insert_past key e lo ((k, x) ∷ es) (g ∷ gs) v past =
    let (new, at_end) = insert_past key e (k + 1) es gs v.2 past in
    let before = next_number-le (k + 1) es gs v.2 in
    let not_here : (k == key) ≡ false = ground arith in
    let not_before : ltb key k ≡ false = ground arith in
    (rw not_here new, rw (not_before, not_here) (ap (◌∷◌ (k, x)) at_end))

-- The productive cuts of a meta log that starts where the link ends give the link one more entry,
-- behind the others: the one of these cuts. They give every number of the meta log to the shard that
-- has it, where each shard has as many numbers as it has records, in the order of the meta log. The
-- meta log has records, at most 2 ^ 16, whose numbers stay below 2 ^ 32. As everywhere, the `DCHECK`s
-- are off; the one in the constructor of the entry would fail on its last shard.
pub link_on_new_logs-IsEntries :
    (ps : List (ℕ × ℕ)) (ids starts deltas : List ℕ) (lo : ℕ) (es : Entries)
    (gs : List (List (ℕ × ℕ))) (r : List (ℕ × ℕ) × List (ℕ × ℕ) × ℕ)
    → IsEntries lo es gs
    → collect_cuts ps ids starts deltas (next_number lo es) ≡ ok r
    → 0 < total ids deltas
    → total ids deltas ≤ 2 ^ 16
    → next_number lo es + total ids deltas < 2 ^ 32
    → (es' : Entries) × (link_on_new_logs r.1 es ≡ ok es')
      × IsEntries lo es' (gs ++ r.1 ∷ [])
      × (next_number lo es' ≡ next_number lo es + total ids deltas)
      × (r.2 ≡ next_number lo es + total ids deltas)
      × ((n : ℕ)
          → next_number lo es ≤ n
          → n < next_number lo es'
          → owner n r.1 ≡ shard_of n (next_number lo es) ids deltas)
unfolding link_on_new_logs
link_on_new_logs-IsEntries ps ids starts deltas lo es gs r v run some_new few small =
    let c = collect_cuts_lem ps ids starts deltas (next_number lo es) r run small in
    let (i, shard, e, at) = c.last_cut some_new in
    let key = r.2 - 1 in
    let cut : IsCut (next_number lo es) key r.1 = record {
      rising = c.rising;
      count = i;
      counted = e;
      shard = shard;
      at_key = at;
      narrow = omega (arith, c.ends, some_new, few);
      in_range = omega (arith, c.ends, small);
    } in
    let x = new_link_entry key r.1 in
    let (new, at_end) = insert_past key x lo es gs v (omega (arith, c.ends, some_new)) in
    let key_cut : last r.1 ≡ some (shard, key) = last-get_elem? r.1 i e ∙ at in
    (
      es ++ (key, x) ∷ [],
      rw (key_cut, new) (ap ok at_end),
      append-IsEntries lo key x r.1 es gs v cut refl,
      omega (arith, next_number-append lo key x es, c.ends, some_new),
      c.ends,
      λ n low high. c.owned n low (omega (arith, next_number-append lo key x es, c.ends, some_new)),
    )
