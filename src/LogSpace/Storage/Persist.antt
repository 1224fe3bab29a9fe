-- ===== src/LogSpace/Storage/Persist.antt =====
-- What `GrabLogEntriesForPersistence` of src/log/log_space.cpp hands to the storage engine.
use ixe.Prelude.{
  ℕ, ◌+◌, ◌%◌, ◌^◌, ◌≤◌, ◌<◌, ◌≡◌, ◌⊎◌, refl, sym, ap, ◌∙◌, true, false, List, [], ◌∷◌, elem, arith,
  lt→ltb, ltb, leb, ◌&&◌, ok, some, none, inl, inr, dec_lt, subst, ℕ_discrete,
}
use ixe.Prelude.Maps.{find?, contains, contains-find?, find?-contains}
use ixe.Protocol.{LogEntry}
use ixe.LogSpace.Storage.{
  Storage, grab_log_entries_for_persistence, from_bound, entries_at, last_or,
}
use ixe.LogSpace.Storage.Live.{IsLive, Live, Ordered, elem_below}

-- The list holds the record.
abbrev pub Holds : LogEntry → List LogEntry → Type 0
Holds e [] = ⊥
Holds e (x ∷ xs) = (x ≡ e) ⊎ Holds e xs

-- All records of the list stand from `lo` on, by rising sequence number.
abbrev pub InOrder : ℕ → List LogEntry → Type 0
InOrder lo [] = Unit {0}
InOrder lo (x ∷ xs) = (lo ≤ x.metadata.seqnum) × InOrder (x.metadata.seqnum + 1) xs

from_bound-Ordered :
    (bound lo hi : ℕ) (ks : List ℕ) → Ordered lo hi ks → Ordered bound hi (from_bound bound ks)
unfolding from_bound
from_bound-Ordered bound lo hi [] o = tt
from_bound-Ordered bound lo hi (k ∷ ks) o =
    ground (arith, from_bound-Ordered bound (k + 1) hi ks o.2)

elem-from_bound :
    (bound lo hi : ℕ) (ks : List ℕ) (k : ℕ)
    → Ordered lo hi ks
    → elem k (from_bound bound ks) ≡ (leb bound k && elem k ks)
unfolding from_bound elem
elem-from_bound bound lo hi [] k o = ground arith
elem-from_bound bound lo hi (j ∷ ks) k o =
    ground (arith, elem-from_bound bound (j + 1) hi ks k o.2, elem_below (j + 1) hi k ks o.2)

le→ltb : (a b : ℕ) → b ≤ a → ltb a b ≡ false
le→ltb a b h = ground arith

some_eq : (x y : LogEntry) → some x ≡ some y → x ≡ y
some_eq x y h = cc

-- All numbers of the list name live records, so the reads of the map succeed.
entries_at_lem :
    (lo hi : ℕ) (ks : List ℕ) (m : List (ℕ × LogEntry))
    → Ordered lo hi ks
    → ((k : ℕ) → elem k ks ≡ true → contains k m ≡ true)
    → ((k : ℕ) (e : LogEntry) → find? k m ≡ some e → e.metadata.seqnum ≡ k)
    → (es : List LogEntry) × (entries_at m ks ≡ ok es)
      × InOrder lo es
      × ((k : ℕ) (e : LogEntry) → elem k ks ≡ true → find? k m ≡ some e → Holds e es)
unfolding entries_at elem
entries_at_lem lo hi [] m o c st = ([], refl, tt, λ k e h f. cc)
entries_at_lem lo hi (j ∷ ks) m o c st =
    let (x, found) = contains-find? j m (c j (ground arith)) in
    let (es, e, i, all) = entries_at_lem (j + 1) hi ks m o.2 (λ k h. c k (ground arith)) st in
    (
      x ∷ es,
      rw (found, e),
      (omega (arith, st j x found, o.0), subst (λ n. InOrder (n + 1) es) (sym (st j x found)) i),
      λ k y h f. elim (ℕ_discrete j k) [
        | yes same ↦ inl (some_eq x y (sym found ∙ ap (λ n. find? n m) same ∙ f))
        | no other ↦ inr (all k y (ground arith) f)
      ],
    )

last_or-bounds :
    (lo hi k : ℕ) (ks : List ℕ)
    → Ordered lo hi (k ∷ ks)
    → (last_or k ks < hi) × ((j : ℕ) → elem j (k ∷ ks) ≡ true → j ≤ last_or k ks)
unfolding elem
last_or-bounds lo hi k [] o = (o.1, λ j h. ground arith)
last_or-bounds lo hi k (i ∷ ks) o =
    let (below, top) = last_or-bounds (k + 1) hi i ks o.2 in
    (below, λ j h. ground (arith, top j, top i))

abbrev Grabbed : List ℕ → Storage → Type 0
Grabbed ks s =
    ((grab_log_entries_for_persistence s ≡ ok none)
      × ((k : ℕ) → elem k ks ≡ true → k < s.persisted_seqnum_position))
    ⊎ ((es : List LogEntry) × (pos : ℕ) × (grab_log_entries_for_persistence s ≡ ok (some (es, pos)))
        × InOrder s.persisted_seqnum_position es
        × ((k : ℕ) (e : LogEntry)
            → s.persisted_seqnum_position ≤ k
            → find? k s.live_log_entries ≡ some e
            → Holds e es × (k < pos)))

grab_cases :
    (hi : ℕ) (ks : List ℕ) (s : Storage)
    → s.live_seqnums ≡ ks
    → hi < 2 ^ 64
    → IsLive hi ks s.live_log_entries
    → Grabbed ks s
unfolding grab_log_entries_for_persistence elem
grab_cases hi [] s q b v = inl (rw q, λ k h. cc)
grab_cases hi (j ∷ ks) s q b v =
    let p = s.persisted_seqnum_position in
    let (below, top) = last_or-bounds 0 hi j ks v.ordered in
    elim (dec_lt (last_or j ks) p) [
      | yes old ↦ inl (rw (q, lt→ltb (last_or j ks) p old), λ k h. omega (arith, top k h))
      | no new ↦
          let (es, e, i, all) =
            entries_at_lem p hi (from_bound p (j ∷ ks)) s.live_log_entries
              (from_bound-Ordered p 0 hi (j ∷ ks) v.ordered)
              (λ k h. v.same k ∙ ground (arith, elem-from_bound p 0 hi (j ∷ ks) k v.ordered))
              v.stamped in
          inr (
            es,
            (last_or j ks + 1) % 2 ^ 64,
            rw (q, le→ltb (last_or j ks) p (omega arith), e),
            i,
            λ k x h f.
                let here = sym (v.same k) ∙ find?-contains k s.live_log_entries x f in
                (
                  all k x (elem-from_bound p 0 hi (j ∷ ks) k v.ordered ∙ ground arith) f,
                  omega (arith, top k here),
                ),
          )
    ]

-- `GrabLogEntriesForPersistence` answers `false` only if every live record is persisted, and otherwise
-- hands over every live record that is not, by rising sequence number from the persisted position on,
-- with a new position above them all. It never fails.
pub grab_lem :
    (hi : ℕ) (s : Storage)
    → hi < 2 ^ 64
    → Live hi s
    → ((grab_log_entries_for_persistence s ≡ ok none)
        × ((k : ℕ) → elem k s.live_seqnums ≡ true → k < s.persisted_seqnum_position))
      ⊎ ((es : List LogEntry) × (pos : ℕ) × (grab_log_entries_for_persistence s
            ≡ ok (some (es, pos)))
          × InOrder s.persisted_seqnum_position es
          × ((k : ℕ) (e : LogEntry)
              → s.persisted_seqnum_position ≤ k
              → find? k s.live_log_entries ≡ some e
              → Holds e es × (k < pos)))
unfolding grab_log_entries_for_persistence
grab_lem hi s b v = grab_cases hi s.live_seqnums s refl b v
