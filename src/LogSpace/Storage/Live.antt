-- ===== src/LogSpace/Storage/Live.antt =====
-- The live records of a `LogStorage` (src/log/log_space.cpp): `live_seqnums_` and
-- `live_log_entries_`, and how they are evicted.
use ixe.Prelude.{
  elem-append_one, ℕ, ◌+◌, ◌≤◌, ◌<◌, ◌≡◌, ◌⊎◌, refl, ◌∙◌, false, List, [], ◌∷◌, ◌++◌, elem, length,
  arith, ltb, ◌==◌, ◌&&◌, if◌then◌else◌, some, inl, inr, dec_lt, Bool-cases,
}
use ixe.Prelude.Maps.{
  find?, contains, erase, put, contains-erase, find?-erase, contains-put, find?-put,
}
use ixe.Protocol.{LogEntry}
use ixe.LogSpace.Storage.{
  Storage, shrink, shrink_live_entries_if_needed, make_live, log_entries_persisted,
}

-- Rising numbers from `lo` on, all below `hi`.
abbrev pub Ordered : ℕ → ℕ → List ℕ → Type 0
Ordered lo hi [] = Unit {0}
Ordered lo hi (k ∷ ks) = (lo ≤ k) × (k < hi) × Ordered (k + 1) hi ks

Ordered-mono : (lo lo' hi : ℕ) (ks : List ℕ) → lo' ≤ lo → Ordered lo hi ks → Ordered lo' hi ks
Ordered-mono lo lo' hi [] h o = tt
Ordered-mono lo lo' hi (k ∷ ks) h o = (omega arith, o.1, o.2)

Ordered-append :
    (lo hi k : ℕ) (ks : List ℕ)
    → lo ≤ k
    → hi ≤ k
    → Ordered lo hi ks
    → Ordered lo (k + 1) (ks ++ k ∷ [])
Ordered-append lo hi k [] a b o = (a, omega arith, tt)
Ordered-append lo hi k (j ∷ ks) a b o =
    (o.0, omega arith, Ordered-append (j + 1) hi k ks (omega arith) b o.2)

pub elem_below : (lo hi k : ℕ) (ks : List ℕ) → Ordered lo hi ks → k < lo → elem k ks ≡ false
unfolding elem
elem_below lo hi k [] o h = refl
elem_below lo hi k (j ∷ ks) o h = ground (arith, elem_below (j + 1) hi k ks o.2)

pub elem_above : (lo hi k : ℕ) (ks : List ℕ) → Ordered lo hi ks → hi ≤ k → elem k ks ≡ false
unfolding elem
elem_above lo hi k [] o h = refl
elem_above lo hi k (j ∷ ks) o h = ground (arith, elem_above (j + 1) hi k ks o.2)

-- What an eviction may do to the live records `ks` and `entries`.
record Evicted (max_size persisted lo hi : ℕ) (ks : List ℕ) (entries : List (ℕ × LogEntry))
    (r : List ℕ × List (ℕ × LogEntry)) : Type 0 where
  ordered : Ordered lo hi r.0
  same : (k : ℕ) → contains k r.1 ≡ elem k r.0
  kept : (k : ℕ) → persisted ≤ k → find? k r.1 ≡ find? k entries
  part : (k : ℕ) (e : LogEntry) → find? k r.1 ≡ some e → find? k entries ≡ some e
  small : (length r.0 ≤ max_size) ⊎ Ordered persisted hi r.0

shrink-Evicted :
    (max_size persisted lo hi : ℕ) (ks : List ℕ) (entries : List (ℕ × LogEntry))
    → Ordered lo hi ks
    → ((k : ℕ) → contains k entries ≡ elem k ks)
    → Evicted max_size persisted lo hi ks entries (shrink max_size persisted ks entries)
unfolding shrink elem
shrink-Evicted max_size persisted lo hi [] entries o same = record {
  ordered = tt;
  same = same;
  kept = λ k p. refl;
  part = λ k e h. h;
  small = inl (omega arith);
}
shrink-Evicted max_size persisted lo hi (k ∷ ks) entries o same =
    elim (Bool-cases (ltb max_size (length (k ∷ ks)) && ltb k persisted)) [
      | inl drop ↦
          let v = shrink-Evicted max_size persisted (k + 1) hi ks (erase k entries) o.2 (λ j.
            ground (arith, contains-erase k j entries, same j, elem_below (k + 1) hi j ks o.2)) in
          rw drop (record {
            ordered = Ordered-mono (k + 1) lo hi _ (omega arith) v.ordered;
            same = v.same;
            kept = λ j p. v.kept j p ∙ ground (arith, find?-erase k j entries);
            part = λ j e h. ground (arith, v.part j e h, find?-erase k j entries);
            small = v.small;
          })
      | inr keep ↦ rw keep (record {
        ordered = o;
        same = same;
        kept = λ j p. refl;
        part = λ j e h. h;
        small = elim (dec_lt k persisted) [
          | yes low ↦ inl (ground arith)
          | no high ↦ inr (omega arith, o.1, o.2)
        ];
      })
    ]

-- The live records: their numbers rise, all below `hi`, each names a record that carries it, and the
-- index `live_log_entries_` holds no other.
pub record IsLive (hi : ℕ) (ks : List ℕ) (entries : List (ℕ × LogEntry)) : Type 0 where
  pub ordered : Ordered 0 hi ks
  pub same : (k : ℕ) → contains k entries ≡ elem k ks
  pub stamped : (k : ℕ) (e : LogEntry) → find? k entries ≡ some e → e.metadata.seqnum ≡ k

abbrev pub Live : ℕ → Storage → Type 0
Live hi s = IsLive hi s.live_seqnums s.live_log_entries

Evicted-IsLive :
    (max_size persisted hi : ℕ) (ks : List ℕ) (entries : List (ℕ × LogEntry))
    → IsLive hi ks entries
    → let r = shrink max_size persisted ks entries in IsLive hi r.0 r.1
Evicted-IsLive max_size persisted hi ks entries v =
    let w = shrink-Evicted max_size persisted 0 hi ks entries v.ordered v.same in
    record { ordered = w.ordered; same = w.same; stamped = λ k e h. v.stamped k e (w.part k e h) }

-- A record that gets a number above all live ones joins them.
extend-IsLive :
    (hi : ℕ) (ks : List ℕ) (entries : List (ℕ × LogEntry)) (e : LogEntry)
    → e.metadata.seqnum ≡ hi
    → IsLive hi ks entries
    → IsLive (hi + 1) (ks ++ hi ∷ []) (put hi e entries)
extend-IsLive hi ks entries e q v = record {
  ordered = Ordered-append 0 hi hi ks (omega arith) (omega arith) v.ordered;
  same = λ k. ground (arith, contains-put hi k e entries, elem-append_one k hi ks, v.same k);
  stamped = λ k x h. ground (arith, find?-put hi k e entries, v.stamped k x);
}

-- `LogEntriesPersisted` keeps the live records in order, drops none at or above the new position, and
-- leaves at most `max_size` of them below it.
pub log_entries_persisted_lem :
    (max_size new_position hi : ℕ) (s : Storage)
    → Live hi s
    → let s' = log_entries_persisted max_size new_position s in
      Live hi s'
      × ((k : ℕ) → new_position ≤ k → find? k s'.live_log_entries ≡ find? k s.live_log_entries)
      × ((length s'.live_seqnums ≤ max_size) ⊎ Ordered new_position hi s'.live_seqnums)
unfolding log_entries_persisted shrink_live_entries_if_needed
log_entries_persisted_lem max_size new_position hi s v =
    let w =
      shrink-Evicted max_size new_position 0 hi s.live_seqnums s.live_log_entries v.ordered
        v.same in
    (Evicted-IsLive max_size new_position hi s.live_seqnums s.live_log_entries v, w.kept, w.small)

-- A record that becomes live at number `hi` is found there unless it is persisted already, and evicts
-- no other record that is not.
pub make_live_lem :
    (max_size hi localid : ℕ) (e : LogEntry) (s : Storage)
    → e.metadata.seqnum ≡ hi
    → Live hi s
    → let s' = make_live max_size hi localid e s in
      Live (hi + 1) s'
      × (s'.persisted_seqnum_position ≡ s.persisted_seqnum_position)
      × ((k : ℕ)
          → s.persisted_seqnum_position ≤ k
          → find? k s'.live_log_entries ≡ (if hi == k then some e else find? k s.live_log_entries))
unfolding make_live shrink_live_entries_if_needed
make_live_lem max_size hi localid e s q v =
    let x = extend-IsLive hi s.live_seqnums s.live_log_entries e q v in
    let w =
      shrink-Evicted max_size s.persisted_seqnum_position 0 (hi + 1) (s.live_seqnums ++ hi ∷ [])
        (put hi e s.live_log_entries) x.ordered x.same in
    (
      Evicted-IsLive max_size s.persisted_seqnum_position (hi + 1) (s.live_seqnums ++ hi ∷ [])
          (put hi e s.live_log_entries) x,
      refl,
      λ k p. w.kept k p ∙ find?-put hi k e s.live_log_entries,
    )
