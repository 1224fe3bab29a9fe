-- ===== src/SuffixChain/Search.antt =====
-- `FindNext` and `FindPrev` of `SeqnumSuffixLink` (src/log/index_local_suffix.cpp) give the shard that
-- owns the number among all cuts of the link.
use ixe.Prelude.{
  ℕ, suc, ◌+◌, ◌≤◌, ◌<◌, ◌≡◌, inl, inr, refl, ap, ◌∙◌, true, false, Option, none, some, List, [],
  ◌∷◌, ◌++◌, get_elem?, ltb, ◌==◌, ok, Bool-cases, Outcome, at_or_fatal, ltb→lt, lt→ltb, arith,
}
use ixe.SuffixChain.Link.{
  LinkEntry, Entries, last, new_link_entry, find_storage_shard_id, shard_at, search_entries,
}
use ixe.SuffixChain.Owner.{owner, IsCut}
use ixe.SuffixChain.Shard.{end-le, key_lem, find_storage_shard_id_lem}

-- The entries are those of the cuts, which follow one another from the number `lo` on.
abbrev pub IsEntries : ℕ → Entries → List (List (ℕ × ℕ)) → Type 0
IsEntries lo [] [] = Unit {0}
IsEntries lo [] (g ∷ gs) = ⊥
IsEntries lo ((key, e) ∷ es) [] = ⊥
IsEntries lo ((key, e) ∷ es) (g ∷ gs) =
    IsCut lo key g × (e ≡ new_link_entry key g) × IsEntries (key + 1) es gs

abbrev pub all_cuts : List (List (ℕ × ℕ)) → List (ℕ × ℕ)
all_cuts [] = []
all_cuts (g ∷ gs) = g ++ all_cuts gs

pub owner-append :
    (n s : ℕ) (g rest : List (ℕ × ℕ)) → owner n g ≡ some s → owner n (g ++ rest) ≡ some s
unfolding owner
owner-append n s [] rest e = cc
owner-append n s ((shard, end) ∷ g) rest e = ground (arith, owner-append n s g rest)

pub owner-append_past :
    (n : ℕ) (g rest : List (ℕ × ℕ))
    → ((i : ℕ) (c : ℕ × ℕ) → get_elem? g i ≡ some c → c.1 < n)
    → owner n (g ++ rest) ≡ owner n rest
unfolding owner
owner-append_past n [] rest past = refl
owner-append_past n ((shard, end) ∷ g) rest past =
    ground (arith, past 0 (shard, end) refl, owner-append_past n g rest (λ i. past (suc i)))

-- The entry passed last does not end at the number.
abbrev pub NotAt : ℕ → Option (ℕ × LinkEntry) → Type 0
NotAt n none = Unit {0}
NotAt n (some (key, e)) = (key == n) ≡ false

shard_at-find :
    (n key : ℕ) (lower : Option (ℕ × LinkEntry)) (e : LinkEntry)
    → NotAt n lower
    → shard_at lower n (key, e) ≡ find_storage_shard_id key e n
unfolding shard_at
shard_at-find n key none e h = refl
shard_at-find n key (some (k, l)) e h = rw h refl

-- What the search of the entries comes to.
abbrev pub IsOwned : ℕ → List (ℕ × ℕ) → Outcome ℕ → Type 0
IsOwned n cuts o = (shard : ℕ) × (owner n cuts ≡ some shard) × (o ≡ ok shard)

module _ (n : ℕ) where
  -- In the first entry, which is not passed.
  in_first :
      (lo key : ℕ) (lower : Option (ℕ × LinkEntry)) (e : LinkEntry) (g rest : List (ℕ × ℕ))
      → IsCut lo key g
      → e ≡ new_link_entry key g
      → lo ≤ n
      → n < key
      → NotAt n lower
      → IsOwned n (g ++ rest) (shard_at lower n (key, e))
  in_first lo key lower e g rest v same from below h =
      let (shard, own, run) = find_storage_shard_id_lem lo key g v n from (omega arith) in
      (
        shard,
        owner-append n shard g rest own,
        shard_at-find n key lower e h ∙ ap (λ x. find_storage_shard_id key x n) same ∙ run,
      )

  pub search_lem :
      (lo : ℕ) (lower : Option (ℕ × LinkEntry)) (es : Entries) (gs : List (List (ℕ × ℕ)))
      (l : ℕ × LinkEntry)
      → IsEntries lo es gs
      → lo ≤ n
      → NotAt n lower
      → last es ≡ some l
      → n < l.0
      → IsOwned n (all_cuts gs) (search_entries lower n es)
  unfolding search_entries shard_at
  search_lem lo lower [] gs l v from h e below = cc
  search_lem lo lower ((key, x) ∷ es) [] l v from h e below = absurd v
  search_lem lo lower ((key, x) ∷ []) (g ∷ gs) l v from h e below =
      let same : (key, x) ≡ l = cc in
      let first : ltb n key ≡ true =
        lt→ltb n key (omega (arith, ap (λ (p : ℕ × LinkEntry). p.0) same)) in
      rw first (in_first lo key lower x g (all_cuts gs) v.0 v.1 from (ltb→lt n key first) h)
  search_lem lo lower ((key, x) ∷ y ∷ es) (g ∷ []) l v from h e below = absurd v.2
  search_lem lo lower ((key, x) ∷ (k, y) ∷ es) (g ∷ g' ∷ gs) l v from h e below =
      elim (Bool-cases (ltb n key)) [
        | inl first ↦
            rw first
              (in_first lo key lower x g (all_cuts (g' ∷ gs)) v.0 v.1 from (ltb→lt n key first) h)
        | inr past ↦ elim (Bool-cases (key == n)) [
          | inl at_key ↦
              let same : n ≡ key = ground arith in
              let (own, run) = key_lem lo key g v.0 n same in
              let next : ltb n k ≡ true = lt→ltb n k (
                omega (
                  arith,
                  same,
                  end-le (key + 1) k g' v.2.0 v.2.0.count (v.2.0.shard, k) v.2.0.at_key,
                )) in
              rw (past, next)
                (
                  v.0.shard,
                  owner-append n v.0.shard g (all_cuts (g' ∷ gs)) own,
                  rw at_key
                      (ap (λ (z : LinkEntry). at_or_fatal (last z.storage_shard_ids)) v.1 ∙ run),
                )
          | inr after ↦
              let (shard, own, run) =
                search_lem (key + 1) (some (key, x)) ((k, y) ∷ es) (g' ∷ gs) l v.2 (ground arith)
                  after e below in
              rw past (
                shard,
                owner-append_past n g (all_cuts (g' ∷ gs))
                      (λ i c at. ground (arith, end-le lo key g v.0 i c at))
                    ∙ own,
                run,
              )
        ]
      ]
