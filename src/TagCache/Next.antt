-- ===== src/TagCache/Next.antt =====
-- `FindNext` of src/log/index_local_tag_cache.cpp, between the head and the tail of a tag.
use ixe.Prelude.Search.{lower_bound, lower_bound-le}
use ixe.Prelude.{
  get_elem?-lt, ℕ, ◌+◌, ◌*◌, ◌^◌, ◌≤◌, ◌<◌, ◌≡◌, inl, inr, refl, true, false, Option, none, some,
  [], ◌∷◌, get_elem?, length, ltb, ◌==◌, Bool-cases, ok, arith, ltb→lt,
}
use ixe.Prelude.Maps.{contains}
use ixe.Bits.{join_two32, join_two16, low_half64, get_view_id, get_sequencer_id}
use ixe.TagCache.Entry.{TagSuffixLink, TagSuffix, link_find_next}
use ixe.TagCache.Space.{found, from_view, next_between}
use ixe.TagCache.Held.{InLink, Held, IsLink, IsSuffix, Sorted-range, lower_bound_lem, seqnum_value}
use ixe.TagCache.Ends.{InLink-range, Held-range, number_at_lem, InLink-le, link_get_head_lem}

-- The least number of `P` that is at the query or past it; or there is none.
abbrev pub IsNext : (ℕ → ℕ → Type 0) → ℕ → Option (ℕ × ℕ) → Type 0
IsNext P q none = (m t : ℕ) → P m t → m < q
IsNext P q (some (n, s)) = P n s × (q ≤ n) × ((m t : ℕ) → P m t → q ≤ m → n ≤ m)

-- The halves of a query of the sequencer.
pub query_value :
    (space q : ℕ)
    → q < 2 ^ 64
    → get_sequencer_id q ≡ space
    → (q ≡ low_half64 q + (space + get_view_id q * 2 ^ 16) * 2 ^ 32)
      × (low_half64 q < 2 ^ 32)
      × (get_view_id q < 2 ^ 16)
unfolding get_sequencer_id low_half64 get_view_id
query_value space q h e = omega arith

module _ (space q : ℕ) (in_range : space < 2 ^ 16) (q_range : q < 2 ^ 64) where
  module _ (same : get_sequencer_id q ≡ space) where
    -- `FindNext` on the link of the query's view.
    pub link_find_next_lem :
        (v : ℕ) (link : TagSuffixLink)
        → v ≡ get_view_id q
        → IsLink link
        → (o : Option (ℕ × ℕ)) × (link_find_next (join_two16 v space) q link ≡ ok o)
          × IsNext (InLink (join_two16 v space) link) q o
    unfolding link_find_next
    link_find_next_lem v link ev l =
        let (qv, ql, vr) = query_value space q q_range same in
        let low = low_half64 q in
        let b = lower_bound low link.seqnums in
        let part = λ (i k : ℕ) (e : get_elem? link.seqnums i ≡ some k).
          lower_bound_lem 0 low link.seqnums i k l.0 e in
        elim (Bool-cases (b == length link.seqnums)) [
          | inl none_left ↦ (
            none,
            rw none_left refl,
            λ m t (i, k, e, f, h).
                let r = Sorted-range 0 link.seqnums i k l.0 e in
                omega (
                  arith,
                  h,
                  seqnum_value v space k (omega arith) in_range r.1,
                  ev,
                  qv,
                  (part i k e).0 (ground (arith, get_elem?-lt link.seqnums i k e)),
                ),
          )
          | inr here ↦
              let (k, s, e, run, held) =
                number_at_lem space in_range v b link (omega (arith, ev)) l
                  (ground (arith, lower_bound-le low link.seqnums)) in
              let r = Sorted-range 0 link.seqnums b k l.0 e in
              (
                some (join_two32 (join_two16 v space) k, s),
                rw (here, run) refl,
                (
                  held,
                  omega (
                    arith,
                    seqnum_value v space k (omega (arith, ev)) in_range r.1,
                    ev,
                    qv,
                    (part b k e).1 (omega arith),
                  ),
                  λ m t (j, i, g, f, h) past. elim (Bool-cases (ltb j b)) [
                    | inl before ↦
                        let t = Sorted-range 0 link.seqnums j i l.0 g in
                        absurd (
                          omega (
                            arith,
                            past,
                            h,
                            seqnum_value v space i (omega (arith, ev)) in_range t.1,
                            ev,
                            qv,
                            (part j i g).0 (ltb→lt j b before),
                          ))
                    | inr after ↦ rw h (
                        InLink-le space in_range v b j k i link (omega (arith, ev)) l e g
                          (ground arith))
                  ],
                ),
              )
        ]

    earlier-lt :
        (w m t : ℕ) (link : TagSuffixLink)
        → w < get_view_id q
        → IsLink link
        → InLink (join_two16 w space) link m t
        → m < q
    earlier-lt w m t link h l held =
        let (qv, ql, vr) = query_value space q q_range same in
        omega (arith, qv, InLink-range space in_range w m t link (omega (arith, vr)) l held)

    later-lt :
        (lo m t : ℕ) (suffix : TagSuffix)
        → get_view_id q < lo
        → IsSuffix lo suffix
        → Held space suffix m t
        → q < m
    later-lt lo m t suffix h v held =
        let (qv, ql, vr) = query_value space q q_range same in
        omega (arith, qv, ql, Held-range space in_range lo m t suffix v held)

    -- The link of the query's view is the first one.
    at_view :
        (w n s : ℕ) (link : TagSuffixLink) (rest : TagSuffix) (o : Option (ℕ × ℕ))
        → w ≡ get_view_id q
        → w < 2 ^ 16
        → IsLink link
        → IsSuffix (w + 1) rest
        → link_find_next (join_two16 w space) q link ≡ ok o
        → IsNext (InLink (join_two16 w space) link) q o
        → Held space ((w, link) ∷ rest) n s
        → q ≤ n
        → (m : ℕ) × (t : ℕ) × (next_between space q ((w, link) ∷ rest) ≡ ok (found m t))
          × IsNext (Held space ((w, link) ∷ rest)) q (some (m, t))
    unfolding next_between
    at_view w n s link rest (some (m, t)) ev wr l v run near h le = (
      m,
      t,
      rw run refl,
      (
        inl near.0,
        near.1,
        λ m' t' held past. elim held [
          | inl here ↦ near.2 m' t' here past
          | inr later ↦ omega (
            arith,
            InLink-range space in_range w m t link wr l near.0,
            Held-range space in_range (w + 1) m' t' rest v later,
          )
        ],
      ),
    )
    at_view w n s link [] none ev wr l v run near h le = elim h [
      | inl here ↦ absurd (omega (arith, near n s here))
      | inr later ↦ elim later [ ]
    ]
    at_view w n s link ((u, upper) ∷ rest) none ev wr l v run near h le =
        let (m, t, e, held, least) = link_get_head_lem space in_range u upper v.1 v.2 in
        (
          m,
          t,
          rw (run, e) refl,
          (
            inr (inl held),
            omega
                (arith, later-lt (w + 1) m t ((u, upper) ∷ rest) (omega (arith, ev)) v (inl held)),
            λ m' t' held' past. elim held' [
              | inl here ↦ absurd (omega (arith, near m' t' here))
              | inr (inl there) ↦ least m' t' there
              | inr (inr later) ↦ omega (
                arith,
                InLink-range space in_range u m t upper v.1 v.2 held,
                Held-range space in_range (u + 1) m' t' rest v.3 later,
              )
            ],
          ),
        )

    contains_later :
        (lo k : ℕ) (suffix : TagSuffix) → IsSuffix lo suffix → k < lo → contains k suffix ≡ false
    unfolding contains
    contains_later lo k [] v h = refl
    contains_later lo k ((w, link) ∷ rest) v h = ground (arith, contains_later (w + 1) k rest v.3)

    -- Between the query and the greatest number there is a next one, which is found.
    pub next_between_lem :
        (lo n s : ℕ) (suffix : TagSuffix)
        → IsSuffix lo suffix
        → contains (get_view_id q) suffix ≡ true
        → Held space suffix n s
        → q ≤ n
        → (m : ℕ) × (t : ℕ) × (next_between space q (from_view (get_view_id q) suffix)
            ≡ ok (found m t))
          × IsNext (Held space suffix) q (some (m, t))
    unfolding next_between from_view contains
    next_between_lem lo n s [] v c h le = absurd h
    next_between_lem lo n s ((w, link) ∷ rest) v c h le =
        elim (Bool-cases (ltb w (get_view_id q))) [
          | inl earlier ↦
              let low = λ (m t : ℕ) (here : InLink (join_two16 w space) link m t).
                earlier-lt w m t link (ltb→lt w (get_view_id q) earlier) v.2 here in
              let later : Held space rest n s = elim h [
                | inl here ↦ absurd (omega (arith, low n s here))
                | inr later ↦ later
              ] in
              let (m, t, run, near) =
                next_between_lem (w + 1) n s rest v.3 (ground arith) later le in
              rw earlier (
                m,
                t,
                run,
                (
                  inr near.0,
                  near.1,
                  λ m' t' held past. elim held [
                    | inl here ↦ absurd (omega (arith, low m' t' here))
                    | inr there ↦ near.2 m' t' there past
                  ],
                ),
              )
          | inr here ↦
              let ev : w ≡ get_view_id q =
                ground (arith, contains_later (w + 1) (get_view_id q) rest v.3) in
              let (o, run, near) = link_find_next_lem w link ev v.2 in
              rw here (at_view w n s link rest o ev v.1 v.2 v.3 run near h le)
        ]
