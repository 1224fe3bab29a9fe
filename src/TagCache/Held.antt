-- ===== src/TagCache/Held.antt =====
-- The numbers that a tag's suffix holds (src/log/index_local_tag_cache.cpp), in their order.
use ixe.Prelude.Search.{lower_bound}
use ixe.Prelude.{
  ℕ, zero, suc, ◌+◌, ◌*◌, ◌^◌, ◌≤◌, ◌<◌, ◌≡◌, ◌⊎◌, some, List, [], ◌∷◌, get_elem?, length, arith,
}
use ixe.Bits.{join_two32, join_two16}
use ixe.Index.Nearest.{Sorted}
use ixe.TagCache.Entry.{TagSuffixLink, TagSuffix}

-- A number is read from the link with its shard.
abbrev pub InLink : ℕ → TagSuffixLink → ℕ → ℕ → Type 0
InLink identifier link n s =
    (i : ℕ) × (k : ℕ) × (get_elem? link.seqnums i ≡ some k)
    × (get_elem? link.storage_shard_ids i ≡ some s)
    × (n ≡ join_two32 identifier k)

abbrev pub Held : ℕ → TagSuffix → ℕ → ℕ → Type 0
Held space [] n s = ⊥
Held space ((v, link) ∷ rest) n s = InLink (join_two16 v space) link n s ⊎ Held space rest n s

-- The numbers of a link are in order, and each has its shard.
abbrev pub IsLink : TagSuffixLink → Type 0
IsLink link =
    Sorted 0 link.seqnums
    × (0 < length link.seqnums)
    × (length link.storage_shard_ids ≡ length link.seqnums)

-- The views rise, all from `lo` on.
abbrev pub IsSuffix : ℕ → TagSuffix → Type 0
IsSuffix lo [] = Unit {0}
IsSuffix lo ((v, link) ∷ rest) = (lo ≤ v) × (v < 2 ^ 16) × IsLink link × IsSuffix (v + 1) rest

-- Every number of `P` is at `n` or past it; and so the other way round.
abbrev pub Above : (ℕ → ℕ → Type 0) → ℕ → Type 0
Above P n = (m t : ℕ) → P m t → n ≤ m

abbrev pub Below : (ℕ → ℕ → Type 0) → ℕ → Type 0
Below P n = (m t : ℕ) → P m t → m ≤ n

pub Sorted-range :
    (lo : ℕ) (ks : List ℕ) (i k : ℕ)
    → Sorted lo ks
    → get_elem? ks i ≡ some k
    → (lo ≤ k) × (k < 2 ^ 32)
Sorted-range lo [] i k s h = cc
Sorted-range lo (j ∷ ks) zero k s h = ground arith
Sorted-range lo (j ∷ ks) (suc i) k s h = ground (arith, Sorted-range j ks i k)

pub Sorted-mono :
    (lo : ℕ) (ks : List ℕ) (i j k l : ℕ)
    → Sorted lo ks
    → get_elem? ks i ≡ some k
    → get_elem? ks j ≡ some l
    → i ≤ j
    → k ≤ l
Sorted-mono lo [] i j k l s p q h = cc
Sorted-mono lo (m ∷ ks) zero zero k l s p q h = ground arith
Sorted-mono lo (m ∷ ks) zero (suc j) k l s p q h = ground (arith, Sorted-range m ks j l)
Sorted-mono lo (m ∷ ks) (suc i) zero k l s p q h = absurd (omega arith)
Sorted-mono lo (m ∷ ks) (suc i) (suc j) k l s p q h = Sorted-mono m ks i j k l s.2 p q (omega arith)

-- `lower_bound` parts a sorted vector at the first number that is not below `n`.
pub lower_bound_lem :
    (lo n : ℕ) (ks : List ℕ) (i k : ℕ)
    → Sorted lo ks
    → get_elem? ks i ≡ some k
    → (i < lower_bound n ks → k < n) × (lower_bound n ks ≤ i → n ≤ k)
unfolding lower_bound
lower_bound_lem lo n [] i k s h = cc
lower_bound_lem lo n (j ∷ ks) zero k s h = ground arith
lower_bound_lem lo n (j ∷ ks) (suc i) k s h =
    ground (arith, lower_bound_lem j n ks i k s.2 h, Sorted-range j ks i k s.2 h)

-- Numbers of one sequencer are in the order of their views and then of their low halves.
pub seqnum_value :
    (v space k : ℕ)
    → v < 2 ^ 16
    → space < 2 ^ 16
    → k < 2 ^ 32
    → join_two32 (join_two16 v space) k ≡ k + (space + v * 2 ^ 16) * 2 ^ 32
unfolding join_two32 join_two16
seqnum_value v space k a b c = omega arith
