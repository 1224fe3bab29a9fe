-- ===== src/SuffixChain/Owner.antt =====
-- `FindStorageShardIdInLinkEntry` of src/log/index_local_suffix.cpp finds the shard whose part of the
-- cut has the number.
use ixe.Prelude.{
  get_elem?-total, get_elem?-lt, ℕ, zero, suc, ◌+◌, ◌-◌, ◌%◌, ◌^◌, ◌≤◌, ◌<◌, ◌≡◌, refl, ap, Option,
  none, some, List, [], ◌∷◌, map, get_elem?, length, leb, if◌then◌else◌, arith,
}
use ixe.SuffixChain.Link.{last}

-- The shard of the first cut that ends at the number or past it.
unfoldable pub owner : ℕ → List (ℕ × ℕ) → Option ℕ
owner n [] = none
owner n ((shard, end) ∷ cuts) = if leb n end then some shard else owner n cuts

-- The last numbers of the cuts rise, all from `lo` on.
abbrev pub Ends : ℕ → List (ℕ × ℕ) → Type 0
Ends lo [] = Unit {0}
Ends lo ((shard, end) ∷ cuts) = (lo ≤ end) × Ends (end + 1) cuts

pub Ends-range :
    (lo i : ℕ) (cuts : List (ℕ × ℕ)) (c : ℕ × ℕ)
    → Ends lo cuts
    → get_elem? cuts i ≡ some c
    → lo ≤ c.1
Ends-range lo i [] c e f = cc
Ends-range lo zero (x ∷ cuts) c e f =
    let same : x ≡ c = cc in omega (arith, ap (λ (p : ℕ × ℕ). p.1) same)
Ends-range lo (suc i) (x ∷ cuts) c e f = omega (arith, Ends-range (x.1 + 1) i cuts c e.1 f)

pub Ends-mono :
    (lo i j : ℕ) (cuts : List (ℕ × ℕ)) (c d : ℕ × ℕ)
    → Ends lo cuts
    → get_elem? cuts i ≡ some c
    → get_elem? cuts j ≡ some d
    → i < j
    → c.1 < d.1
Ends-mono lo i j [] c d e f g h = cc
Ends-mono lo i zero (x ∷ cuts) c d e f g h = absurd (omega arith)
Ends-mono lo zero (suc j) (x ∷ cuts) c d e f g h =
    let same : x ≡ c = cc in
    omega (arith, ap (λ (p : ℕ × ℕ). p.1) same, Ends-range (x.1 + 1) j cuts d e.1 g)
Ends-mono lo (suc i) (suc j) (x ∷ cuts) c d e f g h =
    Ends-mono (x.1 + 1) i j cuts c d e.1 f g (omega arith)

-- The owner is at the first index whose cut ends at the number or past it.
pub owner_at :
    (n lo i : ℕ) (cuts : List (ℕ × ℕ)) (c : ℕ × ℕ)
    → Ends lo cuts
    → get_elem? cuts i ≡ some c
    → n ≤ c.1
    → ((j : ℕ) (d : ℕ × ℕ) → i ≡ j + 1 → get_elem? cuts j ≡ some d → d.1 < n)
    → owner n cuts ≡ some c.0
unfolding owner
owner_at n lo i [] c e f h before = cc
owner_at n lo zero ((shard, end) ∷ cuts) c e f h before = ground arith
owner_at n lo (suc zero) ((shard, end) ∷ cuts) c e f h before = ground (
  arith,
  before 0 (shard, end) (omega arith) refl,
  owner_at n (end + 1) 0 cuts c e.1 f h (λ j d g k. absurd (omega arith)),
)
owner_at n lo (suc (suc i)) ((shard, end) ∷ cuts) c e f h before =
    let (d, there) = get_elem?-total cuts i (omega (arith, get_elem?-lt cuts (suc i) c f)) in
    ground (
      arith,
      before (suc i) d (omega arith) there,
      Ends-range (end + 1) i cuts d e.1 there,
      owner_at n (end + 1) (suc i) cuts c e.1 f h (λ j d g k. before (suc j) d (omega arith) k),
    )

module _ {A B : Type 0} (f : A → B) where
  pub get_elem?-map :
      (xs : List A) (i : ℕ) (x : A) → get_elem? xs i ≡ some x → get_elem? (map f xs) i ≡ some (f x)
  get_elem?-map [] i x h = cc
  get_elem?-map (y ∷ xs) zero x h = let same : y ≡ x = cc in ap (λ z. some (f z)) same
  get_elem?-map (y ∷ xs) (suc i) x h = get_elem?-map xs i x h

  pub length-map : (xs : List A) → length (map f xs) ≡ length xs
  length-map [] = refl
  length-map (x ∷ xs) = ap suc (length-map xs)

pub last-get_elem? :
    {A : Type 0} (xs : List A) (i : ℕ) → i + 1 ≡ length xs → last xs ≡ get_elem? xs i
last-get_elem? [] i h = absurd (omega arith)
last-get_elem? (x ∷ []) zero h = refl
last-get_elem? (x ∷ []) (suc i) h = absurd (omega arith)
last-get_elem? (x ∷ y ∷ xs) zero h = absurd (omega arith)
last-get_elem? (x ∷ y ∷ xs) (suc i) h = last-get_elem? (y ∷ xs) i (omega arith)

-- A productive cut whose numbers are `lo` up to the key, at most 2 ^ 16.
pub record IsCut (lo key : ℕ) (cuts : List (ℕ × ℕ)) : Type 0 where
  pub rising : Ends lo cuts
  pub count : ℕ
  pub counted : count + 1 ≡ length cuts
  pub shard : ℕ
  pub at_key : get_elem? cuts count ≡ some (shard, key)
  pub narrow : key < lo + 2 ^ 16
  pub in_range : key < 2 ^ 32

-- The entry's differences are exact.
abbrev pub diff_of : ℕ → ℕ × ℕ → ℕ
diff_of key c = ((key + 2 ^ 32 - c.1) % 2 ^ 32) % 2 ^ 16
