-- ===== src/LogSpace/Collection/Sets.antt =====
-- The sorted sets of a `LogSpaceCollection` (src/log/log_space_base.h).
use ixe.Prelude.{
  ℕ, ◌+◌, ◌^◌, ◌≤◌, ◌<◌, ◌≡◌, refl, ap, true, false, ◌||◌, ◌&&◌, not, List, [], ◌∷◌, elem, arith,
  ltb, ◌==◌,
}
use ixe.Bits.{join_two16, high_half32}
use ixe.LogSpace.Collection.{set_add, set_remove, from_lower, until_view, of_view}

-- Rising identifiers of 32 bits, from `lo` on.
abbrev pub IsSorted : ℕ → List ℕ → Type 0
IsSorted lo [] = Unit {0}
IsSorted lo (k ∷ ks) = (lo ≤ k) × (k < 2 ^ 32) × IsSorted (k + 1) ks

below-false : (lo k : ℕ) (ks : List ℕ) → IsSorted lo ks → k < lo → elem k ks ≡ false
unfolding elem
below-false lo k [] s h = refl
below-false lo k (j ∷ js) s h = ground (arith, below-false (j + 1) k js s.2)

pub elem-set_add : (k j : ℕ) (ks : List ℕ) → elem j (set_add k ks) ≡ (k == j || elem j ks)
unfolding set_add elem
elem-set_add k j [] = refl
elem-set_add k j (i ∷ is) = ground (arith, elem-set_add k j is)

pub set_add-IsSorted :
    (lo k : ℕ) (ks : List ℕ) → lo ≤ k → k < 2 ^ 32 → IsSorted lo ks → IsSorted lo (set_add k ks)
unfolding set_add
set_add-IsSorted lo k [] h b s = (h, b, tt)
set_add-IsSorted lo k (i ∷ is) h b s = ground (arith, set_add-IsSorted (i + 1) k is)

pub elem-set_remove :
    (lo k j : ℕ) (ks : List ℕ)
    → IsSorted lo ks
    → elem j (set_remove k ks) ≡ (not (k == j) && elem j ks)
unfolding set_remove elem
elem-set_remove lo k j [] s = ground arith
elem-set_remove lo k j (i ∷ is) s =
    ground (arith, elem-set_remove (i + 1) k j is s.2, below-false (i + 1) j is s.2)

IsSorted-mono : (lo lo' : ℕ) (ks : List ℕ) → lo' ≤ lo → IsSorted lo ks → IsSorted lo' ks
IsSorted-mono lo lo' [] h s = tt
IsSorted-mono lo lo' (k ∷ ks) h s = (omega (arith, s.0), s.1, s.2)

pub set_remove-IsSorted : (lo k : ℕ) (ks : List ℕ) → IsSorted lo ks → IsSorted lo (set_remove k ks)
unfolding set_remove
set_remove-IsSorted lo k [] s = tt
set_remove-IsSorted lo k (i ∷ is) s =
    ground (arith, set_remove-IsSorted (i + 1) k is s.2, IsSorted-mono (i + 1) lo is)

pub elem-IsSorted :
    (lo k : ℕ) (ks : List ℕ) → IsSorted lo ks → elem k ks ≡ true → (lo ≤ k) × (k < 2 ^ 32)
unfolding elem
elem-IsSorted lo k [] s h = cc
elem-IsSorted lo k (i ∷ is) s h = ground (arith, elem-IsSorted (i + 1) k is s.2)

elem-from_lower :
    (bound lo k : ℕ) (ks : List ℕ)
    → IsSorted lo ks
    → elem k (from_lower bound ks) ≡ (not (ltb k bound) && elem k ks)
unfolding from_lower elem
elem-from_lower bound lo k [] s = ground arith
elem-from_lower bound lo k (i ∷ is) s =
    ground (arith, elem-from_lower bound (i + 1) k is s.2, below-false (i + 1) k is s.2)

from_lower-IsSorted :
    (bound lo : ℕ) (ks : List ℕ) → IsSorted lo ks → IsSorted lo (from_lower bound ks)
unfolding from_lower
from_lower-IsSorted bound lo [] s = tt
from_lower-IsSorted bound lo (i ∷ is) s =
    let rest = from_lower-IsSorted bound (i + 1) is s.2 in
    ground (arith, rest, IsSorted-mono (i + 1) lo (from_lower bound is))

high_half32_mono : (j k : ℕ) → j ≤ k → k < 2 ^ 32 → high_half32 j ≤ high_half32 k
unfolding high_half32
high_half32_mono j k h b = omega arith

elem-until_view :
    (view_id lo k : ℕ) (ks : List ℕ)
    → IsSorted lo ks
    → elem k (until_view view_id ks) ≡ (not (ltb view_id (high_half32 k)) && elem k ks)
unfolding until_view elem
elem-until_view view_id lo k [] s = ground arith
elem-until_view view_id lo k (i ∷ is) s = ground (
  arith,
  elem-until_view view_id (i + 1) k is s.2,
  elem-IsSorted (i + 1) k is s.2,
  high_half32_mono i k,
  ap high_half32 {x = i} {y = k},
)

view_bounds :
    (view_id k : ℕ)
    → view_id < 2 ^ 16
    → k < 2 ^ 32
    → (not (ltb view_id (high_half32 k)) && not (ltb k (join_two16 view_id 0)))
      ≡ (high_half32 k == view_id)
unfolding high_half32 join_two16
view_bounds view_id k b c = ground arith

pub elem-of_view :
    (view_id lo k : ℕ) (ks : List ℕ)
    → view_id < 2 ^ 16
    → IsSorted lo ks
    → elem k (of_view view_id ks) ≡ (high_half32 k == view_id && elem k ks)
unfolding of_view
elem-of_view view_id lo k ks b s = ground (
  arith,
  elem-until_view view_id lo k (from_lower (join_two16 view_id 0) ks)
      (from_lower-IsSorted (join_two16 view_id 0) lo ks s),
  elem-from_lower (join_two16 view_id 0) lo k ks s,
  elem-IsSorted lo k ks s,
  view_bounds view_id k b,
)
