-- ===== src/Prelude/Search.antt =====
-- Searches: `lower_bound` and `upper_bound` of a sorted vector, and the first number whose key a map
-- does not have, by steps of one.
use Prim.Native.Nat.{ℕ, zero, suc, ◌+◌, ◌%◌, ◌^◌, ◌≤◌, ◌<◌}
use mathlib.Core.Path.{◌≡◌, ap, ◌∙◌}
use mathlib.Core.Logic.{inl, inr}
use mathlib.Core.List.{List, [], ◌∷◌}
use mathlib.Core.Option.{some}
use mathlib.Core.Bool.{true, false}
use native.Mathlib.Omega.{arith}
use native.Mathlib.Decide.{ℕ_discrete}
use ixe.Prelude.Lists.{length, get_elem?}
use ixe.Prelude.Tests.{Bool-cases, ltb, leb, if◌then◌else◌}
use ixe.Prelude.Maps.{contains, erase, contains-erase, length-erase-lt}

-- The indexes of `lower_bound` and `upper_bound` in a sorted vector.
unfoldable pub lower_bound : ℕ → List ℕ → ℕ
lower_bound n [] = 0
lower_bound n (k ∷ ks) = if ltb k n then suc (lower_bound n ks) else 0

unfoldable pub upper_bound : ℕ → List ℕ → ℕ
upper_bound n [] = 0
upper_bound n (k ∷ ks) = if leb k n then suc (upper_bound n ks) else 0

pub lower_bound-le : (n : ℕ) (ks : List ℕ) → lower_bound n ks ≤ length ks
unfolding lower_bound
lower_bound-le n [] = omega arith
lower_bound-le n (j ∷ ks) = ground (arith, lower_bound-le n ks)

-- Up to its result `lower_bound` has seen lesser numbers only; that at its result is not lesser.
pub lower_bound_before :
    (n i k : ℕ) (ks : List ℕ) → get_elem? ks i ≡ some k → i < lower_bound n ks → k < n
unfolding lower_bound
lower_bound_before n i k [] e h = cc
lower_bound_before n zero k (j ∷ ks) e h = ground arith
lower_bound_before n (suc i) k (j ∷ ks) e h = ground (arith, lower_bound_before n i k ks e)

pub lower_bound_at : (n k : ℕ) (ks : List ℕ) → get_elem? ks (lower_bound n ks) ≡ some k → n ≤ k
unfolding lower_bound
lower_bound_at n k [] e = cc
lower_bound_at n k (j ∷ ks) e = ground (arith, lower_bound_at n k ks)

module _ {ℓ} {V : Type ℓ} (key : ℕ → ℕ) where
  -- `while (m.contains(key(current))) current++`, on fuel.
  unfoldable pub first_missing : ℕ → ℕ → List (ℕ × V) → ℕ
  first_missing zero current m = current
  first_missing (suc n) current m = elim (contains (key current) m) [
    | true ↦ first_missing n ((current + 1) % 2 ^ 32) m
    | false ↦ current
  ]

  -- The search has found a gap: nothing is missing before it.
  pub record FirstGap (current : ℕ) (m : List (ℕ × V)) (r : ℕ) : Type 0 where
    pub from : current ≤ r
    pub gap : contains (key r) m ≡ false
    pub held : (i : ℕ) → current ≤ i → i < r → contains (key i) m ≡ true

  module _ (injective : (i j : ℕ) → i < 2 ^ 32 → j < 2 ^ 32 → key i ≡ key j → i ≡ j) where
    go :
        (current : ℕ) (m : List (ℕ × V)) (r : ℕ)
        → contains (key current) m ≡ true
        → current + 1 < 2 ^ 32
        → FirstGap ((current + 1) % 2 ^ 32) m r
        → FirstGap current m r
    go current m r here b g = record {
      from = omega (arith, g.from);
      gap = g.gap;
      held = λ i p q. elim (ℕ_discrete i current) [
        | yes e ↦ ap (λ k. contains (key k) m) e ∙ here
        | no ne ↦ g.held i (omega arith) q
      ];
    }

    rest-contains :
        (current i : ℕ) (m rest : List (ℕ × V))
        → current < i
        → i < 2 ^ 32
        → contains (key i) rest ≡ contains (key i) m
        → contains (key i) (erase (key current) rest) ≡ contains (key i) m
    rest-contains current i m rest h b same =
        ground (arith, contains-erase (key current) (key i) rest, same, injective current i)

    -- The fuel is a bound on the entries not yet seen, which are those of `rest`.
    pub first_missing-FirstGap :
        (n current : ℕ) (m rest : List (ℕ × V))
        → length rest < n
        → current + n < 2 ^ 32
        → ((i : ℕ) → current ≤ i → i < 2 ^ 32 → contains (key i) rest ≡ contains (key i) m)
        → FirstGap current m (first_missing n current m)
    unfolding first_missing
    first_missing-FirstGap zero current m rest l b same = absurd (omega arith)
    first_missing-FirstGap (suc n) current m rest l b same =
        elim (Bool-cases (contains (key current) m)) [
          | inr gap ↦
              rw (gap, first_missing)
                (record { from = omega arith; gap = gap; held = λ i p q. absurd (omega arith) })
          | inl here ↦
              rw (here, first_missing)
                (go current m (first_missing n ((current + 1) % 2 ^ 32) m) here (omega arith) (
                  first_missing-FirstGap n ((current + 1) % 2 ^ 32) m (erase (key current) rest)
                    (omega (
                      arith,
                      length-erase-lt (key current) rest
                          (same current (omega arith) (omega arith) ∙ here),
                    ))
                    (omega arith)
                    (λ i p q.
                      rest-contains current i m rest (omega arith) q (same i (omega arith) q))))
        ]
