-- ===== src/Prelude/Lists.antt =====
-- Lists measured and indexed by native numbers, under the library's names.
use Prim.Native.Nat.{ℕ, zero, suc, ◌+◌, ◌-◌, ◌≤◌, ◌<◌, min}
use mathlib.Core.Path.{◌≡◌, refl, sym, ap, ◌∙◌}
use mathlib.Core.List.{List, [], ◌∷◌, ◌++◌, reverse, reverse-append}
use mathlib.Core.Logic.{◌⊎◌, inl, inr}
use mathlib.Core.Option.{Option, none, some}
use mathlib.Core.Bool.{Bool, false, ◌||◌}
use native.Mathlib.Omega.{arith}
use ixe.Prelude.Tests.{◌==◌}

-- Whether a set of numbers, kept as a list, contains `k`.
unfoldable pub elem : ℕ → List ℕ → Bool
elem k [] = false
elem k (x ∷ xs) = x == k || elem k xs

pub elem-append_one : (k j : ℕ) (ks : List ℕ) → elem k (ks ++ j ∷ []) ≡ (j == k || elem k ks)
unfolding elem
elem-append_one k j [] = refl
elem-append_one k j (i ∷ ks) = ground (arith, elem-append_one k j ks)

module _ {ℓ} {A : Type ℓ} where
  abbrev pub length : List A → ℕ
  length [] = 0
  length (x ∷ xs) = suc (length xs)

  abbrev pub get_elem? : List A → ℕ → Option A
  get_elem? [] i = none
  get_elem? (x ∷ xs) zero = some x
  get_elem? (x ∷ xs) (suc i) = get_elem? xs i

  -- The first `n`, and the others.
  abbrev pub take : ℕ → List A → List A
  take zero l = []
  take (suc n) [] = []
  take (suc n) (x ∷ xs) = x ∷ take n xs

  abbrev pub drop : ℕ → List A → List A
  drop zero l = l
  drop (suc n) [] = []
  drop (suc n) (x ∷ xs) = drop n xs

  pub length-append : (xs ys : List A) → length (xs ++ ys) ≡ length xs + length ys
  length-append [] ys = omega arith
  length-append (x ∷ xs) ys = omega (arith, length-append xs ys)

  pub get_elem?-total : (xs : List A) (i : ℕ) → i < length xs → (x : A) × (get_elem? xs i ≡ some x)
  get_elem?-total [] i h = absurd (omega arith)
  get_elem?-total (x ∷ xs) zero h = (x, refl)
  get_elem?-total (x ∷ xs) (suc i) h = get_elem?-total xs i (omega arith)

  pub get_elem?-lt : (xs : List A) (i : ℕ) (x : A) → get_elem? xs i ≡ some x → i < length xs
  get_elem?-lt [] i x h = cc
  get_elem?-lt (y ∷ xs) zero x h = omega arith
  get_elem?-lt (y ∷ xs) (suc i) x h = omega (arith, get_elem?-lt xs i x h)

  pub get_elem?-append :
      (xs : List A) (y x : A) (i : ℕ)
      → get_elem? (xs ++ y ∷ []) i ≡ some x
      → (get_elem? xs i ≡ some x) ⊎ ((i ≡ length xs) × (y ≡ x))
  get_elem?-append [] y x zero h = inr (refl, cc)
  get_elem?-append [] y x (suc i) h = cc
  get_elem?-append (z ∷ xs) y x zero h = inl h
  get_elem?-append (z ∷ xs) y x (suc i) h = elim (get_elem?-append xs y x i h) [
    | inl old ↦ inl old
    | inr (e, f) ↦ inr (ap suc e, f)
  ]

  pub get_elem?-append_old :
      (xs : List A) (y x : A) (i : ℕ)
      → get_elem? xs i ≡ some x
      → get_elem? (xs ++ y ∷ []) i ≡ some x
  get_elem?-append_old [] y x i h = cc
  get_elem?-append_old (z ∷ xs) y x zero h = h
  get_elem?-append_old (z ∷ xs) y x (suc i) h = get_elem?-append_old xs y x i h

  pub get_elem?-append_new :
      (xs : List A) (y : A) (i : ℕ) → i ≡ length xs → get_elem? (xs ++ y ∷ []) i ≡ some y
  get_elem?-append_new [] y zero h = refl
  get_elem?-append_new [] y (suc i) h = absurd (omega arith)
  get_elem?-append_new (z ∷ xs) y zero h = absurd (omega arith)
  get_elem?-append_new (z ∷ xs) y (suc i) h = get_elem?-append_new xs y i (omega arith)

  pub get_elem?-none : (xs : List A) (i : ℕ) → get_elem? xs i ≡ none → length xs ≤ i
  get_elem?-none [] i h = omega arith
  get_elem?-none (x ∷ xs) zero h = cc
  get_elem?-none (x ∷ xs) (suc i) h = omega (arith, get_elem?-none xs i h)

  pub length-reverse : (xs : List A) → length (reverse xs) ≡ length xs
  length-reverse [] = refl
  length-reverse (x ∷ xs) =
      ap length (reverse-append (x ∷ []) xs)
      ∙ omega (arith, length-append (reverse xs) (x ∷ []), length-reverse xs)

  -- The element that stands `j` from the end.
  pub get_elem?-reverse :
      (xs : List A) (i j : ℕ) → i + j + 1 ≡ length xs → get_elem? (reverse xs) i ≡ get_elem? xs j
  get_elem?-reverse [] i j h = absurd (omega arith)
  get_elem?-reverse (x ∷ xs) i zero h =
      ap (λ l. get_elem? l i) (reverse-append (x ∷ []) xs)
      ∙ get_elem?-append_new (reverse xs) x i (omega (arith, length-reverse xs))
  get_elem?-reverse (x ∷ xs) i (suc j) h =
      let (y, e) = get_elem?-total xs j (omega arith) in
      ap (λ l. get_elem? l i) (reverse-append (x ∷ []) xs)
      ∙ get_elem?-append_old (reverse xs) x y i (get_elem?-reverse xs i j (omega arith) ∙ e)
      ∙ sym e

  pub drop-append :
      (c n : ℕ) (xs ys : List A)
      → n ≡ min c (length xs)
      → drop c (xs ++ ys) ≡ drop n xs ++ drop (c - n) ys
  drop-append c zero [] ys h = ap (λ i. drop i ys) (omega arith)
  drop-append c (suc n) [] ys h = absurd (omega arith)
  drop-append zero zero (x ∷ xs) ys h =
      ap (λ i. x ∷ (xs ++ drop i ys)) {x = 0} {y = 0 - 0} (omega arith)
  drop-append zero (suc n) (x ∷ xs) ys h = absurd (omega arith)
  drop-append (suc c) zero (x ∷ xs) ys h = absurd (omega arith)
  drop-append (suc c) (suc n) (x ∷ xs) ys h =
      drop-append c n xs ys (omega arith) ∙ ap (λ i. drop n xs ++ drop i ys) (omega arith)

  pub length-drop : (n : ℕ) (xs : List A) → length (drop n xs) ≡ length xs - n
  length-drop zero xs = omega arith
  length-drop (suc n) [] = omega arith
  length-drop (suc n) (x ∷ xs) = omega (arith, length-drop n xs)

  pub drop-nil : (n : ℕ) → drop n [] ≡ []
  drop-nil zero = refl
  drop-nil (suc n) = refl

  pub drop-append_within :
      (n : ℕ) (xs ys : List A) → n ≤ length xs → drop n (xs ++ ys) ≡ drop n xs ++ ys
  drop-append_within zero xs ys h = refl
  drop-append_within (suc n) [] ys h = absurd (omega arith)
  drop-append_within (suc n) (x ∷ xs) ys h = drop-append_within n xs ys (omega arith)

  pub drop-append_past :
      (n k : ℕ) (xs ys : List A) → n ≡ length xs + k → drop n (xs ++ ys) ≡ drop k ys
  drop-append_past n k [] ys h = let same : n ≡ k = omega arith in ap (λ i. drop i ys) same
  drop-append_past zero k (x ∷ xs) ys h = absurd (omega arith)
  drop-append_past (suc n) k (x ∷ xs) ys h = drop-append_past n k xs ys (omega arith)
