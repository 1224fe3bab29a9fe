-- ===== src/Prelude/Maps.antt =====
-- Maps with numbers for keys, as lists of pairs. A hash map is a list in any order: what is
-- proved for every list holds for every order of iteration. A `std::map` is a list by rising key.
use Prim.Native.Nat.{ℕ, ◌+◌, ◌<◌, ◌≤◌}
use mathlib.Core.Path.{◌≡◌, refl}
use mathlib.Core.Logic.{inl, inr}
use mathlib.Core.List.{List, [], ◌∷◌}
use mathlib.Core.Option.{Option, none, some}
use mathlib.Core.Bool.{Bool, true, false, ◌||◌}
use native.Mathlib.Omega.{arith}
use ixe.Prelude.Lists.{length}
use ixe.Prelude.Tests.{ltb, ◌==◌, if◌then◌else◌, Bool-cases}

module _ {ℓ} {V : Type ℓ} where
  unfoldable pub find? : ℕ → List (ℕ × V) → Option V
  find? k [] = none
  find? k ((j, v) ∷ m) = if j == k then some v else find? k m

  unfoldable pub contains : ℕ → List (ℕ × V) → Bool
  contains k [] = false
  contains k ((j, v) ∷ m) = j == k || contains k m

  -- `m[k] = v` on a hash map.
  unfoldable pub put : ℕ → V → List (ℕ × V) → List (ℕ × V)
  put k v [] = (k, v) ∷ []
  put k v ((j, w) ∷ m) = if j == k then (k, v) ∷ m else (j, w) ∷ put k v m

  -- `m[k] = v` on a `std::map`.
  unfoldable pub insert : ℕ → V → List (ℕ × V) → List (ℕ × V)
  insert k v [] = (k, v) ∷ []
  insert k v ((j, w) ∷ m) =
      if ltb k j then (k, v) ∷ (j, w) ∷ m else if j == k then (k, v) ∷ m else (j, w) ∷ insert k v m

  -- `insert` of a `std::multimap`: behind the entries with the same key.
  unfoldable pub insert_multi : ℕ → V → List (ℕ × V) → List (ℕ × V)
  insert_multi k v [] = (k, v) ∷ []
  insert_multi k v ((j, w) ∷ m) =
      if ltb k j then (k, v) ∷ (j, w) ∷ m else (j, w) ∷ insert_multi k v m

  unfoldable pub erase : ℕ → List (ℕ × V) → List (ℕ × V)
  erase k [] = []
  erase k ((j, v) ∷ m) = let rest = erase k m in if j == k then rest else (j, v) ∷ rest

  -- The keys rise strictly, all from `lo` on.
  abbrev pub Rising : ℕ → List (ℕ × V) → Type 0
  Rising lo [] = Unit {0}
  Rising lo ((k, v) ∷ m) = (lo ≤ k) × Rising (k + 1) m

  pub find?-put :
      (k j : ℕ) (v : V) (m : List (ℕ × V))
      → find? j (put k v m) ≡ (if k == j then some v else find? j m)
  unfolding find? put
  find?-put k j v [] = refl
  find?-put k j v ((i, w) ∷ m) = ground (arith, find?-put k j v m)

  pub find?-insert :
      (k j : ℕ) (v : V) (m : List (ℕ × V))
      → find? j (insert k v m) ≡ (if k == j then some v else find? j m)
  unfolding find? insert
  find?-insert k j v [] = refl
  find?-insert k j v ((i, w) ∷ m) = ground (arith, find?-insert k j v m)

  pub find?-erase :
      (k j : ℕ) (m : List (ℕ × V)) → find? j (erase k m) ≡ (if k == j then none else find? j m)
  unfolding find? erase
  find?-erase k j [] = ground arith
  find?-erase k j ((i, w) ∷ m) = ground (arith, find?-erase k j m)

  pub contains-find? :
      (k : ℕ) (m : List (ℕ × V)) → contains k m ≡ true → (v : V) × (find? k m ≡ some v)
  unfolding find? contains
  contains-find? k [] h = cc
  contains-find? k ((j, v) ∷ m) h = elim (Bool-cases (j == k)) [
    | inl e ↦ (v, rw e)
    | inr e ↦ let r = contains-find? k m (rw e at h) in (r.0, rw e r.1)
  ]

  pub contains-insert :
      (k j : ℕ) (v : V) (m : List (ℕ × V)) → contains j (insert k v m) ≡ (k == j || contains j m)
  unfolding contains insert
  contains-insert k j v [] = refl
  contains-insert k j v ((i, w) ∷ m) = ground (arith, contains-insert k j v m)

  pub contains_below : (lo k : ℕ) (m : List (ℕ × V)) → Rising lo m → k < lo → contains k m ≡ false
  unfolding contains
  contains_below lo k [] r h = refl
  contains_below lo k ((j, v) ∷ m) r h = ground (arith, contains_below (j + 1) k m)

  pub find?-contains : (k : ℕ) (m : List (ℕ × V)) (v : V) → find? k m ≡ some v → contains k m ≡ true
  unfolding find? contains
  find?-contains k [] v h = cc
  find?-contains k ((j, w) ∷ m) v h = ground (arith, find?-contains k m v)

  pub Rising-mono : (lo hi : ℕ) (m : List (ℕ × V)) → lo ≤ hi → Rising hi m → Rising lo m
  Rising-mono lo hi [] h r = tt
  Rising-mono lo hi ((k, v) ∷ m) h r = (omega arith, r.1)

  pub insert-Rising :
      (lo k : ℕ) (v : V) (m : List (ℕ × V)) → lo ≤ k → Rising lo m → Rising lo (insert k v m)
  unfolding insert
  insert-Rising lo k v [] h r = (h, tt)
  insert-Rising lo k v ((j, w) ∷ m) h r = ground (arith, insert-Rising (j + 1) k v m)

  pub find?_below : (lo k : ℕ) (m : List (ℕ × V)) → Rising lo m → k < lo → find? k m ≡ none
  unfolding find?
  find?_below lo k [] r h = refl
  find?_below lo k ((j, v) ∷ m) r h = ground (arith, find?_below (j + 1) k m)

  pub contains-erase :
      (k j : ℕ) (m : List (ℕ × V))
      → contains j (erase k m) ≡ (if k == j then false else contains j m)
  unfolding contains erase
  contains-erase k j [] = ground arith
  contains-erase k j ((i, w) ∷ m) = ground (arith, contains-erase k j m)

  pub contains-put :
      (k j : ℕ) (v : V) (m : List (ℕ × V)) → contains j (put k v m) ≡ (k == j || contains j m)
  unfolding contains put
  contains-put k j v [] = refl
  contains-put k j v ((i, w) ∷ m) = ground (arith, contains-put k j v m)

  length-erase-le : (k : ℕ) (m : List (ℕ × V)) → length (erase k m) ≤ length m
  unfolding erase
  length-erase-le k [] = omega arith
  length-erase-le k ((j, v) ∷ m) = ground (arith, length-erase-le k m)

  pub length-erase-lt :
      (k : ℕ) (m : List (ℕ × V)) → contains k m ≡ true → length (erase k m) < length m
  unfolding erase contains
  length-erase-lt k [] h = cc
  length-erase-lt k ((j, v) ∷ m) h = ground (arith, length-erase-le k m, length-erase-lt k m)

  pub length-insert-le : (k : ℕ) (v : V) (m : List (ℕ × V)) → length (insert k v m) ≤ length m + 1
  unfolding insert
  length-insert-le k v [] = omega arith
  length-insert-le k v ((j, w) ∷ m) = ground (arith, length-insert-le k v m)

  pub length-insert_multi :
      (k : ℕ) (v : V) (m : List (ℕ × V)) → length (insert_multi k v m) ≡ length m + 1
  unfolding insert_multi
  length-insert_multi k v [] = omega arith
  length-insert_multi k v ((j, w) ∷ m) = ground (arith, length-insert_multi k v m)
