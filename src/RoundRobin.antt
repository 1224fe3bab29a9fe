-- ===== src/RoundRobin.antt =====
-- `RoundRobinSet` of src/utils/round_robin_set.h, by which a worker takes turns among its connections.
pub mod Turns
pub mod Members
pub mod Tests
use ixe.Prelude.{
  ℕ, Bool, true, false, not, Option, none, some, List, [], ◌∷◌, ◌++◌, elem, ltb, leb, ◌==◌,
  if◌then◌else◌,
}

-- `std::set` as a rising list, cut at `current_`: the elements before it and those from it on.
pub record RoundRobinSet : Type 0 where
  pub before : List ℕ
  pub from : List ℕ

abbrev pub new_round_robin_set : RoundRobinSet
new_round_robin_set = record { before = []; from = [] }

-- `elems_`.
abbrev pub elems : RoundRobinSet → List ℕ
elems s = s.before ++ s.from

unfoldable pub rising_add : ℕ → List ℕ → List ℕ
rising_add x [] = x ∷ []
rising_add x (y ∷ ys) =
    if ltb x y then x ∷ y ∷ ys else if x == y then y ∷ ys else y ∷ rising_add x ys

unfoldable pub rising_remove : ℕ → List ℕ → List ℕ
rising_remove x [] = []
rising_remove x (y ∷ ys) = if x == y then ys else y ∷ rising_remove x ys

-- The iterator stays at its element, or at the end: a new element goes before it when it is less than
-- that element.
abbrev pub is_before : ℕ → List ℕ → Bool
is_before x [] = true
is_before x (y ∷ ys) = ltb x y

unfoldable pub add : ℕ → RoundRobinSet → RoundRobinSet × Bool
add x s =
    if elem x (elems s)
    then (s, false)
    else if is_before x s.from
    then (record s { before = rising_add x s.before }, true)
    else (record s { from = rising_add x s.from }, true)

-- `erase` of the element at `current_` gives the next one.
unfoldable pub remove : ℕ → RoundRobinSet → RoundRobinSet × Bool
remove x s =
    if not (elem x (elems s))
    then (s, false)
    else (record { before = rising_remove x s.before; from = rising_remove x s.from }, true)

unfoldable pub pick_next : RoundRobinSet → RoundRobinSet × Option ℕ
pick_next s = elim s.from [
  | x ∷ xs ↦ (record { before = s.before ++ x ∷ []; from = xs }, some x)
  | [] ↦ elim s.before [ [] ↦ (s, none) | x ∷ xs ↦ (record { before = x ∷ []; from = xs }, some x) ]
]
