-- ===== src/RoundRobin/Tests.antt =====
-- Three connections (src/utils/round_robin_set.h).
use ixe.Prelude.{ℕ, ◌≡◌, [], ◌∷◌, not, elem, ◌==◌, ◌||◌, ◌&&◌, arith}
use ixe.RoundRobin.{RoundRobinSet, elems, add, remove}
use ixe.RoundRobin.Members.{Rises, members_lem}
use ixe.RoundRobin.Turns.{picks, given, picks_lem}

abbrev three : RoundRobinSet
three = record { before = 2 ∷ []; from = 5 ∷ 9 ∷ [] }

picks_lem_example :
    (s' : RoundRobinSet) × (picks 3 three ≡ (given (5 ∷ 9 ∷ 2 ∷ []), s'))
    × (elems s' ≡ 2 ∷ 5 ∷ 9 ∷ [])
picks_lem_example = picks_lem three

three-Rises : Rises 0 (elems three)
three-Rises = (omega arith, (omega arith, (omega arith, tt)))

members_lem_example :
    let a = add 7 three in
    let r = remove 7 three in
    ((a.1 ≡ not (elem 7 (elems three)))
      × ((k : ℕ) → elem k (elems a.0) ≡ (7 == k || elem k (elems three)))
      × Rises 0 (elems a.0))
    × ((r.1 ≡ elem 7 (elems three))
        × ((k : ℕ) → elem k (elems r.0) ≡ (not (7 == k) && elem k (elems three)))
        × Rises 0 (elems r.0))
members_lem_example = members_lem 7 three three-Rises
