-- ===== src/Index/Tests.antt =====
-- Runs of `PerSpaceIndex` (src/log/index.cpp).
use ixe.Prelude.{
  ℕ, ◌<◌, ◌≡◌, ◌⊎◌, arith, true, ◌||◌, ◌&&◌, none, some, [], ◌∷◌, elem, ◌==◌, if◌then◌else◌, ok,
}
use ixe.Prelude.Maps.{find?, contains}
use ixe.Bits.{join_two32}
use ixe.Index.{PerSpaceIndex, selected, empty_log_tag, add, find_prev, find_next}
use ixe.Index.Nearest.{IsIndex, IsNext, IsPrev, find_next_lem, find_prev_lem}
use ixe.Index.Add.{add_lem}

-- Numbers 3 and 8; 8 has tag 5.
abbrev two_numbers : PerSpaceIndex
two_numbers = record {
  logspace_id = 65537;
  user_logspace = 2;
  engine_ids = (3, 11) ∷ (8, 12) ∷ [];
  seqnums = 3 ∷ 8 ∷ [];
  seqnums_by_tag = (5, 8 ∷ []) ∷ [];
}

two_numbers-IsIndex : IsIndex two_numbers
unfolding find? elem contains
two_numbers-IsIndex = record {
  logspace = omega arith;
  sorted = λ t. ground arith;
  engines = λ t k h. ground arith;
}

find_next_lem_example :
    ((find_next 0 5 two_numbers ≡ ok none) × IsNext 65537 0 (selected 5 two_numbers) none)
    ⊎ ((k : ℕ) × (engine : ℕ) × (find_next 0 5 two_numbers ≡ ok (some (join_two32 65537 k, engine)))
        × (find? k two_numbers.engine_ids ≡ some engine)
        × IsNext 65537 0 (selected 5 two_numbers) (some k))
find_next_lem_example = find_next_lem 0 5 two_numbers two_numbers-IsIndex

find_prev_lem_example :
    ((find_prev 281479271677960 0 two_numbers ≡ ok none)
      × IsPrev 65537 281479271677960 (selected 0 two_numbers) none)
    ⊎ ((k : ℕ) × (engine : ℕ) × (find_prev 281479271677960 0 two_numbers
          ≡ ok (some (join_two32 65537 k, engine)))
        × (find? k two_numbers.engine_ids ≡ some engine)
        × IsPrev 65537 281479271677960 (selected 0 two_numbers) (some k))
find_prev_lem_example = find_prev_lem 281479271677960 0 two_numbers two_numbers-IsIndex

below_nine : (t j : ℕ) → elem j (selected t two_numbers) ≡ true → j < 9
unfolding elem find?
below_nine t j h = ground arith

add_lem_example :
    let p' = add 9 13 (5 ∷ 6 ∷ []) two_numbers in
    IsIndex p'
    × ((t j : ℕ)
        → elem j (selected t p') ≡ (
            (9 == j && (t == empty_log_tag || elem t (5 ∷ 6 ∷ [])))
            || elem j (selected t two_numbers)))
    × ((j : ℕ)
        → find? j p'.engine_ids ≡ (if 9 == j then some 13 else find? j two_numbers.engine_ids))
add_lem_example = add_lem 9 13 (5 ∷ 6 ∷ []) two_numbers two_numbers-IsIndex (omega arith) below_nine
