-- ===== src/LogSpace/Collection/Tests.antt =====
-- Runs of `LogSpaceCollection` (src/log/log_space_base.h).
use ixe.Prelude.{ℕ, ◌≡◌, refl, true, arith, ◌&&◌, some, List, [], ◌∷◌, elem, ◌==◌, ok}
use ixe.Prelude.Maps.{find?, contains}
use ixe.Bits.{high_half32}
use ixe.LogSpace.Collection.{
  Collection, install_log_space, finalize_log_space, remove_log_space, get_log_space,
  for_each_active_log_space_of,
}
use ixe.LogSpace.Collection.Life.{IsConsistent, for_each_active_log_space_of_lem, lifecycle_lem}

-- Two views: log space 65537 of view 1 is finalized, 131073 and 196610 are active.
abbrev three : Collection ℕ
three = record {
  active_log_spaces = 131073 ∷ 196610 ∷ [];
  finalized_log_spaces = 65537 ∷ [];
  log_spaces = (131073, 21) ∷ (65537, 11) ∷ (196610, 32) ∷ [];
}

three-IsConsistent : IsConsistent three
unfolding elem contains
three-IsConsistent = record {
  active = ground arith;
  finalized = ground arith;
  apart = λ k h. ground arith;
  there = λ k h. ground arith;
}

for_each_active_log_space_of_lem_example :
    (r : List (ℕ × ℕ)) × (for_each_active_log_space_of 2 three ≡ ok r)
    × ((k : ℕ) → contains k r ≡ (high_half32 k == 2 && elem k three.active_log_spaces))
    × ((k s : ℕ) → find? k r ≡ some s → get_log_space k three ≡ some s)
for_each_active_log_space_of_lem_example =
    for_each_active_log_space_of_lem 2 three (omega arith) three-IsConsistent

lifecycle_lem_example :
    let c₁ = install_log_space 65538 12 three in
    let c₂ = finalize_log_space 65538 c₁ in
    let c₃ = remove_log_space 65538 c₂.0 in
    (get_log_space 65538 c₁ ≡ some 12)
    × (c₂.1 ≡ true)
    × (c₃.1 ≡ true)
    × IsConsistent c₃.0
    × ((j : ℕ)
        → (get_log_space j c₃.0 ≡ get_log_space j three)
          × (elem j c₃.0.active_log_spaces ≡ elem j three.active_log_spaces)
          × (elem j c₃.0.finalized_log_spaces ≡ elem j three.finalized_log_spaces))
unfolding elem contains
lifecycle_lem_example = lifecycle_lem 65538 12 three (omega arith) three-IsConsistent refl refl refl
