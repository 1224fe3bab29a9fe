-- ===== src/LogSpace/Producer/Tests.antt =====
-- Runs of `LogProducer` (src/log/log_space.cpp).
use ixe.Prelude.{ℕ, ◌≡◌, refl, arith, [], ◌∷◌, ok}
use ixe.LogSpace.Base.{Core, new_core}
use ixe.LogSpace.Data.{log_producer}
use ixe.LogSpace.Producer.{Producer, complete_appends}
use ixe.LogSpace.Producer.Fifo.{Holds, assigned, complete_appends_refines}

-- Two callers, 11 and 12, wait under localids 100 and 101.
abbrev two_appends : Producer ℕ
two_appends = record {
  next_localid = 102;
  pending_appends = (100, 11) ∷ (101, 12) ∷ [];
  pending_append_results = [];
}

abbrev producer_core : Core (Producer ℕ)
producer_core = new_core log_producer 1 0 [] two_appends

two_appends-Holds : Holds 100 (11 ∷ 12 ∷ []) two_appends
two_appends-Holds = record { pending = refl; next = refl }

producer_core-Holds : Holds 100 (11 ∷ 12 ∷ []) producer_core.derived
unfolding new_core
producer_core-Holds = record { pending = refl; next = refl }

complete_appends_refines_example :
    (q : Producer ℕ) × (complete_appends 7 50 100 1 two_appends ≡ ok q)
    × Holds 101 (12 ∷ []) q
    × (q.pending_append_results ≡ assigned 7 50 100 (11 ∷ []))
complete_appends_refines_example =
    complete_appends_refines 7 50 100 (11 ∷ []) (12 ∷ []) two_appends (omega arith) (omega arith)
      two_appends-Holds
