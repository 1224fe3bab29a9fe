-- ===== src/FutureRequests/Tests.antt =====
-- Requests for two views, before the first of them comes (src/log/utils.cpp).
use ixe.Prelude.{ℕ, ◌≡◌, refl, List, [], ◌∷◌, arith, ok}
use ixe.FutureRequests.{new_future_requests}
use ixe.FutureRequests.Release.{Event, hold, view, held, run, releases, run_lem}

abbrev events : List (Event ℕ)
events = hold 1 7 ∷ hold 0 8 ∷ view 0 ∷ hold 1 9 ∷ view 1 ∷ []

-- The first view gets one request, the second one two.
releases_run : releases ℕ [] events ≡ (0, 8 ∷ []) ∷ (1, 7 ∷ 9 ∷ []) ∷ []
unfolding releases held
releases_run = refl

run_lem_example : run ℕ events (new_future_requests ℕ) ≡ ok (releases ℕ [] events)
run_lem_example =
    run_lem ℕ events (omega arith, (omega arith, (refl, (omega arith, (refl, tt))))) (omega arith)
