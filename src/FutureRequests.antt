-- ===== src/FutureRequests.antt =====
-- `FutureRequests` of src/log/utils.cpp: requests that arrive before the view that they are for.
pub mod Release
pub mod Tests
use ixe.Prelude.{
  ℕ, ◌+◌, ◌%◌, ◌^◌, Bool, true, false, not, Option, none, some, List, [], ◌∷◌, ◌++◌, ltb, ◌==◌,
  if◌then◌else◌, Outcome, ok, fatal,
}
use ixe.Prelude.Maps.{find?, put, erase}

module _ {ℓ} (Request : Type ℓ) where
  pub record FutureRequests : Type ℓ where
    pub next_view_id : ℕ
    pub onhold_requests : List (ℕ × List Request)

  abbrev pub new_future_requests : FutureRequests
  new_future_requests = record { next_view_id = 0; onhold_requests = [] }

  abbrev pub next_view : FutureRequests → FutureRequests
  next_view s = record s { next_view_id = (s.next_view_id + 1) % 2 ^ 16 }

  -- `wants` says whether `ready_requests` is not null. The vector that it points to is empty before.
  unfoldable pub on_new_view : ℕ → Bool → FutureRequests → Outcome (FutureRequests × List Request)
  on_new_view view_id wants s =
      if view_id == s.next_view_id
      then elim (find? view_id s.onhold_requests) [
        | none ↦ ok (next_view s, [])
        | some requests ↦
            if wants
            then ok (
              next_view (record s { onhold_requests = erase view_id s.onhold_requests }),
              requests,
            )
            else fatal
      ]
      else fatal

  abbrev pub held_for : ℕ → List (ℕ × List Request) → List Request
  held_for view_id m = elim (find? view_id m) [ none ↦ [] | some requests ↦ requests ]

  unfoldable pub on_hold_request : ℕ → Request → FutureRequests → Outcome FutureRequests
  on_hold_request view_id request s =
      if ltb view_id s.next_view_id
      then fatal
      else ok (record s {
        onhold_requests =
            put view_id (held_for view_id s.onhold_requests ++ request ∷ []) s.onhold_requests;
      })
