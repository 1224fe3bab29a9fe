-- ===== src/LogSpace/Collection.antt =====
-- `LogSpaceCollection` of src/log/log_space_base.h: the log spaces of a node by identifier, and the
-- sets of the active and of the finalized ones. A pointer to a log space is any value.
pub mod Sets
pub mod Life
pub mod Tests
use ixe.Prelude.{
  ℕ, ◌+◌, ◌*◌, ◌^◌, Bool, true, false, Option, none, some, List, [], ◌∷◌, elem, ltb, ◌==◌,
  if◌then◌else◌, Outcome, ok, ◌>>=◌, at_or_fatal,
}
use ixe.Prelude.Maps.{find?, put, erase}
use ixe.Bits.{join_two16, high_half32}

pub record Collection {ℓ} (V : Type ℓ) : Type ℓ where
  pub active_log_spaces : List ℕ
  pub finalized_log_spaces : List ℕ
  pub log_spaces : List (ℕ × V)

-- `insert` and `erase` of a `std::set`, a list by rising number.
unfoldable pub set_add : ℕ → List ℕ → List ℕ
set_add k [] = k ∷ []
set_add k (j ∷ js) =
    let rest = set_add k js in if ltb k j then k ∷ j ∷ js else if k == j then j ∷ js else j ∷ rest

unfoldable pub set_remove : ℕ → List ℕ → List ℕ
set_remove k [] = []
set_remove k (j ∷ js) = let rest = set_remove k js in if k == j then js else j ∷ rest

module _ {ℓ} {V : Type ℓ} where
  unfoldable pub get_log_space : ℕ → Collection V → Option V
  get_log_space identifier c = find? identifier c.log_spaces

  unfoldable pub get_log_space_checked : ℕ → Collection V → Outcome V
  get_log_space_checked identifier c = at_or_fatal (find? identifier c.log_spaces)

  unfoldable pub install_log_space : ℕ → V → Collection V → Collection V
  install_log_space identifier log_space c = record c {
    active_log_spaces = set_add identifier c.active_log_spaces;
    log_spaces = put identifier log_space c.log_spaces;
  }

  unfoldable pub finalize_log_space : ℕ → Collection V → Collection V × Bool
  finalize_log_space identifier c =
      if elem identifier c.active_log_spaces
      then (
        record c {
          active_log_spaces = set_remove identifier c.active_log_spaces;
          finalized_log_spaces = set_add identifier c.finalized_log_spaces;
        },
        true,
      )
      else (c, false)

  unfoldable pub remove_log_space : ℕ → Collection V → Collection V × Bool
  remove_log_space identifier c =
      if elem identifier c.finalized_log_spaces
      then (
        record c {
          finalized_log_spaces = set_remove identifier c.finalized_log_spaces;
          log_spaces = erase identifier c.log_spaces;
        },
        true,
      )
      else (c, false)

  -- The loops over a set: what the callback is called with, in order.
  unfoldable pub visit : List ℕ → Collection V → Outcome (List (ℕ × V))
  visit [] c = ok []
  visit (k ∷ ks) c =
      at_or_fatal (find? k c.log_spaces) >>= λ s. visit ks c >>= λ rest. ok ((k, s) ∷ rest)

  unfoldable pub for_each_active_log_space : Collection V → Outcome (List (ℕ × V))
  for_each_active_log_space c = visit c.active_log_spaces c

  unfoldable pub for_each_finalized_log_space : Collection V → Outcome (List (ℕ × V))
  for_each_finalized_log_space c = visit c.finalized_log_spaces c

-- From `lower_bound` on, up to the first identifier of a later view.
unfoldable pub from_lower : ℕ → List ℕ → List ℕ
from_lower bound [] = []
from_lower bound (k ∷ ks) = let rest = from_lower bound ks in if ltb k bound then rest else k ∷ ks

unfoldable pub until_view : ℕ → List ℕ → List ℕ
until_view view_id [] = []
until_view view_id (k ∷ ks) =
    let rest = until_view view_id ks in if ltb view_id (high_half32 k) then [] else k ∷ rest

unfoldable pub of_view : ℕ → List ℕ → List ℕ
of_view view_id ks = until_view view_id (from_lower (join_two16 view_id 0) ks)

unfoldable pub for_each_active_log_space_of {ℓ} :
    {V : Type ℓ} → ℕ → Collection V → Outcome (List (ℕ × V))
for_each_active_log_space_of view_id c = visit (of_view view_id c.active_log_spaces) c
