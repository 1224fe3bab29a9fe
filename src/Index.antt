-- ===== src/Index.antt =====
-- `PerSpaceIndex` of src/log/index.cpp: the sequence numbers of one user log space, in order, and those
-- of each tag.
pub mod Nearest
pub mod Add
pub mod Tests
use ixe.Prelude.{
  ℕ, ◌+◌, ◌*◌, ◌^◌, Bool, true, false, Option, none, some, List, [], ◌∷◌, ◌++◌, ltb, ◌==◌,
  if◌then◌else◌, Outcome, ok, ◌>>=◌, at_or_fatal,
}
use ixe.Prelude.Maps.{find?, put}
use ixe.Bits.{join_two32}

abbrev pub empty_log_tag : ℕ
empty_log_tag = 0

abbrev pub max_log_seqnum : ℕ
max_log_seqnum = 65535 * 2 ^ 48

pub record PerSpaceIndex : Type 0 where
  pub logspace_id : ℕ
  pub user_logspace : ℕ
  pub engine_ids : List (ℕ × ℕ)
  pub seqnums : List ℕ
  pub seqnums_by_tag : List (ℕ × List ℕ)

-- `seqnums_by_tag_[user_tag]`: a missing tag has no numbers.
abbrev pub numbers_of : ℕ → List (ℕ × List ℕ) → List ℕ
numbers_of user_tag m = elim (find? user_tag m) [ none ↦ [] | some ks ↦ ks ]

-- The loop of `Add`.
unfoldable pub add_tags : ℕ → List ℕ → List (ℕ × List ℕ) → List (ℕ × List ℕ)
add_tags seqnum [] m = m
add_tags seqnum (user_tag ∷ user_tags) m =
    add_tags seqnum user_tags (put user_tag (numbers_of user_tag m ++ seqnum ∷ []) m)

unfoldable pub add : ℕ → ℕ → List ℕ → PerSpaceIndex → PerSpaceIndex
add seqnum_lowhalf engine_id user_tags p = record p {
  engine_ids = put seqnum_lowhalf engine_id p.engine_ids;
  seqnums = p.seqnums ++ seqnum_lowhalf ∷ [];
  seqnums_by_tag = add_tags seqnum_lowhalf user_tags p.seqnums_by_tag;
}

abbrev pub back : ℕ → List ℕ → ℕ
back k [] = k
back k (j ∷ ks) = back j ks

-- The number before `upper_bound`: `best` until a number is past the query.
unfoldable pub before_upper : ℕ → ℕ → Option ℕ → List ℕ → Option ℕ
before_upper logspace_id query best [] = best
before_upper logspace_id query best (k ∷ ks) =
    let rest = before_upper logspace_id query (some k) ks in
    if ltb query (join_two32 logspace_id k) then best else rest

-- The number at `lower_bound`.
unfoldable pub at_lower : ℕ → ℕ → List ℕ → Option ℕ
at_lower logspace_id query [] = none
at_lower logspace_id query (k ∷ ks) =
    let rest = at_lower logspace_id query ks in
    if ltb (join_two32 logspace_id k) query then rest else some k

-- `FindPrev` and `FindNext` on a vector of numbers.
unfoldable pub prev_among : ℕ → ℕ → List ℕ → Option ℕ
prev_among logspace_id query [] = none
prev_among logspace_id query (k ∷ ks) =
    if ltb query (join_two32 logspace_id k)
    then none
    else if query == max_log_seqnum
    then some (back k ks)
    else before_upper logspace_id query none (k ∷ ks)

unfoldable pub next_among : ℕ → ℕ → List ℕ → Option ℕ
next_among logspace_id query [] = none
next_among logspace_id query (k ∷ ks) =
    if ltb (join_two32 logspace_id (back k ks)) query
    then none
    else at_lower logspace_id query (k ∷ ks)

-- The numbers that a query with this tag looks at.
abbrev pub selected : ℕ → PerSpaceIndex → List ℕ
selected user_tag p =
    if user_tag == empty_log_tag then p.seqnums else numbers_of user_tag p.seqnums_by_tag

-- The sequence number that was found, and the engine that holds it.
unfoldable pub found : PerSpaceIndex → Option ℕ → Outcome (Option (ℕ × ℕ))
found p none = ok none
found p (some k) = at_or_fatal (find? k p.engine_ids) >>= λ engine_id.
    ok (some (join_two32 p.logspace_id k, engine_id))

unfoldable pub find_prev : ℕ → ℕ → PerSpaceIndex → Outcome (Option (ℕ × ℕ))
find_prev query_seqnum user_tag p =
    found p (prev_among p.logspace_id query_seqnum (selected user_tag p))

unfoldable pub find_next : ℕ → ℕ → PerSpaceIndex → Outcome (Option (ℕ × ℕ))
find_next query_seqnum user_tag p =
    found p (next_among p.logspace_id query_seqnum (selected user_tag p))
