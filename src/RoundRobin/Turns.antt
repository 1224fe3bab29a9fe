-- ===== src/RoundRobin/Turns.antt =====
-- Repeated picks from a `RoundRobinSet` (src/utils/round_robin_set.h).
use ixe.Prelude.{
  ℕ, zero, suc, ◌+◌, ◌≡◌, refl, sym, ap, ◌∙◌, Option, some, List, [], ◌∷◌, ◌++◌, append_assoc,
  append-nil, length, length-append, arith,
}
use ixe.RoundRobin.{RoundRobinSet, elems, pick_next}

-- `n` picks: what they give, and the set after them.
unfoldable pub picks : ℕ → RoundRobinSet → List (Option ℕ) × RoundRobinSet
picks zero s = ([], s)
picks (suc n) s = let (s', x) = pick_next s in let (xs, s'') = picks n s' in (x ∷ xs, s'')

abbrev pub given : List ℕ → List (Option ℕ)
given [] = []
given (x ∷ xs) = some x ∷ given xs

given-append : (xs ys : List ℕ) → given (xs ++ ys) ≡ given xs ++ given ys
given-append [] ys = refl
given-append (x ∷ xs) ys = ap (λ l. some x ∷ l) (given-append xs ys)

-- The elements from the current one on are picked one after the other.
picks-from :
    (before xs ys : List ℕ)
    → picks (length xs) (record { before = before; from = xs ++ ys })
      ≡ (given xs, record { before = before ++ xs; from = ys })
unfolding picks pick_next
picks-from before [] ys = ap (λ l. ([], record { before = l; from = ys })) (sym (append-nil before))
picks-from before (x ∷ xs) ys =
    ap (λ (r : List (Option ℕ) × RoundRobinSet). (some x ∷ r.0, r.1))
      (picks-from (before ++ x ∷ []) xs ys)
    ∙ ap (λ l. (some x ∷ given xs, record { before = l; from = ys }))
        (append_assoc before (x ∷ []) xs)

-- From the end of the set, picks start again at its beginning.
picks_wrap :
    (before from : List ℕ)
    → (s' : RoundRobinSet) × (picks (length before) (record { before = before ++ from; from = [] })
        ≡ (given before, s'))
      × (elems s' ≡ before ++ from)
unfolding picks pick_next
picks_wrap [] from = (record { before = from; from = [] }, refl, append-nil from)
picks_wrap (y ∷ ys) from = (
  record { before = y ∷ ys; from = from },
  ap (λ (r : List (Option ℕ) × RoundRobinSet). (some y ∷ r.0, r.1)) (picks-from (y ∷ []) ys from),
  refl,
)

-- What `n` picks add to earlier ones.
abbrev pub more : ℕ → List (Option ℕ) × RoundRobinSet → List (Option ℕ) × RoundRobinSet
more n r = let t = picks n r.1 in (r.0 ++ t.0, t.1)

picks_plus : (m n : ℕ) (s : RoundRobinSet) → picks (m + n) s ≡ more n (picks m s)
unfolding picks
picks_plus zero n s = let e : 0 + n ≡ n = omega arith in ap (λ k. picks k s) e
picks_plus (suc m) n s =
    let e : suc m + n ≡ suc (m + n) = omega arith in
    let (s', x) = pick_next s in
    ap (λ k. picks k s) e
    ∙ ap (λ (r : List (Option ℕ) × RoundRobinSet). (x ∷ r.0, r.1)) (picks_plus m n s')

-- As many picks as there are elements give each element once, those from the current one on first and
-- then those before it, and leave the same set.
pub picks_lem :
    (s : RoundRobinSet)
    → (s' : RoundRobinSet) × (picks (length (elems s)) s ≡ (given (s.from ++ s.before), s'))
      × (elems s' ≡ elems s)
picks_lem s =
    let (s', wrap, same) = picks_wrap s.before s.from in
    let n = length s.from in
    let k = length s.before in
    let count : length (elems s) ≡ n + k = omega (arith, length-append s.before s.from) in
    let first =
      ap (λ l. picks n (record { before = s.before; from = l })) (sym (append-nil s.from))
      ∙ picks-from s.before s.from [] in
    (
      s',
      ap (λ i. picks i s) count
          ∙ picks_plus n k s
          ∙ ap (more k) first
          ∙ ap (λ (t : List (Option ℕ) × RoundRobinSet). (given s.from ++ t.0, t.1)) wrap
          ∙ ap (λ l. (l, s')) (sym (given-append s.from s.before)),
      same,
    )
