-- ===== src/Query/Aggregate/Closest.antt =====
-- How close results of a read are to its query, and the join of two (src/log/aggregating.cpp).
use ixe.Prelude.{
  ℕ, ◌≡◌, ◌⊎◌, refl, sym, subst, ◌∙◌, Bool, true, false, List, [], ◌∷◌, arith, ltb, leb,
  if◌then◌else◌, inl, inr, Bool-cases,
}
use ixe.Query.{k_found, k_empty, IndexQueryResult}
use ixe.Query.Aggregate.{is_prev, merge_near, merge}

-- A result of the read with this key and direction: found, or empty.
pub record IsResult (key : ℕ) (backward : Bool) (r : IndexQueryResult) : Type 0 where
  pub same_key : r.original_query.client_data ≡ key
  pub same_direction : is_prev r.original_query.direction ≡ backward
  pub settled : (r.state ≡ k_found) ⊎ (r.state ≡ k_empty)

abbrev pub near : Bool → IndexQueryResult → IndexQueryResult → Bool
near backward a b =
    if backward
    then leb b.found_result.seqnum a.found_result.seqnum
    else leb a.found_result.seqnum b.found_result.seqnum

-- `a` is at least as close as `b`.
abbrev pub Closer : Bool → IndexQueryResult → IndexQueryResult → Type 0
Closer backward a b =
    (b.state ≡ k_empty) ⊎ ((a.state ≡ k_found) × (b.state ≡ k_found) × (near backward a b ≡ true))

abbrev pub Among : IndexQueryResult → List (ℕ × IndexQueryResult) → Type 0
Among r [] = ⊥
Among r ((node, x) ∷ xs) = (r ≡ x) ⊎ Among r xs

abbrev pub AllCloser : Bool → IndexQueryResult → List (ℕ × IndexQueryResult) → Type 0
AllCloser backward r [] = Unit {0}
AllCloser backward r ((node, x) ∷ xs) = Closer backward r x × AllCloser backward r xs

-- One of the results, and none is closer.
abbrev pub IsClosest : Bool → IndexQueryResult → List (ℕ × IndexQueryResult) → Type 0
IsClosest backward r xs = Among r xs × AllCloser backward r xs

Closer-trans :
    (backward : Bool) (a b c : IndexQueryResult)
    → Closer backward a b
    → Closer backward b c
    → Closer backward a c
Closer-trans backward a b c h (inl e) = inl e
Closer-trans backward a b c (inl f) (inr (g, e, le)) = absurd (cc)
Closer-trans true a b c (inr (f, g, le)) (inr (g', e, le')) = inr (f, e, ground (arith, le, le'))
Closer-trans false a b c (inr (f, g, le)) (inr (g', e, le')) = inr (f, e, ground (arith, le, le'))

near_refl : (backward : Bool) (a : IndexQueryResult) → near backward a a ≡ true
near_refl true a = ground arith
near_refl false a = ground arith

merge_near-cases :
    (backward : Bool) (a b : IndexQueryResult)
    → is_prev a.original_query.direction ≡ backward
    → ((merge_near a b ≡ a) × (near backward a b ≡ true))
      ⊎ ((merge_near a b ≡ b) × (near backward b a ≡ true))
merge_near-cases true a b e = elim (Bool-cases (ltb a.found_result.seqnum b.found_result.seqnum)) [
  | inl other ↦ inr (rw (e, other) refl, ground arith)
  | inr mine ↦ inl (rw (e, mine) refl, ground arith)
]
merge_near-cases false a b e = elim (Bool-cases (ltb b.found_result.seqnum a.found_result.seqnum)) [
  | inl other ↦ inr (rw (e, other) refl, ground arith)
  | inr mine ↦ inl (rw (e, mine) refl, ground arith)
]

-- One of two results, at least as close as both.
abbrev pub IsCloser : Bool → IndexQueryResult → IndexQueryResult → IndexQueryResult → Type 0
IsCloser backward a b x = ((x ≡ a) ⊎ (x ≡ b)) × Closer backward x a × Closer backward x b

same_state :
    (backward : Bool) (a b : IndexQueryResult)
    → a.state ≡ b.state
    → (b.state ≡ k_found) ⊎ (b.state ≡ k_empty)
    → is_prev a.original_query.direction ≡ backward
    → IsCloser backward a b (merge_near a b)
same_state backward a b e (inr empty) d = elim (merge_near-cases backward a b d) [
  | inl (mine, _) ↦ (inl mine, inl (e ∙ empty), inl empty)
  | inr (other, _) ↦ (inr other, inl (e ∙ empty), inl empty)
]
same_state backward a b e (inl found) d = elim (merge_near-cases backward a b d) [
  | inl (mine, le) ↦
      subst (IsCloser backward a b) (sym mine)
        (inl refl, inr (e ∙ found, e ∙ found, near_refl backward a), inr (e ∙ found, found, le))
  | inr (other, le) ↦
      subst (IsCloser backward a b) (sym other)
        (inr refl, inr (found, e ∙ found, le), inr (found, found, near_refl backward b))
]

merge-Closer :
    (key : ℕ) (backward : Bool) (a b : IndexQueryResult)
    → IsResult key backward a
    → IsResult key backward b
    → IsCloser backward a b (merge a b)
unfolding merge
merge-Closer key backward a b v w = elim v.settled [
  | inl f ↦ elim w.settled [
    | inl g ↦
        let e : merge a b ≡ merge_near a b = simp (f, g, merge) in
        subst (IsCloser backward a b) (sym e)
          (same_state backward a b (f ∙ sym g) w.settled v.same_direction)
    | inr g ↦
        let e : merge a b ≡ a = simp (f, g, merge) in
        subst (IsCloser backward a b) (sym e) (inl refl, inr (f, f, near_refl backward a), inl g)
  ]
  | inr f ↦ elim w.settled [
    | inl g ↦
        let e : merge a b ≡ b = simp (f, g, merge) in
        subst (IsCloser backward a b) (sym e) (inr refl, inl f, inr (g, g, near_refl backward b))
    | inr g ↦
        let e : merge a b ≡ merge_near a b = simp (f, g, merge) in
        subst (IsCloser backward a b) (sym e)
          (same_state backward a b (f ∙ sym g) w.settled v.same_direction)
  ]
]

pub merge-IsResult :
    (key : ℕ) (backward : Bool) (a b : IndexQueryResult)
    → IsResult key backward a
    → IsResult key backward b
    → IsResult key backward (merge a b)
merge-IsResult key backward a b v w = elim (merge-Closer key backward a b v w).0 [
  | inl mine ↦ subst (IsResult key backward) (sym mine) v
  | inr other ↦ subst (IsResult key backward) (sym other) w
]

pub Closer-refl :
    (key : ℕ) (backward : Bool) (r : IndexQueryResult)
    → IsResult key backward r
    → Closer backward r r
Closer-refl key backward r v = elim v.settled [
  | inl found ↦ inr (found, found, near_refl backward r)
  | inr empty ↦ inl empty
]

AllCloser-trans :
    (backward : Bool) (a b : IndexQueryResult) (xs : List (ℕ × IndexQueryResult))
    → Closer backward a b
    → AllCloser backward b xs
    → AllCloser backward a xs
AllCloser-trans backward a b [] h all = tt
AllCloser-trans backward a b ((node, x) ∷ xs) h all =
    (Closer-trans backward a b x h all.0, AllCloser-trans backward a b xs h all.1)

pub merge-IsClosest :
    (key : ℕ) (backward : Bool) (a : IndexQueryResult) (node : ℕ) (b : IndexQueryResult)
    (seen : List (ℕ × IndexQueryResult))
    → IsResult key backward a
    → IsResult key backward b
    → IsClosest backward a seen
    → IsClosest backward (merge a b) ((node, b) ∷ seen)
merge-IsClosest key backward a node b seen v w c =
    let (which, closer_a, closer_b) = merge-Closer key backward a b v w in
    (
      elim which [
        | inl mine ↦ inr (subst (λ r. Among r seen) (sym mine) c.0)
        | inr other ↦ inl other
      ],
      (closer_b, AllCloser-trans backward (merge a b) a seen closer_a c.1),
    )
