-- ===== src/RoundRobin/Members.antt =====
-- The elements of a `RoundRobinSet` (src/utils/round_robin_set.h).
use ixe.Prelude.{
  ℕ, suc, ◌≤◌, ◌≡◌, refl, sym, ap, subst, ◌∙◌, true, false, ◌||◌, ◌&&◌, not, List, [], ◌∷◌, ◌++◌,
  elem, arith, ltb, ◌==◌, inl, inr, Bool-cases,
}
use ixe.RoundRobin.{RoundRobinSet, elems, rising_add, rising_remove, is_before, add, remove}

-- The elements rise strictly, all from `lo` on.
abbrev pub Rises : ℕ → List ℕ → Type 0
Rises lo [] = Unit {0}
Rises lo (x ∷ xs) = (lo ≤ x) × Rises (suc x) xs

elem-append : (k : ℕ) (xs ys : List ℕ) → elem k (xs ++ ys) ≡ (elem k xs || elem k ys)
unfolding elem
elem-append k [] ys = refl
elem-append k (x ∷ xs) ys = ground (arith, elem-append k xs ys)

elem-rising_add : (x k : ℕ) (ys : List ℕ) → elem k (rising_add x ys) ≡ (x == k || elem k ys)
unfolding elem rising_add
elem-rising_add x k [] = refl
elem-rising_add x k (y ∷ ys) = ground (arith, elem-rising_add x k ys)

Rises-elem : (lo k : ℕ) (ys : List ℕ) → Rises lo ys → elem k ys ≡ true → lo ≤ k
unfolding elem
Rises-elem lo k [] r h = cc
Rises-elem lo k (y ∷ ys) r h = ground (arith, Rises-elem (suc y) k ys)

elem-rising_remove :
    (x k lo : ℕ) (ys : List ℕ)
    → Rises lo ys
    → elem k (rising_remove x ys) ≡ (not (x == k) && elem k ys)
unfolding elem rising_remove
elem-rising_remove x k lo [] r = ground arith
elem-rising_remove x k lo (y ∷ ys) r =
    ground (arith, elem-rising_remove x k (suc y) ys, Rises-elem (suc y) k ys)

Rises-mono : (lo hi : ℕ) (ys : List ℕ) → lo ≤ hi → Rises hi ys → Rises lo ys
Rises-mono lo hi [] h r = tt
Rises-mono lo hi (y ∷ ys) h r = (omega arith, r.1)

rising_add-Rises : (x lo : ℕ) (ys : List ℕ) → lo ≤ x → Rises lo ys → Rises lo (rising_add x ys)
unfolding rising_add
rising_add-Rises x lo [] h r = (h, tt)
rising_add-Rises x lo (y ∷ ys) h r = ground (arith, rising_add-Rises x (suc y) ys)

rising_remove-Rises : (x lo : ℕ) (ys : List ℕ) → Rises lo ys → Rises lo (rising_remove x ys)
unfolding rising_remove
rising_remove-Rises x lo [] r = tt
rising_remove-Rises x lo (y ∷ ys) r =
    ground (arith, rising_remove-Rises x (suc y) ys, Rises-mono lo (suc y) ys)

rising_add_before :
    (x : ℕ) (bs fs : List ℕ)
    → is_before x fs ≡ true
    → rising_add x (bs ++ fs) ≡ rising_add x bs ++ fs
unfolding rising_add
rising_add_before x [] [] h = refl
rising_add_before x [] (y ∷ fs) h = rw h refl
rising_add_before x (z ∷ bs) fs h = elim (Bool-cases (ltb x z)) [
  | inl less ↦ rw less refl
  | inr not_less ↦ elim (Bool-cases (x == z)) [
    | inl same ↦ rw (not_less, same) refl
    | inr other ↦ rw (not_less, other) (ap (λ l. z ∷ l) (rising_add_before x bs fs h))
  ]
]

rising_add_after :
    (x lo : ℕ) (bs fs : List ℕ)
    → Rises lo (bs ++ fs)
    → is_before x fs ≡ false
    → rising_add x (bs ++ fs) ≡ bs ++ rising_add x fs
unfolding rising_add elem
rising_add_after x lo [] fs r h = refl
rising_add_after x lo (z ∷ bs) [] r h = cc
rising_add_after x lo (z ∷ bs) (y ∷ fs) r h =
    let low = Rises-elem (suc z) y (bs ++ y ∷ fs) r.1 (elem-append y bs (y ∷ fs) ∙ ground arith) in
    let not_less : ltb x z ≡ false = ground (arith, low) in
    let other : (x == z) ≡ false = ground (arith, low) in
    rw (not_less, other) (ap (λ l. z ∷ l) (rising_add_after x (suc z) bs (y ∷ fs) r.1 h))

rising_remove_absent : (x : ℕ) (ys : List ℕ) → elem x ys ≡ false → rising_remove x ys ≡ ys
unfolding rising_remove elem
rising_remove_absent x [] h = refl
rising_remove_absent x (y ∷ ys) h =
    let other : (x == y) ≡ false = ground (arith, h) in
    rw other (ap (λ l. y ∷ l) (rising_remove_absent x ys (ground (arith, h))))

rising_remove-append :
    (x lo : ℕ) (bs fs : List ℕ)
    → Rises lo (bs ++ fs)
    → rising_remove x (bs ++ fs) ≡ rising_remove x bs ++ rising_remove x fs
unfolding rising_remove
rising_remove-append x lo [] fs r = refl
rising_remove-append x lo (z ∷ bs) fs r = elim (Bool-cases (x == z)) [
  | inr other ↦ rw other (ap (λ l. z ∷ l) (rising_remove-append x (suc z) bs fs r.1))
  | inl same ↦
      let gone : elem x fs ≡ false =
        ground (arith, Rises-elem (suc z) x (bs ++ fs) r.1, elem-append x bs fs) in
      rw same (ap (λ l. bs ++ l) (sym (rising_remove_absent x fs gone)))
]

-- `Add` puts the element into the set, says whether it is new, and keeps the order.
elems-add :
    (x : ℕ) (s : RoundRobinSet)
    → Rises 0 (elems s)
    → let r = add x s in
      (r.1 ≡ not (elem x (elems s)))
      × ((k : ℕ) → elem k (elems r.0) ≡ (x == k || elem k (elems s)))
      × Rises 0 (elems r.0)
unfolding add
elems-add x s h = elim (Bool-cases (elem x (elems s))) [
  | inl old ↦
      rw (old, add) (refl, λ k. ground (arith, old, ap (λ i. elem i (elems s)) {x = x} {y = k}), h)
  | inr new ↦
      let done : List ℕ → Type 0 =
        λ l. ((k : ℕ) → elem k l ≡ (x == k || elem k (elems s))) × Rises 0 l in
      let added : done (rising_add x (elems s)) =
        (λ k. elem-rising_add x k (elems s), rising_add-Rises x 0 (elems s) (omega arith) h) in
      elim (Bool-cases (is_before x s.from)) [
        | inl early ↦
            let e = rising_add_before x s.before s.from early in
            rw (new, early, add) (refl, (subst done e added).0, (subst done e added).1)
        | inr late ↦
            let e = rising_add_after x 0 s.before s.from h late in
            rw (new, late, add) (refl, (subst done e added).0, (subst done e added).1)
      ]
]

-- `Remove` takes the element out of the set, says whether it was there, and keeps the order.
elems-remove :
    (x : ℕ) (s : RoundRobinSet)
    → Rises 0 (elems s)
    → let r = remove x s in
      (r.1 ≡ elem x (elems s))
      × ((k : ℕ) → elem k (elems r.0) ≡ (not (x == k) && elem k (elems s)))
      × Rises 0 (elems r.0)
unfolding remove
elems-remove x s h = elim (Bool-cases (elem x (elems s))) [
  | inr absent ↦
      rw (absent, remove)
        (refl, λ k. ground (arith, absent, ap (λ i. elem i (elems s)) {x = x} {y = k}), h)
  | inl there ↦
      let done : List ℕ → Type 0 =
        λ l. ((k : ℕ) → elem k l ≡ (not (x == k) && elem k (elems s))) × Rises 0 l in
      let removed : done (rising_remove x (elems s)) =
        (λ k. elem-rising_remove x k 0 (elems s) h, rising_remove-Rises x 0 (elems s) h) in
      let e = rising_remove-append x 0 s.before s.from h in
      rw (there, remove) (refl, (subst done e removed).0, (subst done e removed).1)
]

-- `Add` and `Remove` put an element into the set and take it out, say whether they changed the set, and
-- keep it in order.
pub members_lem :
    (x : ℕ) (s : RoundRobinSet)
    → Rises 0 (elems s)
    → let a = add x s in
      let r = remove x s in
      ((a.1 ≡ not (elem x (elems s)))
        × ((k : ℕ) → elem k (elems a.0) ≡ (x == k || elem k (elems s)))
        × Rises 0 (elems a.0))
      × ((r.1 ≡ elem x (elems s))
          × ((k : ℕ) → elem k (elems r.0) ≡ (not (x == k) && elem k (elems s)))
          × Rises 0 (elems r.0))
members_lem x s h = (elems-add x s h, elems-remove x s h)
