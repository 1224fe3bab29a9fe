-- ===== src/Index/Add.antt =====
-- What `Add` of src/log/index.cpp does to the numbers of each tag.
use ixe.Prelude.{
  elem-append_one, ℕ, ◌^◌, ◌≤◌, ◌<◌, ◌≡◌, subst, sym, ap, ◌∙◌, Bool, true, false, ◌||◌, ◌&&◌, some,
  List, [], ◌∷◌, ◌++◌, elem, arith, ◌==◌, if◌then◌else◌,
}
use ixe.Prelude.Maps.{find?, put, find?-put, contains-put}
use ixe.Index.{PerSpaceIndex, numbers_of, add_tags, add, selected, empty_log_tag}
use ixe.Index.Nearest.{Sorted, IsIndex}

numbers_of-push :
    (x u t : ℕ) (m : List (ℕ × List ℕ))
    → numbers_of t (put u (numbers_of u m ++ x ∷ []) m)
      ≡ (if u == t then numbers_of t m ++ x ∷ [] else numbers_of t m)
numbers_of-push x u t m =
    ground
      (arith, find?-put u t (numbers_of u m ++ x ∷ []) m, ap (λ i. numbers_of i m) {x = u} {y = t})

elem-if :
    (b : Bool) (x j : ℕ) (ks : List ℕ)
    → elem j (if b then ks ++ x ∷ [] else ks) ≡ ((x == j && b) || elem j ks)
unfolding elem
elem-if true x j ks = elem-append_one j x ks ∙ ground arith
elem-if false x j ks = ground arith

elem-add_tags :
    (x : ℕ) (tags : List ℕ) (m : List (ℕ × List ℕ)) (t j : ℕ)
    → elem j (numbers_of t (add_tags x tags m))
      ≡ ((x == j && elem t tags) || elem j (numbers_of t m))
unfolding add_tags elem
elem-add_tags x [] m t j = ground arith
elem-add_tags x (u ∷ us) m t j =
    let one = ap (elem j) (numbers_of-push x u t m) ∙ elem-if (u == t) x j (numbers_of t m) in
    elem-add_tags x us (put u (numbers_of u m ++ x ∷ []) m) t j ∙ ground (arith, one)

Sorted-append :
    (lo x : ℕ) (ks : List ℕ)
    → lo ≤ x
    → x < 2 ^ 32
    → ((j : ℕ) → elem j ks ≡ true → j ≤ x)
    → Sorted lo ks
    → Sorted lo (ks ++ x ∷ [])
unfolding elem
Sorted-append lo x [] a b top s = (a, b, tt)
Sorted-append lo x (k ∷ ks) a b top s =
    (s.0, s.1, Sorted-append k x ks (top k (ground arith)) b (λ j h. top j (ground arith)) s.2)

Sorted-if :
    (b : Bool) (x : ℕ) (ks : List ℕ)
    → x < 2 ^ 32
    → ((j : ℕ) → elem j ks ≡ true → j ≤ x)
    → Sorted 0 ks
    → Sorted 0 (if b then ks ++ x ∷ [] else ks)
Sorted-if true x ks b top s = Sorted-append 0 x ks (omega arith) b top s
Sorted-if false x ks b top s = s

Sorted-add_tags :
    (x : ℕ) (tags : List ℕ) (m : List (ℕ × List ℕ)) (t : ℕ)
    → x < 2 ^ 32
    → ((j : ℕ) → elem j (numbers_of t m) ≡ true → j ≤ x)
    → Sorted 0 (numbers_of t m)
    → Sorted 0 (numbers_of t (add_tags x tags m))
unfolding add_tags
Sorted-add_tags x [] m t b top s = s
Sorted-add_tags x (u ∷ us) m t b top s =
    let push = numbers_of-push x u t m in
    Sorted-add_tags x us (put u (numbers_of u m ++ x ∷ []) m) t b
      (λ j h. ground (arith, top j, ap (elem j) push, elem-if (u == t) x j (numbers_of t m)))
      (subst (Sorted 0) (sym push) (Sorted-if (u == t) x (numbers_of t m) b top s))

-- The two kinds of query: with the empty tag, and with another.
elem-selected :
    (empty e : Bool) (x j : ℕ) (all tagged more : List ℕ)
    → elem j more ≡ ((x == j && e) || elem j tagged)
    → elem j (if empty then all ++ x ∷ [] else more)
      ≡ ((x == j && (empty || e)) || elem j (if empty then all else tagged))
elem-selected true e x j all tagged more h = elem-append_one j x all ∙ ground arith
elem-selected false e x j all tagged more h = h

Sorted-selected :
    (empty : Bool) (x : ℕ) (all tagged more : List ℕ)
    → x < 2 ^ 32
    → ((j : ℕ) → elem j (if empty then all else tagged) ≡ true → j ≤ x)
    → (((j : ℕ) → elem j tagged ≡ true → j ≤ x) → Sorted 0 tagged → Sorted 0 more)
    → Sorted 0 (if empty then all else tagged)
    → Sorted 0 (if empty then all ++ x ∷ [] else more)
Sorted-selected true x all tagged more b top step s = Sorted-append 0 x all (omega arith) b top s
Sorted-selected false x all tagged more b top step s = step top s

-- `Add` of a number past those of the index puts it under the empty tag and under each of its tags,
-- and nowhere else; its engine is known, those of the others stay, and the index stays in order.
pub add_lem :
    (x engine : ℕ) (tags : List ℕ) (p : PerSpaceIndex)
    → IsIndex p
    → x < 2 ^ 32
    → ((t j : ℕ) → elem j (selected t p) ≡ true → j < x)
    → let p' = add x engine tags p in
      IsIndex p'
      × ((t j : ℕ)
          → elem j (selected t p')
            ≡ ((x == j && (t == empty_log_tag || elem t tags)) || elem j (selected t p)))
      × ((j : ℕ) → find? j p'.engine_ids ≡ (if x == j then some engine else find? j p.engine_ids))
unfolding add
add_lem x engine tags p v b top =
    let m = p.seqnums_by_tag in
    let held = λ (t j : ℕ).
      elem-selected (t == empty_log_tag) (elem t tags) x j p.seqnums (numbers_of t m)
        (numbers_of t (add_tags x tags m)) (elem-add_tags x tags m t j) in
    (
      record {
        logspace = v.logspace;
        sorted = λ t.
            Sorted-selected (t == empty_log_tag) x p.seqnums (numbers_of t m)
              (numbers_of t (add_tags x tags m)) b (λ j h. omega (arith, top t j h))
              (λ low s. Sorted-add_tags x tags m t b low s) (v.sorted t);
        engines =
            λ t k h. ground (arith, held t k, v.engines t k, contains-put x k engine p.engine_ids);
      },
      held,
      λ j. find?-put x j engine p.engine_ids,
    )
