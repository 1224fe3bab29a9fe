-- ===== src/Query/Aggregate/Joined.antt =====
-- The calls of `EngineIndexReadOp::Aggregate` (src/log/aggregating.cpp) for one read.
use ixe.Prelude.{
  ℕ, ◌+◌, ◌<◌, ◌≡◌, refl, sym, ap, subst, ◌∙◌, Bool, true, false, Option, none, some, List, [], ◌∷◌,
  arith, elem, length, ◌==◌, inl,
}
use ixe.Prelude.Maps.{find?, put, erase, find?-put, find?-erase}
use ixe.Query.{IndexQueryResult}
use ixe.Query.Aggregate.{IndexReadOp, merge, update_op, aggregate}
use ixe.Query.Aggregate.Closest.{IsResult, IsClosest, merge-IsResult, Closer-refl, merge-IsClosest}

-- The nodes are distinct, and none has answered before.
abbrev pub AllFresh : List ℕ → List (ℕ × IndexQueryResult) → Type 0
AllFresh nodes [] = Unit {0}
AllFresh nodes ((node, x) ∷ xs) = (elem node nodes ≡ false) × AllFresh (node ∷ nodes) xs

abbrev pub AllResults : ℕ → Bool → List (ℕ × IndexQueryResult) → Type 0
AllResults key backward [] = Unit {0}
AllResults key backward ((node, x) ∷ xs) = IsResult key backward x × AllResults key backward xs

-- The calls for a read, until one has the joined result.
unfoldable pub aggregate_all :
    ℕ
    → List (ℕ × IndexQueryResult)
    → List (ℕ × IndexReadOp)
    → List (ℕ × IndexReadOp) × Option IndexQueryResult
aggregate_all num_index_shards [] table = (table, none)
aggregate_all num_index_shards ((node, x) ∷ xs) table =
    let r = aggregate num_index_shards node x table in
    elim r.1 [ some joined ↦ r | none ↦ aggregate_all num_index_shards xs r.0 ]

-- The results in the order in which they came, last first.
abbrev pub onto :
    List (ℕ × IndexQueryResult) → List (ℕ × IndexQueryResult) → List (ℕ × IndexQueryResult)
onto [] seen = seen
onto (x ∷ xs) seen = onto xs (x ∷ seen)

module _ (key : ℕ) (backward : Bool) (n : ℕ) where
  -- All nodes have answered: the table has lost the read, and the result is the closest.
  abbrev pub IsJoined :
      List (ℕ × IndexQueryResult) → List (ℕ × IndexReadOp) × Option IndexQueryResult → Type 0
  IsJoined all outcome =
      (r : IndexQueryResult) × (outcome.1 ≡ some r)
      × IsClosest backward r all
      × (find? key outcome.0 ≡ none)

  module _ (node : ℕ) (x : IndexQueryResult) (table : List (ℕ × IndexReadOp)) (op : IndexReadOp)
      (same_key : x.original_query.client_data ≡ key)
      (updated : update_op node x (find? key table) ≡ op) where
    aggregate_last :
        length op.aggregated_nodes ≡ n
        → aggregate n node x table ≡ (erase key table, some op.index_query_result)
    unfolding aggregate
    aggregate_last e =
        let enough : (length op.aggregated_nodes == n) ≡ true = ground (arith, e) in
        simp (aggregate, same_key, updated, enough)

    aggregate_more :
        length op.aggregated_nodes < n → aggregate n node x table ≡ (put key op table, none)
    unfolding aggregate
    aggregate_more h =
        let few : (length op.aggregated_nodes == n) ≡ false = ground (arith, h) in
        simp (aggregate, same_key, updated, few)

  update_op_next :
      (node : ℕ) (x : IndexQueryResult) (nodes : List ℕ) (r : IndexQueryResult)
      (table : List (ℕ × IndexReadOp))
      → find? key table ≡ some (record { aggregated_nodes = nodes; index_query_result = r })
      → elem node nodes ≡ false
      → update_op node x (find? key table)
        ≡ record { aggregated_nodes = node ∷ nodes; index_query_result = merge r x }
  unfolding update_op
  update_op_next node x nodes r table there fresh = simp (there, update_op, fresh)

  go :
      (xs : List (ℕ × IndexQueryResult)) (nodes : List ℕ) (r : IndexQueryResult)
      (seen : List (ℕ × IndexQueryResult)) (node : ℕ) (x : IndexQueryResult)
      (table : List (ℕ × IndexReadOp))
      → update_op node x (find? key table)
        ≡ record { aggregated_nodes = nodes; index_query_result = r }
      → IsResult key backward x
      → IsResult key backward r
      → IsClosest backward r seen
      → length nodes + length xs ≡ n
      → AllFresh nodes xs
      → AllResults key backward xs
      → IsJoined (onto xs seen) (aggregate_all n ((node, x) ∷ xs) table)
  unfolding aggregate_all
  go [] nodes r seen node x table u w v c e fresh all =
      let op : IndexReadOp = record { aggregated_nodes = nodes; index_query_result = r } in
      let last = aggregate_last node x table op w.same_key u (omega (arith, e)) in
      subst (IsJoined seen)
        (sym (ap (λ t. elim t.1 [ some joined ↦ t | none ↦ aggregate_all n [] t.0 ]) last))
        (r, refl, c, find?-erase key key table ∙ ground arith)
  go ((node', y) ∷ xs) nodes r seen node x table u w v c e fresh all =
      let op : IndexReadOp = record { aggregated_nodes = nodes; index_query_result = r } in
      let there : find? key (put key op table) ≡ some op =
        find?-put key key op table ∙ ground arith in
      let more = aggregate_more node x table op w.same_key u (omega (arith, e)) in
      subst (IsJoined (onto ((node', y) ∷ xs) seen))
        (sym (
          ap (λ t. elim t.1 [ some joined ↦ t | none ↦ aggregate_all n ((node', y) ∷ xs) t.0 ])
            more))
        (go xs (node' ∷ nodes) (merge r y) ((node', y) ∷ seen) node' y (put key op table)
          (update_op_next node' y nodes r (put key op table) there fresh.0) all.0
          (merge-IsResult key backward r y v all.0)
          (merge-IsClosest key backward r node' y seen v all.0 c) (omega (arith, e)) fresh.1 all.1)

  -- When as many different nodes as there are index shards answer a read, in any order, all calls but
  -- the last give nothing, and the last gives one of the results than which none is closer, and forgets
  -- the read.
  pub aggregate_all-IsJoined :
      (node : ℕ) (x : IndexQueryResult) (xs : List (ℕ × IndexQueryResult))
      (table : List (ℕ × IndexReadOp))
      → find? key table ≡ none
      → length xs + 1 ≡ n
      → AllFresh [] ((node, x) ∷ xs)
      → AllResults key backward ((node, x) ∷ xs)
      → IsJoined (onto ((node, x) ∷ xs) []) (aggregate_all n ((node, x) ∷ xs) table)
  unfolding update_op elem
  aggregate_all-IsJoined node x xs table absent e fresh all =
      go xs (node ∷ []) x ((node, x) ∷ []) node x table (simp (absent, update_op)) all.0 all.0
        (inl refl, (Closer-refl key backward x all.0, tt)) (omega (arith, e)) fresh.1 all.1
