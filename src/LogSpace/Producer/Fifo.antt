-- ===== src/LogSpace/Producer/Fifo.antt =====
-- The appends of a `LogProducer` (src/log/log_space.cpp) as a first-in first-out queue.
use ixe.Prelude.{
  ℕ, suc, ◌+◌, ◌^◌, ◌≤◌, ◌<◌, ◌≡◌, refl, ap, ap₂, sym, ◌∙◌, List, [], ◌∷◌, ◌++◌, arith, length,
  length-append, ok, some, none, append_assoc, append-nil,
}
use ixe.Prelude.Maps.{find?, put, erase}
use ixe.LogSpace.Base.{Core}
use ixe.LogSpace.Producer.{Producer, AppendResult, local_append, complete_appends}

module _ {ℓ} {D : Type ℓ} where
  -- The callers `xs` under consecutive localids from `l` on.
  abbrev pub numbered : ℕ → List D → List (ℕ × D)
  numbered l [] = []
  numbered l (x ∷ xs) = (l, x) ∷ numbered (l + 1) xs

  -- Their results under consecutive sequence numbers.
  abbrev pub assigned : ℕ → ℕ → ℕ → List D → List (AppendResult D)
  assigned progress seqnum l [] = []
  assigned progress seqnum l (x ∷ xs) =
      record { seqnum = seqnum; localid = l; metalog_progress = progress; caller_data = x }
      ∷ assigned progress (seqnum + 1) (l + 1) xs

  -- A producer that holds the queue `xs`, its oldest entry under localid `l`.
  pub record Holds (l : ℕ) (xs : List D) (p : Producer D) : Type ℓ where
    pub pending : p.pending_appends ≡ numbered l xs
    pub next : p.next_localid ≡ l + length xs

  erase-numbered : (k l : ℕ) (xs : List D) → k < l → erase k (numbered l xs) ≡ numbered l xs
  unfolding erase
  erase-numbered k l [] h = refl
  erase-numbered k l (x ∷ xs) h = ground (arith, erase-numbered k (l + 1) xs)

  find?-numbered :
      (l : ℕ) (xs : List D) (k : ℕ) → l + length xs ≤ k → find? k (numbered l xs) ≡ none
  unfolding find?
  find?-numbered l [] k h = refl
  find?-numbered l (x ∷ xs) k h = ground (arith, find?-numbered (l + 1) xs k)

  put-numbered :
      (l : ℕ) (x : D) (xs : List D) (k : ℕ)
      → k ≡ l + length xs
      → put k x (numbered l xs) ≡ numbered l (xs ++ x ∷ [])
  unfolding put
  put-numbered l x [] k e = ground arith
  put-numbered l x (y ∷ xs) k e = ground (arith, put-numbered (l + 1) x xs k)

  -- `LocalAppend` puts the caller at the end of the queue, under a localid that no waiting append
  -- has.
  pub local_append_refines :
      (l : ℕ) (xs : List D) (c : Core (Producer D)) (x : D)
      → l + length xs + 1 < 2 ^ 64
      → Holds l xs c.derived
      → Holds l (xs ++ x ∷ []) (local_append x c).0.derived
        × ((local_append x c).1 ≡ l + length xs)
        × (find? (local_append x c).1 c.derived.pending_appends ≡ none)
  unfolding local_append
  local_append_refines l xs c x b v = (
    record {
      pending =
          ap (put c.derived.next_localid x) v.pending
          ∙ put-numbered l x xs c.derived.next_localid v.next;
      next = omega (arith, v.next, length-append xs (x ∷ []));
    },
    v.next,
    ap (find? c.derived.next_localid) v.pending ∙ find?-numbered l xs _ (omega (arith, v.next)),
  )

  -- The state after the oldest append has its result.
  abbrev completed : ℕ → ℕ → ℕ → D → Producer D → Producer D
  completed progress seqnum l x p = record p {
    pending_append_results =
        p.pending_append_results
        ++ record { seqnum = seqnum; localid = l; metalog_progress = progress; caller_data = x }
          ∷ [];
    pending_appends = erase l p.pending_appends;
  }

  complete_one :
      (progress seqnum l n : ℕ) (x : D) (p : Producer D)
      → seqnum + 1 < 2 ^ 64
      → l + 1 < 2 ^ 64
      → find? l p.pending_appends ≡ some x
      → complete_appends progress seqnum l (suc n) p
        ≡ complete_appends progress (seqnum + 1) (l + 1) n (completed progress seqnum l x p)
  unfolding complete_appends
  complete_one progress seqnum l n x p a b e = rw e (
      ap₂ (λ s i. complete_appends progress s i n (completed progress seqnum l x p)) (omega arith)
        (omega arith))

  -- A cut of the oldest `length xs` appends hands each its sequence number, in the order of the
  -- appends, and leaves the others waiting.
  pub complete_appends_refines :
      (progress seqnum l : ℕ) (xs ys : List D) (p : Producer D)
      → seqnum + length xs < 2 ^ 64
      → l + length (xs ++ ys) < 2 ^ 64
      → Holds l (xs ++ ys) p
      → (q : Producer D) × (complete_appends progress seqnum l (length xs) p ≡ ok q)
        × Holds (l + length xs) ys q
        × (q.pending_append_results ≡ p.pending_append_results ++ assigned progress seqnum l xs)
  unfolding complete_appends find? erase
  complete_appends_refines progress seqnum l [] ys p a b v = (
    p,
    refl,
    record {
      pending = v.pending ∙ ap (λ i. numbered i ys) (omega arith);
      next = omega (arith, v.next);
    },
    sym (append-nil p.pending_append_results),
  )
  complete_appends_refines progress seqnum l (x ∷ xs) ys p a b v =
      let first : find? l p.pending_appends ≡ some x = ap (find? l) v.pending ∙ ground arith in
      let p' = completed progress seqnum l x p in
      let tail : erase l p.pending_appends ≡ numbered (l + 1) (xs ++ ys) =
        ap (erase l) v.pending ∙ ground (arith, erase-numbered l (l + 1) (xs ++ ys)) in
      let (q, e, w, r) =
        complete_appends_refines progress (seqnum + 1) (l + 1) xs ys p' (omega arith) (omega arith)
          (record { pending = tail; next = omega (arith, v.next) }) in
      (
        q,
        complete_one progress seqnum l (length xs) x p (omega arith) (omega arith) first ∙ e,
        record {
          pending = w.pending ∙ ap (λ i. numbered i ys) (omega arith);
          next = omega (arith, w.next);
        },
        r ∙ append_assoc p.pending_append_results _ _,
      )
