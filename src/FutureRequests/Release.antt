-- ===== src/FutureRequests/Release.antt =====
-- What `FutureRequests` (src/log/utils.cpp) releases when a view comes.
use ixe.Prelude.{
  ℕ, ◌+◌, ◌^◌, ◌≤◌, ◌<◌, ◌≡◌, refl, sym, ap, ◌∙◌, true, false, List, [], ◌∷◌, ◌++◌, append-nil,
  arith, length, ltb, ◌==◌, if◌then◌else◌, inl, inr, Outcome, ok, ◌>>=◌, Bool-cases, Option-cases,
}
use ixe.Prelude.Maps.{find?, put, erase, find?-put, find?-erase}
use ixe.FutureRequests.{
  FutureRequests, new_future_requests, next_view, on_new_view, held_for, on_hold_request,
}

module _ {ℓ} (Request : Type ℓ) where
  -- What happens to the requests of a node, in order.
  pub data Event : Type ℓ where
    hold : ℕ → Request → Event
    view : ℕ → Event

  -- The requests held for a view, oldest first.
  unfoldable pub held : ℕ → List Event → List Request
  held v [] = []
  held v (hold w r ∷ es) = let rest = held v es in if w == v then r ∷ rest else rest
  held v (view w ∷ es) = held v es

  -- The views come one by one, and no request is for a view that has come.
  abbrev pub InOrder : ℕ → List Event → Type 0
  InOrder n [] = Unit {0}
  InOrder n (hold v r ∷ es) = (n ≤ v) × InOrder n es
  InOrder n (view v ∷ es) = (v ≡ n) × InOrder (n + 1) es

  -- With each view, the requests held for it before.
  unfoldable pub releases : List Event → List Event → List (ℕ × List Request)
  releases before [] = []
  releases before (hold v r ∷ es) = releases (before ++ hold v r ∷ []) es
  releases before (view v ∷ es) = (v, held v before) ∷ releases (before ++ view v ∷ []) es

  -- The calls of the code, with what each new view releases.
  unfoldable pub run : List Event → FutureRequests Request → Outcome (List (ℕ × List Request))
  run [] s = ok []
  run (hold v r ∷ es) s = on_hold_request Request v r s >>= λ s'. run es s'
  run (view v ∷ es) s =
      on_new_view Request v true s >>= λ t. run es t.0 >>= λ rest. ok ((v, t.1) ∷ rest)

  held-append : (v : ℕ) (xs ys : List Event) → held v (xs ++ ys) ≡ held v xs ++ held v ys
  unfolding held
  held-append v [] ys = refl
  held-append v (hold w r ∷ xs) ys = ground (arith, held-append v xs ys)
  held-append v (view w ∷ xs) ys = held-append v xs ys

  held-append_view : (v w : ℕ) (xs : List Event) → held w (xs ++ view v ∷ []) ≡ held w xs
  unfolding held
  held-append_view v w xs = held-append w xs (view v ∷ []) ∙ append-nil (held w xs)

  held_for-put :
      (v w : ℕ) (l : List Request) (m : List (ℕ × List Request))
      → held_for Request w (put v l m) ≡ (if v == w then l else held_for Request w m)
  held_for-put v w l m = elim (Bool-cases (v == w)) [
    | inl e ↦ simp (held_for, find?-put v w l m, e)
    | inr e ↦ simp (held_for, find?-put v w l m, e)
  ]

  held_for-erase :
      (v w : ℕ) (m : List (ℕ × List Request))
      → v < w
      → held_for Request w (erase v m) ≡ held_for Request w m
  held_for-erase v w m h =
      let other : (v == w) ≡ false = ground (arith, h) in simp (held_for, find?-erase v w m, other)

  -- The requests on hold are those for the views to come.
  pub record Holds (before : List Event) (n : ℕ) (s : FutureRequests Request) : Type ℓ where
    pub next : s.next_view_id ≡ n
    pub all : (v : ℕ) → n ≤ v → held_for Request v s.onhold_requests ≡ held v before

  hold-Holds :
      (v : ℕ) (r : Request) (before : List Event) (n : ℕ) (s : FutureRequests Request)
      → n ≤ v
      → Holds before n s
      → (s' : FutureRequests Request) × (on_hold_request Request v r s ≡ ok s')
        × Holds (before ++ hold v r ∷ []) n s'
  unfolding on_hold_request held
  hold-Holds v r before n s h u =
      let late : ltb v s.next_view_id ≡ false = ground (arith, u.next) in
      let l = held_for Request v s.onhold_requests ++ r ∷ [] in
      (
        record s { onhold_requests = put v l s.onhold_requests },
        rw (late, on_hold_request) refl,
        record {
          next = u.next;
          all = λ w le. elim (Bool-cases (v == w)) [
            | inl same ↦
                let e : v ≡ w = ground arith in
                held_for-put v w l s.onhold_requests
                ∙ rw same (
                    ap (λ xs. xs ++ r ∷ []) (u.all v h)
                    ∙ ap (λ i. held i before ++ r ∷ []) e
                    ∙ sym (held-append w before (hold v r ∷ []) ∙ rw same refl))
            | inr other ↦
                held_for-put v w l s.onhold_requests
                ∙ rw other (
                    u.all w le
                    ∙ sym (
                        held-append w before (hold v r ∷ [])
                        ∙ rw other (append-nil (held w before))))
          ];
        },
      )

  view-Holds :
      (v : ℕ) (before : List Event) (n : ℕ) (s : FutureRequests Request)
      → v ≡ n
      → n + 1 < 2 ^ 16
      → Holds before n s
      → (s' : FutureRequests Request) × (on_new_view Request v true s ≡ ok (s', held v before))
        × Holds (before ++ view v ∷ []) (n + 1) s'
  unfolding on_new_view held
  view-Holds v before n s e b u =
      let here : (v == s.next_view_id) ≡ true = ground (arith, u.next, e) in
      let ready = u.all v (omega (arith, e)) in
      elim (Option-cases (find? v s.onhold_requests)) [
        | inl absent ↦
            let none_held : [] ≡ held v before = rw (absent, held_for) at ready in
            (
              next_view Request s,
              simp (on_new_view, here, absent, none_held),
              record {
                next = omega (arith, u.next);
                all = λ w le. u.all w (omega arith) ∙ sym (held-append_view v w before);
              },
            )
        | inr (l, there) ↦
            let all_held : l ≡ held v before = rw (there, held_for) at ready in
            (
              next_view Request (record s { onhold_requests = erase v s.onhold_requests }),
              simp (on_new_view, here, there, all_held),
              record {
                next = omega (arith, u.next);
                all = λ w le.
                    held_for-erase v w s.onhold_requests (omega (arith, e))
                    ∙ u.all w (omega arith)
                    ∙ sym (held-append_view v w before);
              },
            )
      ]

  run-releases :
      (es before : List Event) (n : ℕ) (s : FutureRequests Request)
      → InOrder n es
      → n + length es < 2 ^ 16
      → Holds before n s
      → run es s ≡ ok (releases before es)
  unfolding run releases
  run-releases [] before n s o b u = refl
  run-releases (hold v r ∷ es) before n s o b u =
      let (s', runs, u') = hold-Holds v r before n s o.0 u in
      rw (runs, run) (run-releases es (before ++ hold v r ∷ []) n s' o.1 (omega arith) u')
  run-releases (view v ∷ es) before n s o b u =
      let (s', runs, u') = view-Holds v before n s o.0 (omega arith) u in
      rw (runs, run)
        (rw (run-releases es (before ++ view v ∷ []) (n + 1) s' o.1 (omega arith) u', run) refl)

  -- When the views come one by one and no request is for a view that has come, no call fails, and each
  -- view releases exactly the requests that were held for it, each once and in the order in which they
  -- came.
  pub run_lem :
      (es : List Event)
      → InOrder 0 es
      → length es < 2 ^ 16
      → run es (new_future_requests Request) ≡ ok (releases [] es)
  unfolding find? held
  run_lem es o b =
      run-releases es [] 0 (new_future_requests Request) o (omega arith)
        (record { next = refl; all = λ v h. refl })
