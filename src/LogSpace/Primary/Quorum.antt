-- ===== src/LogSpace/Primary/Quorum.antt =====
-- `UpdateReplicaProgress` and `UpdateMetaLogReplicatedPosition` of src/log/log_space.cpp: the
-- replicated position is held by a majority of the sequencers.
use ixe.Prelude.{
  dec_lt, ltb→lt, ℕ_discrete, ℕ, zero, suc, ◌+◌, ◌*◌, ◌/◌, ◌≤◌, ◌<◌, ◌≡◌, ◌≢◌, refl, sym, subst, ap,
  ◌∙◌, true, false, List, [], ◌∷◌, elem, arith, some, leb, ltb, ◌==◌, if◌then◌else◌, length,
  get_elem?, ok, inl, inr, Bool-cases,
}
use ixe.Prelude.Maps.{find?, contains, put, contains-put}
use ixe.LogSpace.Primary.{
  Primary, sorted_insert, sort, values, is_empty, update_meta_log_replicated_position, progress_of,
  accept_replica_progress, update_replica_progress,
}

-- How many of the numbers have got to `x`.
abbrev pub count_from : ℕ → List ℕ → ℕ
count_from x [] = 0
count_from x (y ∷ ys) = let rest = count_from x ys in if leb x y then suc rest else rest

abbrev pub AllUpTo : ℕ → List ℕ → Type 0
AllUpTo top [] = Unit {0}
AllUpTo top (y ∷ ys) = (y ≤ top) × AllUpTo top ys

abbrev Ascending : ℕ → List ℕ → Type 0
Ascending lo [] = Unit {0}
Ascending lo (y ∷ ys) = (lo ≤ y) × Ascending y ys

-- The primary itself and the replicas that have got to the replicated position are more than half
-- of the sequencers.
pub record IsQuorate (position : ℕ) (p : Primary) : Type 0 where
  pub majority :
      length p.metalog_progresses + 1
      < 2 * (1 + count_from p.replicated_metalog_position (values p.metalog_progresses))
  pub bounded : p.replicated_metalog_position ≤ position
  pub reached : AllUpTo position (values p.metalog_progresses)
  pub known :
      (k : ℕ)
      → elem k p.sequencer_node.replica_sequencer_nodes ≡ true
      → contains k p.metalog_progresses ≡ true

-- The primary and the replicas that have got to `n` are more than half of the sequencers.
abbrev pub IsMajority : ℕ → List (ℕ × ℕ) → Type 0
IsMajority n progresses = length progresses + 1 < 2 * (1 + count_from n (values progresses))

-- No position past the replicated one is held by a majority.
abbrev pub IsGreatest : Primary → Type 0
IsGreatest p = (n : ℕ) → IsMajority n p.metalog_progresses → n ≤ p.replicated_metalog_position

length-sorted_insert : (x : ℕ) (l : List ℕ) → length (sorted_insert x l) ≡ suc (length l)
unfolding sorted_insert
length-sorted_insert x [] = refl
length-sorted_insert x (y ∷ ys) = ground (arith, length-sorted_insert x ys)

length-sort : (l : List ℕ) → length (sort l) ≡ length l
unfolding sort
length-sort [] = refl
length-sort (x ∷ xs) = length-sorted_insert x (sort xs) ∙ ap suc (length-sort xs)

count_from-sorted_insert :
    (n x : ℕ) (l : List ℕ) → count_from n (sorted_insert x l) ≡ count_from n (x ∷ l)
unfolding sorted_insert
count_from-sorted_insert n x [] = refl
count_from-sorted_insert n x (y ∷ ys) = ground (arith, count_from-sorted_insert n x ys)

count_from-sort : (n : ℕ) (l : List ℕ) → count_from n (sort l) ≡ count_from n l
unfolding sort
count_from-sort n [] = refl
count_from-sort n (x ∷ xs) =
    count_from-sorted_insert n x (sort xs)
    ∙ ap (λ c. if leb n x then suc c else c) (count_from-sort n xs)

sorted_insert-Ascending :
    (lo x : ℕ) (l : List ℕ) → lo ≤ x → Ascending lo l → Ascending lo (sorted_insert x l)
unfolding sorted_insert
sorted_insert-Ascending lo x [] h v = (h, tt)
sorted_insert-Ascending lo x (y ∷ ys) h v = ground (arith, sorted_insert-Ascending y x ys)

sort-Ascending : (l : List ℕ) → Ascending 0 (sort l)
unfolding sort
sort-Ascending [] = tt
sort-Ascending (x ∷ xs) = sorted_insert-Ascending 0 x (sort xs) (omega arith) (sort-Ascending xs)

count_from-Ascending : (n lo : ℕ) (l : List ℕ) → n ≤ lo → Ascending lo l → count_from n l ≡ length l
count_from-Ascending n lo [] h v = refl
count_from-Ascending n lo (y ∷ ys) h v = ground (arith, count_from-Ascending n y ys)

count_from-le : (n : ℕ) (l : List ℕ) → count_from n l ≤ length l
count_from-le n [] = omega arith
count_from-le n (y ∷ ys) = ground (arith, count_from-le n ys)

-- From the entry at `i` on, all of an ascending list have got to that entry, and before it none are past it.
count_from-entry :
    (l : List ℕ) (lo i v : ℕ)
    → Ascending lo l
    → get_elem? l i ≡ some v
    → length l ≤ i + count_from v l
count_from-entry [] lo i v a h = omega arith
count_from-entry (y ∷ ys) lo zero v a h = ground (arith, count_from-Ascending v y ys)
count_from-entry (y ∷ ys) lo (suc i) v a h = ground (arith, count_from-entry ys y i v)

entry-from : (l : List ℕ) (lo i v : ℕ) → Ascending lo l → get_elem? l i ≡ some v → lo ≤ v
entry-from [] lo i v a h = cc
entry-from (y ∷ ys) lo zero v a h = ground arith
entry-from (y ∷ ys) lo (suc i) v a h = omega (arith, a.0, entry-from ys y i v a.1 h)

entry-below :
    (l : List ℕ) (lo i v n : ℕ)
    → Ascending lo l
    → get_elem? l i ≡ some v
    → v < n
    → i + 1 + count_from n l ≤ length l
entry-below [] lo i v n a h lt = cc
entry-below (y ∷ ys) lo zero v n a h lt = ground (arith, count_from-le n ys)
entry-below (y ∷ ys) lo (suc i) v n a h lt =
    ground (arith, entry-below ys y i v n a.1 h lt, entry-from ys y i v a.1 h)

entry-UpTo : (l : List ℕ) (top i v : ℕ) → AllUpTo top l → get_elem? l i ≡ some v → v ≤ top
entry-UpTo [] top i v a h = cc
entry-UpTo (y ∷ ys) top zero v a h = ground arith
entry-UpTo (y ∷ ys) top (suc i) v a h = entry-UpTo ys top i v a.1 h

sorted_insert-UpTo :
    (top x : ℕ) (l : List ℕ) → x ≤ top → AllUpTo top l → AllUpTo top (sorted_insert x l)
unfolding sorted_insert
sorted_insert-UpTo top x [] h a = (h, tt)
sorted_insert-UpTo top x (y ∷ ys) h a = ground (arith, sorted_insert-UpTo top x ys)

sort-UpTo : (top : ℕ) (l : List ℕ) → AllUpTo top l → AllUpTo top (sort l)
unfolding sort
sort-UpTo top [] a = tt
sort-UpTo top (x ∷ xs) a = sorted_insert-UpTo top x (sort xs) a.0 (sort-UpTo top xs a.1)

count_from-UpTo : (top n : ℕ) (l : List ℕ) → AllUpTo top l → top < n → count_from n l ≡ 0
count_from-UpTo top n [] a h = refl
count_from-UpTo top n (y ∷ ys) a h = ground (arith, count_from-UpTo top n ys a.1 h)

get_elem?-some : (l : List ℕ) (i : ℕ) → i < length l → (v : ℕ) × (get_elem? l i ≡ some v)
get_elem?-some [] i h = absurd (omega arith)
get_elem?-some (y ∷ ys) zero h = (y, refl)
get_elem?-some (y ∷ ys) (suc i) h = get_elem?-some ys i (omega arith)

pub length-values : (m : List (ℕ × ℕ)) → length (values m) ≡ length m
unfolding values
length-values [] = refl
length-values ((k, v) ∷ m) = ap suc (length-values m)

length-put : (k v : ℕ) (m : List (ℕ × ℕ)) → contains k m ≡ true → length (put k v m) ≡ length m
unfolding put contains
length-put k v [] h = cc
length-put k v ((j, w) ∷ m) h = ground (arith, length-put k v m)

count_from-put :
    (n k v : ℕ) (m : List (ℕ × ℕ))
    → progress_of k m < v
    → count_from n (values m) ≤ count_from n (values (put k v m))
unfolding put find? values
count_from-put n k v [] h = omega arith
count_from-put n k v ((j, w) ∷ m) h = ground (arith, count_from-put n k v m)

pub put-UpTo :
    (top k v : ℕ) (m : List (ℕ × ℕ))
    → v ≤ top
    → AllUpTo top (values m)
    → AllUpTo top (values (put k v m))
unfolding put values
put-UpTo top k v [] h a = (h, tt)
put-UpTo top k v ((j, w) ∷ m) h a = ground (arith, put-UpTo top k v m)

length-nonempty : (m : List (ℕ × ℕ)) → m ≢ [] → 0 < length m
length-nonempty [] h = absurd (h refl)
length-nonempty (e ∷ m) h = omega arith

-- The entry in the middle is one that a majority has got to, and it has not gone back.
middle_lem :
    (position : ℕ) (p : Primary)
    → IsQuorate position p
    → p.metalog_progresses ≢ []
    → (v : ℕ) × (get_elem? (sort (values p.metalog_progresses)) (length p.metalog_progresses / 2)
        ≡ some v)
      × IsQuorate position (record p { replicated_metalog_position = v })
      × ((n : ℕ) → IsMajority n p.metalog_progresses → n ≤ v)
middle_lem position p q ne =
    let l = values p.metalog_progresses in
    let i = length p.metalog_progresses / 2 in
    let n : length (sort l) ≡ length p.metalog_progresses =
      length-sort l ∙ length-values p.metalog_progresses in
    let (v, e) =
      get_elem?-some (sort l) i (omega (arith, n, length-nonempty p.metalog_progresses ne)) in
    (
      v,
      e,
      record {
        majority =
            omega
              (arith, n, count_from-sort v l, count_from-entry (sort l) 0 i v (sort-Ascending l) e);
        bounded = entry-UpTo (sort l) position i v (sort-UpTo position l q.reached) e;
        reached = q.reached;
        known = q.known;
      },
      λ x most. elim (dec_lt v x) [
        | yes lt ↦ absurd (
            omega (
              arith,
              n,
              most,
              count_from-sort x l,
              entry-below (sort l) 0 i v x (sort-Ascending l) e lt,
            ))
        | no ge ↦ omega arith
      ],
    )

is_empty-false : (m : List (ℕ × ℕ)) → m ≢ [] → is_empty m ≡ false
is_empty-false [] h = absurd (h refl)
is_empty-false (e ∷ m) h = refl

update_runs :
    (position v : ℕ) (p : Primary)
    → p.replicated_metalog_position ≢ position
    → p.metalog_progresses ≢ []
    → get_elem? (sort (values p.metalog_progresses)) (length p.metalog_progresses / 2) ≡ some v
    → update_meta_log_replicated_position position p
      ≡ ok (record p { replicated_metalog_position = v })
unfolding update_meta_log_replicated_position
update_runs position v p ne full e =
    let other : (p.replicated_metalog_position == position) ≡ false = ground arith in
    rw (other, is_empty-false p.metalog_progresses full, e) refl

update_meta_log_replicated_position_lem :
    (position : ℕ) (p : Primary)
    → IsQuorate position p
    → p.metalog_progresses ≢ []
    → (q : Primary) × (update_meta_log_replicated_position position p ≡ ok q)
      × IsQuorate position q
      × IsGreatest q
      × (q ≡ record p { replicated_metalog_position = q.replicated_metalog_position })
unfolding update_meta_log_replicated_position
update_meta_log_replicated_position_lem position p q full =
    elim (ℕ_discrete p.replicated_metalog_position position) [
      | yes same ↦ (
        p,
        ground arith,
        q,
        λ n most. elim (dec_lt position n) [
          | yes past ↦ absurd (
              omega (
                arith,
                most,
                length-nonempty p.metalog_progresses full,
                count_from-UpTo position n (values p.metalog_progresses) q.reached past,
              ))
          | no within ↦ omega arith
        ],
        refl,
      )
      | no ne ↦
          let (v, e, w, top) = middle_lem position p q full in
          (
            record p { replicated_metalog_position = v },
            update_runs position v p ne full e,
            w,
            top,
            refl,
          )
    ]

put-nonempty : (k v : ℕ) (m : List (ℕ × ℕ)) → put k v m ≢ []
unfolding put
put-nonempty k v [] h = cc
put-nonempty k v ((j, w) ∷ m) h = ground arith

put-IsQuorate :
    (position k v : ℕ) (p : Primary)
    → IsQuorate position p
    → contains k p.metalog_progresses ≡ true
    → v ≤ position
    → progress_of k p.metalog_progresses < v
    → IsQuorate position (record p { metalog_progresses = put k v p.metalog_progresses })
put-IsQuorate position k v p q known le lt = record {
  majority = omega (
    arith,
    q.majority,
    length-put k v p.metalog_progresses known,
    count_from-put p.replicated_metalog_position k v p.metalog_progresses lt,
  );
  bounded = q.bounded;
  reached = put-UpTo position k v p.metalog_progresses le q.reached;
  known = λ j h. ground (arith, q.known j h, contains-put k j v p.metalog_progresses);
}

-- A replica may report any position that the primary has reached. A report that is not past what the
-- primary knows of the replica changes nothing. Any other is taken: it becomes what is known of the
-- replica, and then the replicated position is the greatest that more than half of the sequencers have
-- got to, the primary counted, and nothing else changes. In both cases the replicated position is held
-- by a majority, has not gone back, and is not past the position of the primary.
pub update_replica_progress_lem :
    (position k v : ℕ) (p : Primary)
    → IsQuorate position p
    → elem k p.sequencer_node.replica_sequencer_nodes ≡ true
    → v ≤ position
    → (q : Primary) × (update_replica_progress position k v p ≡ ok q)
      × IsQuorate position q
      × (p.replicated_metalog_position ≤ q.replicated_metalog_position)
      × (v ≤ progress_of k p.metalog_progresses → q ≡ p)
      × (progress_of k p.metalog_progresses < v
          → IsGreatest q
            × (q ≡ record p {
              metalog_progresses = put k v p.metalog_progresses;
              replicated_metalog_position = q.replicated_metalog_position;
            }))
unfolding update_replica_progress accept_replica_progress
update_replica_progress_lem position k v p q replica le =
    let taken : leb v position ≡ true = ground arith in
    elim (Bool-cases (ltb (progress_of k p.metalog_progresses) v)) [
      | inr old ↦
          (p, rw (replica, taken, old) refl, q, omega arith, λ h. refl, λ h. absurd (ground arith))
      | inl new ↦
          let p' = record p { metalog_progresses = put k v p.metalog_progresses } in
          let up = ltb→lt (progress_of k p.metalog_progresses) v new in
          let q' = put-IsQuorate position k v p q (q.known k replica) le up in
          let (r, e, w, top, same) =
            update_meta_log_replicated_position_lem position p' q'
              (put-nonempty k v p.metalog_progresses) in
          let known = ap (λ (x : Primary). x.metalog_progresses) same in
          (
            r,
            rw (replica, taken, new) e,
            w,
            top p.replicated_metalog_position
                (subst (IsMajority p.replicated_metalog_position) (sym known) q'.majority),
            λ h. absurd (omega (arith, up)),
            λ h. (top, same),
          )
    ]
