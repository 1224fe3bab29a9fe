-- ===== src/LogSpace/Storage/Reads.antt =====
-- The reads that wait in a `LogStorage` (src/log/log_space.cpp) while a cut is applied.
use ixe.Prelude.{
  ℕ, zero, suc, ◌+◌, ◌^◌, ◌≤◌, ◌<◌, ◌≡◌, refl, sym, ap, ◌∙◌, true, false, List, [], ◌∷◌, ◌++◌,
  append-nil, append_assoc, arith, ltb, ◌==◌, if◌then◌else◌, ok, none, some, inl, inr, subst, ap₂,
  Bool-cases,
}
use ixe.Prelude.Maps.{find?, find?-erase, contains, erase, contains-find?, contains-erase}
use ixe.Protocol.{SharedLogMessage, LogEntry}
use ixe.LogSpace.Base.{Core}
use ixe.LogSpace.Storage.{
  Storage, ReadResult, read_ok, read_failed, shrink_live_entries_if_needed, expire_reads,
  answer_reads, finalize_entry, make_live, stamp, finalize_entries, storage_on_new_logs,
}

abbrev pub Reads : Type 0
Reads = List (ℕ × SharedLogMessage)

-- The waiting reads up to the first that is not below `bound`, and from there on.
pub take_below : ℕ → Reads → Reads
take_below bound [] = []
take_below bound ((k, r) ∷ rest) = if ltb k bound then (k, r) ∷ take_below bound rest else []

pub drop_below : ℕ → Reads → Reads
drop_below bound [] = []
drop_below bound ((k, r) ∷ rest) = if ltb k bound then drop_below bound rest else (k, r) ∷ rest

pub failures : Reads → List ReadResult
failures [] = []
failures ((k, r) ∷ rest) =
    record { status = read_failed; log_entry = none; original_request = r } ∷ failures rest

shift : (a b : ℕ) → a + 1 + b ≡ a + suc b
shift a b = omega arith

-- The record that a cut gives the sequence number `k`, where the record `localid` of `entries` gets
-- `seqnum` and the others follow: it has the number, and is else as it was stored.
abbrev pub IsRecordOf : List (ℕ × LogEntry) → ℕ → ℕ → ℕ → LogEntry → Type 0
IsRecordOf entries seqnum localid k e =
    (i : ℕ) × (stored : LogEntry) × (k ≡ seqnum + i)
    × (find? (localid + i) entries ≡ some stored)
    × (e ≡ record stored { metadata = record stored.metadata { seqnum = k } })

-- Each read got the record of the sequence number that it asked for.
abbrev pub Answers : (ℕ → LogEntry → Type 0) → Reads → List ReadResult → Type 0
Answers IsRecord [] [] = Unit {0}
Answers IsRecord [] (x ∷ xs) = ⊥
Answers IsRecord ((k, r) ∷ rest) [] = ⊥
Answers IsRecord ((k, r) ∷ rest) (x ∷ xs) =
    (x.status ≡ read_ok)
    × (x.original_request ≡ r)
    × ((e : LogEntry) × (x.log_entry ≡ some e) × IsRecord k e)
    × Answers IsRecord rest xs

Answers-mono :
    (P Q : ℕ → LogEntry → Type 0) (reads : Reads) (xs : List ReadResult)
    → ((k : ℕ) (e : LogEntry) → P k e → Q k e)
    → Answers P reads xs
    → Answers Q reads xs
Answers-mono P Q [] [] f a = tt
Answers-mono P Q [] (x ∷ xs) f a = absurd a
Answers-mono P Q ((k, r) ∷ rest) [] f a = absurd a
Answers-mono P Q ((k, r) ∷ rest) (x ∷ xs) f (ok_status, same, (e, there, p), more) =
    (ok_status, same, (e, there, f k e p), Answers-mono P Q rest xs f more)

-- The records after the first one are found where that one is erased.
IsRecordOf-suc :
    (entries : List (ℕ × LogEntry)) (seqnum localid k : ℕ) (e : LogEntry)
    → IsRecordOf (erase localid entries) (seqnum + 1) (localid + 1) k e
    → IsRecordOf entries seqnum localid k e
IsRecordOf-suc entries seqnum localid k e (i, stored, at, there, same) =
    let other : (localid == localid + 1 + i) ≡ false = ground arith in
    let kept : find? (localid + 1 + i) (erase localid entries) ≡ find? (localid + 1 + i) entries =
      find?-erase localid (localid + 1 + i) entries ∙ rw other refl in
    (
      suc i,
      stored,
      omega (arith, at),
      ap (λ (j : ℕ). find? j entries) (sym (shift localid i)) ∙ sym kept ∙ there,
      same,
    )

-- The reads stand by rising sequence number, all from `lo` on.
abbrev pub From : ℕ → Reads → Type 0
From lo [] = Unit {0}
From lo ((k, r) ∷ rest) = (lo ≤ k) × From k rest

drop_below-From : (lo b : ℕ) (reads : Reads) → From lo reads → From b (drop_below b reads)
unfolding drop_below
drop_below-From lo b [] f = tt
drop_below-From lo b ((k, r) ∷ rest) f = ground (arith, drop_below-From k b rest f.1)

drop_below_twice :
    (a b : ℕ) (reads : Reads) → a ≤ b → drop_below b (drop_below a reads) ≡ drop_below b reads
unfolding drop_below
drop_below_twice a b [] h = refl
drop_below_twice a b ((k, r) ∷ rest) h = ground (arith, drop_below_twice a b rest h)

take_below_twice :
    (a b : ℕ) (reads : Reads)
    → a ≤ b
    → take_below b reads ≡ take_below a reads ++ take_below b (drop_below a reads)
unfolding take_below drop_below
take_below_twice a b [] h = refl
take_below_twice a b ((k, r) ∷ rest) h = ground (arith, take_below_twice a b rest h)

Answers-append :
    (P : ℕ → LogEntry → Type 0) (xs ys : Reads) (us vs : List ReadResult)
    → Answers P xs us
    → Answers P ys vs
    → Answers P (xs ++ ys) (us ++ vs)
Answers-append P [] ys [] vs a b = b
Answers-append P [] ys (u ∷ us) vs a b = absurd a
Answers-append P ((k, r) ∷ xs) ys [] vs a b = absurd a
Answers-append P ((k, r) ∷ xs) ys (u ∷ us) vs a b =
    (a.0, a.1, a.2, Answers-append P xs ys us vs a.3 b)

abbrev with_reads : Storage → Reads → List ReadResult → Storage
with_reads s reads results = record s {
  pending_read_requests = reads;
  pending_read_results = results;
}

expire_reads_lem :
    (start : ℕ) (reads : Reads) (s : Storage)
    → expire_reads start reads s
      ≡ with_reads s
          (drop_below start reads)
          (s.pending_read_results ++ failures (take_below start reads))
unfolding expire_reads take_below drop_below failures
expire_reads_lem start [] s = ap (with_reads s []) (sym (append-nil s.pending_read_results))
expire_reads_lem start ((k, r) ∷ rest) s = elim (Bool-cases (ltb k start)) [
  | inl p ↦ rw p (
      expire_reads_lem start rest _
      ∙ ap (with_reads s (drop_below start rest)) (append_assoc s.pending_read_results _ _))
  | inr p ↦ rw p (ap (with_reads s ((k, r) ∷ rest)) (sym (append-nil s.pending_read_results)))
]

given : LogEntry → Reads → List ReadResult
given e [] = []
given e ((k, r) ∷ rest) =
    record { status = read_ok; log_entry = some e; original_request = r } ∷ given e rest

given-Answers :
    (P : ℕ → LogEntry → Type 0) (e : LogEntry) (seqnum : ℕ) (reads : Reads)
    → P seqnum e
    → From seqnum reads
    → Answers P (take_below (seqnum + 1) reads) (given e (take_below (seqnum + 1) reads))
unfolding take_below given
given-Answers P e seqnum [] q f = tt
given-Answers P e seqnum ((k, r) ∷ rest) q f = elim (Bool-cases (ltb k (seqnum + 1))) [
  | inl p ↦
      let here : k ≡ seqnum = ground arith in
      rw p (
        refl,
        refl,
        (e, refl, subst (λ i. P i e) (sym here) q),
        given-Answers P e seqnum rest q (subst (λ i. From i rest) here f.1),
      )
  | inr p ↦ rw p tt
]

answer_reads_lem :
    (seqnum : ℕ) (e : LogEntry) (reads : Reads) (s : Storage)
    → From seqnum reads
    → answer_reads seqnum e reads s
      ≡ with_reads s
          (drop_below (seqnum + 1) reads)
          (s.pending_read_results ++ given e (take_below (seqnum + 1) reads))
unfolding answer_reads take_below drop_below given
answer_reads_lem seqnum e [] s f = ap (with_reads s []) (sym (append-nil s.pending_read_results))
answer_reads_lem seqnum e ((k, r) ∷ rest) s f = elim (Bool-cases (k == seqnum)) [
  | inl p ↦
      let here : k ≡ seqnum = ground arith in
      let below : ltb k (seqnum + 1) ≡ true = ground arith in
      rw (p, below)
        (answer_reads_lem seqnum e rest _ (subst (λ i. From i rest) here f.1)
          ∙ ap (with_reads s (drop_below (seqnum + 1) rest))
              (append_assoc s.pending_read_results _ _))
  | inr p ↦
      let above : ltb k (seqnum + 1) ≡ false = ground arith in
      rw (p, above) (ap (with_reads s ((k, r) ∷ rest)) (sym (append-nil s.pending_read_results)))
]

drop_below_none : (lo b : ℕ) (reads : Reads) → b ≤ lo → From lo reads → drop_below b reads ≡ reads
unfolding drop_below
drop_below_none lo b [] h f = refl
drop_below_none lo b ((k, r) ∷ rest) h f = ground arith

take_below_none : (lo b : ℕ) (reads : Reads) → b ≤ lo → From lo reads → take_below b reads ≡ []
unfolding take_below
take_below_none lo b [] h f = refl
take_below_none lo b ((k, r) ∷ rest) h f = ground arith

finalize_entry_lem :
    (max_size seqnum localid : ℕ) (s : Storage)
    → From seqnum s.pending_read_requests
    → contains localid s.pending_log_entries ≡ true
    → (s' : Storage) × (xs : List ReadResult) × (finalize_entry max_size seqnum localid s ≡ ok s')
      × (s'.pending_log_entries ≡ erase localid s.pending_log_entries)
      × (s'.pending_read_requests ≡ drop_below (seqnum + 1) s.pending_read_requests)
      × (s'.pending_read_results ≡ s.pending_read_results ++ xs)
      × Answers
          (IsRecordOf s.pending_log_entries seqnum localid)
          (take_below (seqnum + 1) s.pending_read_requests)
          xs
unfolding finalize_entry make_live shrink_live_entries_if_needed
finalize_entry_lem max_size seqnum localid s f h =
    let (entry, found) = contains-find? localid s.pending_log_entries h in
    let e = stamp seqnum entry in
    let t = make_live max_size seqnum localid e s in
    let answered = answer_reads_lem seqnum e s.pending_read_requests t f in
    (
      answer_reads seqnum e s.pending_read_requests t,
      given e (take_below (seqnum + 1) s.pending_read_requests),
      rw found,
      ap (λ (u : Storage). u.pending_log_entries) answered,
      ap (λ (u : Storage). u.pending_read_requests) answered,
      ap (λ (u : Storage). u.pending_read_results) answered,
      given-Answers (IsRecordOf s.pending_log_entries seqnum localid) e seqnum
          s.pending_read_requests
          (
            0,
            entry,
            omega arith,
            ap (λ (i : ℕ). find? i s.pending_log_entries) (omega arith) ∙ found,
            refl,
          )
          f,
    )

finalize_entries_lem :
    (max_size n seqnum localid : ℕ) (s : Storage)
    → seqnum + n < 2 ^ 64
    → localid + n < 2 ^ 64
    → From seqnum s.pending_read_requests
    → ((i : ℕ) → i < n → contains (localid + i) s.pending_log_entries ≡ true)
    → (s' : Storage) × (xs : List ReadResult) × (finalize_entries max_size seqnum localid n s
        ≡ ok s')
      × (s'.pending_read_requests ≡ drop_below (seqnum + n) s.pending_read_requests)
      × (s'.pending_read_results ≡ s.pending_read_results ++ xs)
      × Answers
          (IsRecordOf s.pending_log_entries seqnum localid)
          (take_below (seqnum + n) s.pending_read_requests)
          xs
unfolding finalize_entries
finalize_entries_lem max_size zero seqnum localid s a b f h = (
  s,
  [],
  refl,
  sym (drop_below_none seqnum (seqnum + 0) s.pending_read_requests (omega arith) f),
  sym (append-nil s.pending_read_results),
  rw (take_below_none seqnum (seqnum + 0) s.pending_read_requests (omega arith) f) tt,
)
finalize_entries_lem max_size (suc n) seqnum localid s a b f h =
    let reads = s.pending_read_requests in
    let (t, ys, e, p, r, q, ans) =
      finalize_entry_lem max_size seqnum localid s f
        (ap (λ (i : ℕ). contains i s.pending_log_entries) (omega arith) ∙ h 0 (omega arith)) in
    let f' : From (seqnum + 1) t.pending_read_requests =
      rw r (drop_below-From seqnum (seqnum + 1) reads f) in
    let h' : (i : ℕ) → i < n → contains (localid + 1 + i) t.pending_log_entries ≡ true = λ i below.
      ap (contains (localid + 1 + i)) p
      ∙ contains-erase localid (localid + 1 + i) s.pending_log_entries
      ∙ ground (
        arith,
        h (suc i) (omega arith),
        ap (λ (k : ℕ). contains k s.pending_log_entries) (shift localid i),
      ) in
    let (t', zs, e', r', q', ans') =
      finalize_entries_lem max_size n (seqnum + 1) (localid + 1) t (omega arith) (omega arith) f'
        h' in
    (
      t',
      ys ++ zs,
      rw e (ap₂ (λ k l. finalize_entries max_size k l n t) (omega arith) (omega arith) ∙ e'),
      r'
          ∙ ap (drop_below (seqnum + 1 + n)) r
          ∙ drop_below_twice (seqnum + 1) (seqnum + 1 + n) reads (omega arith)
          ∙ ap (λ (k : ℕ). drop_below k reads) (shift seqnum n),
      rw (q', q) (append_assoc s.pending_read_results ys zs),
      subst (λ z. Answers (IsRecordOf s.pending_log_entries seqnum localid) z (ys ++ zs))
          (sym (take_below_twice (seqnum + 1) (seqnum + 1 + n) reads (omega arith))
            ∙ ap (λ (k : ℕ). take_below k reads) (shift seqnum n))
          (Answers-append (IsRecordOf s.pending_log_entries seqnum localid)
            (take_below (seqnum + 1) reads) _ ys zs ans
            (Answers-mono _ _ (take_below (seqnum + 1 + n) (drop_below (seqnum + 1) reads)) zs
              (IsRecordOf-suc s.pending_log_entries seqnum localid)
              (subst
                (λ m.
                  Answers (IsRecordOf m (seqnum + 1) (localid + 1))
                    (take_below (seqnum + 1 + n) (drop_below (seqnum + 1) reads)) zs)
                p
                (subst
                  (λ z.
                    Answers (IsRecordOf t.pending_log_entries (seqnum + 1) (localid + 1))
                      (take_below (seqnum + 1 + n) z) zs)
                  r ans')))),
    )

-- A cut of `delta` records whose entries are all there is applied, and settles the waiting reads: those
-- below the cut fail; each in the cut gets, in order, the stored record whose place in the shard is that
-- of the sequence number in the cut, with the sequence number as the only change; and the reads beyond
-- it go on waiting.
pub storage_on_new_logs_reads :
    (max_size metalog_seqnum start_seqnum start_localid delta shard lo : ℕ) (c : Core Storage)
    → start_seqnum + delta < 2 ^ 64
    → start_localid + delta < 2 ^ 64
    → From lo c.derived.pending_read_requests
    → ((i : ℕ) → i < delta → contains (start_localid + i) c.derived.pending_log_entries ≡ true)
    → (s' : Storage) × (xs : List ReadResult) × (storage_on_new_logs max_size c metalog_seqnum
          start_seqnum start_localid delta shard
        ≡ ok s')
      × (s'.pending_read_requests
          ≡ drop_below (start_seqnum + delta) c.derived.pending_read_requests)
      × (s'.pending_read_results
          ≡ c.derived.pending_read_results
            ++ (failures (take_below start_seqnum c.derived.pending_read_requests) ++ xs))
      × Answers
          (IsRecordOf c.derived.pending_log_entries start_seqnum start_localid)
          (take_below
            (start_seqnum + delta)
            (drop_below start_seqnum c.derived.pending_read_requests))
          xs
unfolding storage_on_new_logs
storage_on_new_logs_reads max_size metalog_seqnum start_seqnum start_localid delta shard lo c a b f
      h =
    let s = c.derived in
    let reads = s.pending_read_requests in
    let t =
      with_reads s (drop_below start_seqnum reads)
        (s.pending_read_results ++ failures (take_below start_seqnum reads)) in
    let (t', xs, e, r, q, ans) =
      finalize_entries_lem max_size delta start_seqnum start_localid t a b
        (drop_below-From lo start_seqnum reads f) h in
    let d = t'.index_data in
    (
      record t' {
        index_data = record d {
          my_productive_storage_shards = d.my_productive_storage_shards ++ shard ∷ [];
        };
      },
      xs,
      rw (expire_reads_lem start_seqnum reads s, e),
      r ∙ drop_below_twice start_seqnum (start_seqnum + delta) reads (omega arith),
      q ∙ append_assoc s.pending_read_results _ xs,
      ans,
    )
