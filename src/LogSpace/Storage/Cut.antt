-- ===== src/LogSpace/Storage/Cut.antt =====
-- A cut applied to the live records of a `LogStorage` (`OnNewLogs` of src/log/log_space.cpp), and
-- what is handed over for persistence.
use ixe.Prelude.{
  ℕ, zero, suc, ◌+◌, ◌%◌, ◌^◌, ◌≤◌, ◌<◌, ◌≡◌, refl, sym, ap, ◌∙◌, List, [], ◌∷◌, arith, ok,
  >>=-eq-ok, some, none, ok-injective, at_or_fatal, subst, subst₂, dec_lt,
}
use ixe.Prelude.Maps.{find?, find?-contains}
use ixe.Protocol.{SharedLogMessage, LogEntry}
use ixe.LogSpace.Base.{Core}
use ixe.LogSpace.Storage.{
  Storage, make_live, stamp, expire_reads, answer_reads, finalize_entry, finalize_entries,
  push_read, read_failed, read_ok, storage_on_new_logs,
}
use ixe.LogSpace.Storage.Live.{IsLive, Live, make_live_lem, elem_above}

-- The part of the state that reads leave alone.
abbrev live_part : Storage → List ℕ × List (ℕ × LogEntry) × ℕ
live_part s = (s.live_seqnums, s.live_log_entries, s.persisted_seqnum_position)

expire_reads-live_part :
    (start : ℕ) (reads : List (ℕ × SharedLogMessage)) (s : Storage)
    → live_part (expire_reads start reads s) ≡ live_part s
unfolding expire_reads
expire_reads-live_part start [] s = refl
expire_reads-live_part start ((k, r) ∷ rest) s =
    ground (arith, expire_reads-live_part start rest (push_read read_failed none r s))

answer_reads-live_part :
    (seqnum : ℕ) (e : LogEntry) (reads : List (ℕ × SharedLogMessage)) (s : Storage)
    → live_part (answer_reads seqnum e reads s) ≡ live_part s
unfolding answer_reads
answer_reads-live_part seqnum e [] s = refl
answer_reads-live_part seqnum e ((k, r) ∷ rest) s =
    ground (arith, answer_reads-live_part seqnum e rest (push_read read_ok (some e) r s))

-- No record that is not persisted is lost between two states, and the live records stay in order.
pub record Retained (hi : ℕ) (s s' : Storage) : Type 0 where
  pub live : Live hi s'
  pub persisted : s'.persisted_seqnum_position ≡ s.persisted_seqnum_position
  pub kept :
      (k : ℕ) (e : LogEntry)
      → s.persisted_seqnum_position ≤ k
      → find? k s.live_log_entries ≡ some e
      → find? k s'.live_log_entries ≡ some e

fresh_number :
    (hi k : ℕ) (e : LogEntry) (s : Storage)
    → Live hi s
    → find? k s.live_log_entries ≡ some e
    → k < hi
fresh_number hi k e s v f = elim (dec_lt k hi) [
  | yes h ↦ h
  | no h ↦ absurd (
      ground (
        arith,
        find?-contains k s.live_log_entries e f,
        v.same k,
        elem_above 0 hi k s.live_seqnums v.ordered,
      ))
]

make_live-Retained :
    (max_size hi localid : ℕ) (e : LogEntry) (s : Storage)
    → e.metadata.seqnum ≡ hi
    → Live hi s
    → Retained (hi + 1) s (make_live max_size hi localid e s)
make_live-Retained max_size hi localid e s q v =
    let (live, persisted, found) = make_live_lem max_size hi localid e s q v in
    record {
      live = live;
      persisted = persisted;
      kept = λ k x p f. found k p ∙ ground (arith, f, fresh_number hi k x s v f);
    }

-- Reads change none of this.
Retained-live_part :
    (hi : ℕ) (s t u : Storage) → live_part u ≡ live_part t → Retained hi s t → Retained hi s u
Retained-live_part hi s t u e r =
    let ks = ap (λ p. p.0) e in
    let entries = ap (λ p. p.1) e in
    record {
      live = subst₂ (IsLive hi) (sym ks) (sym entries) r.live;
      persisted = ap (λ p. p.2) e ∙ r.persisted;
      kept = λ k x p f. ap (find? k) entries ∙ r.kept k x p f;
    }

Retained-trans : (lo hi : ℕ) (s t u : Storage) → Retained lo s t → Retained hi t u → Retained hi s u
Retained-trans lo hi s t u a b = record {
  live = b.live;
  persisted = b.persisted ∙ a.persisted;
  kept = λ k x p f. b.kept k x (omega (arith, a.persisted)) (a.kept k x p f);
}

finalize_entry-Retained :
    (max_size hi localid : ℕ) (s s' : Storage)
    → finalize_entry max_size hi localid s ≡ ok s'
    → Live hi s
    → Retained (hi + 1) s s'
unfolding finalize_entry
finalize_entry-Retained max_size hi localid s s' e v =
    let (entry, found, f) = >>=-eq-ok (at_or_fatal (find? localid s.pending_log_entries)) _ e in
    let x = stamp hi entry in
    let t = make_live max_size hi localid x s in
    Retained-live_part (hi + 1) s t s'
      (ap live_part (sym (ok-injective _ s' f))
        ∙ answer_reads-live_part hi x t.pending_read_requests t)
      (make_live-Retained max_size hi localid x s refl v)

finalize_entries-Retained :
    (max_size n hi localid : ℕ) (s s' : Storage)
    → hi + n < 2 ^ 64
    → finalize_entries max_size hi localid n s ≡ ok s'
    → Live hi s
    → Retained (hi + n) s s'
unfolding finalize_entries
finalize_entries-Retained max_size zero hi localid s s' b e v =
    let same : s ≡ s' = ok-injective s s' e in
    subst (Retained (hi + 0) s) same (record {
      live = subst (λ i. Live i s) (omega arith) v;
      persisted = refl;
      kept = λ k x p f. f;
    })
finalize_entries-Retained max_size (suc n) hi localid s s' b e v =
    let (t, e₁, f) = >>=-eq-ok (finalize_entry max_size hi localid s) _ e in
    let r = finalize_entry-Retained max_size hi localid s t e₁ v in
    let next : (hi + 1) % 2 ^ 64 ≡ hi + 1 = omega arith in
    let r' =
      finalize_entries-Retained max_size n (hi + 1) ((localid + 1) % 2 ^ 64) t s' (omega arith)
        (ap (λ i. finalize_entries max_size i ((localid + 1) % 2 ^ 64) n t) (sym next) ∙ f)
        r.live in
    subst (λ i. Retained i s s') (omega arith) (Retained-trans (hi + 1) (hi + 1 + n) s t s' r r')

-- Applying a cut keeps the live records in rising order, all below the end of the cut, and drops no
-- record that was live before and is not persisted.
pub storage_on_new_logs-Retained :
    (max_size metalog_seqnum start_seqnum start_localid delta shard : ℕ) (c : Core Storage)
    (s' : Storage)
    → start_seqnum + delta < 2 ^ 64
    → storage_on_new_logs max_size c metalog_seqnum start_seqnum start_localid delta shard ≡ ok s'
    → Live start_seqnum c.derived
    → Retained (start_seqnum + delta) c.derived s'
unfolding storage_on_new_logs
storage_on_new_logs-Retained max_size metalog_seqnum start_seqnum start_localid delta shard c s' b e
      v =
    let s = c.derived in
    let t = expire_reads start_seqnum s.pending_read_requests s in
    let (u, e₁, f) = >>=-eq-ok (finalize_entries max_size start_seqnum start_localid delta t) _ e in
    let same = expire_reads-live_part start_seqnum s.pending_read_requests s in
    let r₀ : Retained start_seqnum s t =
      Retained-live_part start_seqnum s s t same
        (record { live = v; persisted = refl; kept = λ k x p g. g }) in
    let r =
      Retained-trans start_seqnum (start_seqnum + delta) s t u r₀
        (finalize_entries-Retained max_size delta start_seqnum start_localid t u b e₁ r₀.live) in
    Retained-live_part (start_seqnum + delta) s u s' (ap live_part (sym (ok-injective _ s' f))) r
