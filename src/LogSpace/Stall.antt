-- ===== src/LogSpace/Stall.antt =====
-- A `TRIM` in the modes that ignore it (`ProvideMetaLog` of src/log/log_space_base.cpp).
use ixe.Prelude.{
  ℕ, ◌<◌, ◌≡◌, refl, sym, ap, ◌∙◌, subst, inl, inr, Bool, true, false, ◌&&◌, not, List, [], ◌∷◌,
  arith, ltb, ◌==◌, ok, Bool-cases,
}
use ixe.Prelude.Maps.{insert}
use ixe.LogSpace.Data.{MetaLog, trim}
use ixe.LogSpace.Base.{
  Core, Space, Hooks, is_trim, is_full, advance_meta_log_progress, provide_meta_log, provide_all,
}
use ixe.LogSpace.Progress.{advance_stop, provide_advance}

-- Only entries past the position wait, each under its own number.
abbrev pub Waits : ℕ → List (ℕ × MetaLog) → Type 0
Waits position [] = Unit {0}
Waits position ((k, m) ∷ rest) = (m.metalog_seqnum ≡ k) × (position < k) × Waits position rest

-- The entry at the position is a trim wherever it occurs in the list.
abbrev pub TrimAt : ℕ → List MetaLog → Type 0
TrimAt position [] = Unit {0}
TrimAt position (m ∷ ms) =
    ((m.metalog_seqnum == position) ≡ true → m.kind ≡ trim) × TrimAt position ms

insert-Waits :
    (position k : ℕ) (m : MetaLog) (rest : List (ℕ × MetaLog))
    → m.metalog_seqnum ≡ k
    → position < k
    → Waits position rest
    → Waits position (insert k m rest)
unfolding insert
insert-Waits position k m [] e h w = (e, h, tt)
insert-Waits position k m ((j, n) ∷ rest) e h w =
    ground (arith, insert-Waits position k m rest e h w.2)

module _ {ℓ} {S : Type ℓ} (h : Hooks S) where
  advance-Waits :
      (c : Core S) (ps : List (ℕ × MetaLog))
      → Waits c.metalog_position ps
      → advance_meta_log_progress h c ps ≡ ok (record { core = c; pending_metalogs = ps })
  unfolding advance_meta_log_progress
  advance-Waits c [] w = refl
  advance-Waits c ((k, m) ∷ rest) w =
      advance_stop h k m rest c (omega (arith, w.1)) (λ e. omega (arith, e, w.0, w.1))

  provide-Waits :
      (m : MetaLog) (s : Space S)
      → is_full s.core.mode ≡ false
      → ((m.metalog_seqnum == s.core.metalog_position) ≡ true → m.kind ≡ trim)
      → Waits s.core.metalog_position s.pending_metalogs
      → (s' : Space S) × (b : Bool) × (provide_meta_log h m s ≡ ok (s', b))
        × (s'.core ≡ s.core)
        × Waits s.core.metalog_position s'.pending_metalogs
  unfolding provide_meta_log
  provide-Waits m s lite at w = elim (Bool-cases (is_trim m.kind && not (is_full s.core.mode))) [
    | inl dropped ↦ (s, false, rw dropped refl, refl, w)
    | inr heard ↦ elim (Bool-cases (ltb m.metalog_seqnum s.core.metalog_position)) [
      | inl old ↦ (s, false, rw (heard, old) refl, refl, w)
      | inr new ↦
          let beyond : s.core.metalog_position < m.metalog_seqnum =
            ground (arith, heard, new, lite, at, ap is_trim {x = m.kind} {y = trim}) in
          let ps = insert m.metalog_seqnum m s.pending_metalogs in
          let w' =
            insert-Waits s.core.metalog_position m.metalog_seqnum m s.pending_metalogs refl beyond
              w in
          (
            record { core = s.core; pending_metalogs = ps },
            ltb s.core.metalog_position s.core.metalog_position,
            provide_advance h m m.metalog_seqnum s (record { core = s.core; pending_metalogs = ps })
                refl heard (omega (arith, beyond)) (advance-Waits s.core ps w'),
            refl,
            w',
          )
    ]
  ]

  -- In the modes other than `full_mode`, once the entry at the position of the log space is a trim, no
  -- meta log is applied any more, whatever arrives: the position and all else but the waiting entries
  -- stay for ever.
  pub trim_lem :
      (ms : List MetaLog) (s : Space S)
      → is_full s.core.mode ≡ false
      → TrimAt s.core.metalog_position ms
      → Waits s.core.metalog_position s.pending_metalogs
      → (s' : Space S) × (provide_all h ms s ≡ ok s') × (s'.core ≡ s.core)
  unfolding provide_all
  trim_lem [] s lite at w = (s, refl, refl)
  trim_lem (m ∷ ms) s lite at w =
      let (t, b, e, same, w') = provide-Waits m s lite at.0 w in
      let (u, f, kept) =
        trim_lem ms t (ap (λ c. is_full c.mode) same ∙ lite)
          (subst (λ c. TrimAt c.metalog_position ms) (sym same) at.1)
          (subst (λ c. Waits c.metalog_position t.pending_metalogs) (sym same) w') in
      (u, rw e f, kept ∙ same)
