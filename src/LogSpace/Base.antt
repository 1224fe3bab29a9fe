-- ===== src/LogSpace/Base.antt =====
-- `LogSpaceBase` of src/log/log_space_base.cpp. The virtual methods of a derived class are a record
-- of functions over its own state; `DCHECK`s are not compiled into a release and are left out.
use ixe.Prelude.{
  ℕ, ◌+◌, ◌-◌, ◌%◌, ◌^◌, Bool, true, false, ◌||◌, ◌&&◌, not, Option, none, some, List, [], ◌∷◌,
  ◌++◌, ltb, leb, ◌==◌, if◌then◌else◌, Outcome, ok, fatal, ◌>>=◌, at_or_fatal, get_elem?, elem,
}
use ixe.Prelude.Maps.{put, insert}
use ixe.Bits.{join_two16, join_two32}
use ixe.LogSpace.Data.{
  MetaLog, MetaLogType, invalid, new_logs, trim, Mode, full_mode, log_suffix, State, created,
  frozen,
}

-- The fields of `LogSpaceBase` but `pending_metalogs_`, and the state of the derived class.
pub record Core {ℓ} (S : Type ℓ) : Type ℓ where
  pub mode : Mode
  pub state : State
  pub view_id : ℕ
  pub sequencer_id : ℕ
  pub metalog_position : ℕ
  pub interested_shards : List ℕ
  pub shard_progresses : List (ℕ × ℕ)
  pub seqnum_position : ℕ
  pub applied_metalogs : List MetaLog
  pub derived : S

pub record Space {ℓ} (S : Type ℓ) : Type ℓ where
  pub core : Core S
  pub pending_metalogs : List (ℕ × MetaLog)

-- The virtual methods: each returns the new state of the derived class.
pub record Hooks {ℓ} (S : Type ℓ) : Type ℓ where
  pub on_new_logs : Core S → ℕ → ℕ → ℕ → ℕ → ℕ → Outcome S
  pub on_new_cuts : Core S → List (ℕ × ℕ) → Outcome S
  pub on_trim : Core S → ℕ → ℕ → ℕ → ℕ → Outcome S
  pub on_meta_log_applied : Core S → MetaLog → Outcome S
  pub on_finalized : Core S → ℕ → Outcome S

abbrev pub is_full : Mode → Bool
is_full full_mode = true
is_full _ = false

abbrev pub is_trim : MetaLogType → Bool
is_trim trim = true
is_trim _ = false

-- The bodies of the virtual methods in `LogSpaceBase`: they do nothing.
abbrev pub no_hooks {ℓ} : {S : Type ℓ} → Hooks S
no_hooks = record {
  on_new_logs = λ c _ _ _ _ _. ok c.derived;
  on_new_cuts = λ c _. ok c.derived;
  on_trim = λ c _ _ _ _. ok c.derived;
  on_meta_log_applied = λ c _. ok c.derived;
  on_finalized = λ c _. ok c.derived;
}

-- The constructor; the view gives the shards whose progress starts at zero.
abbrev pub init_progresses : List ℕ → List (ℕ × ℕ)
init_progresses [] = []
init_progresses (i ∷ ids) = (i, 0) ∷ init_progresses ids

unfoldable pub new_core {ℓ} : {S : Type ℓ} → Mode → ℕ → ℕ → List ℕ → S → Core S
new_core mode view_id sequencer_id shard_ids s = record {
  mode = mode;
  state = created;
  view_id = view_id;
  sequencer_id = sequencer_id;
  metalog_position = 0;
  interested_shards = [];
  shard_progresses = init_progresses shard_ids;
  seqnum_position = 0;
  applied_metalogs = [];
  derived = s;
}

-- The loop of `NEW_LOGS` in mode `log_suffix`: the new progresses, the cuts, the next seqnum.
unfoldable pub collect_cuts :
    List (ℕ × ℕ) → List ℕ → List ℕ → List ℕ → ℕ → Outcome (List (ℕ × ℕ) × List (ℕ × ℕ) × ℕ)
collect_cuts ps [] starts deltas start = ok (ps, [], start)
collect_cuts ps (i ∷ ids) [] deltas start = fatal
collect_cuts ps (i ∷ ids) (b ∷ starts) [] start = fatal
collect_cuts ps (i ∷ ids) (b ∷ starts) (d ∷ deltas) start = do
  let shard = i % 2 ^ 16
  let next = (start + d) % 2 ^ 32
  (ps', cuts, end) ← collect_cuts (put shard ((b + d) % 2 ^ 32) ps) ids starts deltas next
  ok (ps', (if ltb 0 d then (shard, (next + 2 ^ 32 - 1) % 2 ^ 32) ∷ cuts else cuts), end)

module _ {ℓ} {S : Type ℓ} where
  unfoldable pub identifier : Core S → ℕ
  identifier c = join_two16 c.view_id c.sequencer_id

  -- `seqnum_position()`; the 32-bit position is `local_seqnum_position()`.
  unfoldable pub global_seqnum_position : Core S → ℕ
  global_seqnum_position c = join_two32 (identifier c) c.seqnum_position

  unfoldable pub add_interested_shard : ℕ → Core S → Core S
  add_interested_shard shard_id c =
      if elem shard_id c.interested_shards
      then c
      else record c { interested_shards = shard_id ∷ c.interested_shards }

  unfoldable pub get_meta_log : ℕ → Space S → Outcome (Option MetaLog)
  get_meta_log pos s =
      if leb s.core.metalog_position pos
      then ok none
      else (at_or_fatal (get_elem? s.core.applied_metalogs pos) >>= λ m. ok (some m))

  -- One round of the loop of `NEW_LOGS` in the modes other than `log_suffix`.
  unfoldable pub apply_shard : Hooks S → ℕ → Core S → ℕ → ℕ → ℕ → ℕ → Outcome (Core S)
  apply_shard h seqnum c i b d start = do
    let shard = i % 2 ^ 16
    s ←
        if is_full c.mode || elem shard c.interested_shards
        then h.on_new_logs c seqnum (join_two32 (identifier c) start) (join_two32 shard b) d shard
        else ok c.derived
    let progresses = put shard ((b + d) % 2 ^ 32) c.shard_progresses
    ok (record c { derived = s; shard_progresses = progresses })

  -- The three repeated fields are read at the same index; a missing start or delta is a read out of
  -- range.
  unfoldable pub apply_shards :
      Hooks S → ℕ → Core S → List ℕ → List ℕ → List ℕ → ℕ → Outcome (Core S × ℕ)
  apply_shards h seqnum c [] starts deltas start = ok (c, start)
  apply_shards h seqnum c (i ∷ ids) [] deltas start = fatal
  apply_shards h seqnum c (i ∷ ids) (b ∷ starts) [] start = fatal
  apply_shards h seqnum c (i ∷ ids) (b ∷ starts) (d ∷ deltas) start = do
    c' ← apply_shard h seqnum c i b d start
    apply_shards h seqnum c' ids starts deltas ((start + d) % 2 ^ 32)

  unfoldable pub apply_new_logs : Hooks S → MetaLog → Core S → Outcome (Core S)
  apply_new_logs h m c = do
    let r = m.new_logs_proto
    (c', end) ←
        apply_shards h m.metalog_seqnum c r.shard_ids r.shard_starts r.shard_deltas r.start_seqnum
    ok (record c' { seqnum_position = end })

  unfoldable pub apply_suffix : Hooks S → MetaLog → Core S → Outcome (Core S)
  apply_suffix h m c = do
    let r = m.new_logs_proto
    (ps, cuts, end) ←
        collect_cuts c.shard_progresses r.shard_ids r.shard_starts r.shard_deltas r.start_seqnum
    let c' = record c { shard_progresses = ps; seqnum_position = end }
    s ← h.on_new_cuts c' cuts
    ok (record c' { derived = s })

  unfoldable pub apply_trim : Hooks S → MetaLog → Core S → Outcome (Core S)
  apply_trim h m c = do
    let r = m.trim_proto
    s ← h.on_trim c m.metalog_seqnum r.user_logspace r.user_tag r.trim_seqnum
    ok (record c { derived = s })

  unfoldable pub apply_meta_log : Hooks S → MetaLog → Core S → Outcome (Core S)
  apply_meta_log h m c = elim m.kind [
    | invalid ↦ fatal
    | new_logs ↦ elim c.mode [ log_suffix ↦ apply_suffix h m c | _ ↦ apply_new_logs h m c ]
    | trim ↦ apply_trim h m c
  ]

  -- One round of `AdvanceMetaLogProgress` at the entry whose turn it is.
  unfoldable pub apply_next : Hooks S → MetaLog → Core S → Outcome (Core S)
  apply_next h m c = do
    c₁ ← apply_meta_log h m c
    let applied = if is_full c₁.mode then c₁.applied_metalogs ++ m ∷ [] else c₁.applied_metalogs
    let c₂ = record c₁ {
      applied_metalogs = applied;
      metalog_position = (m.metalog_seqnum + 1) % 2 ^ 32;
    }
    s ← h.on_meta_log_applied c₂ m
    ok (record c₂ { derived = s })

  unfoldable pub advance_meta_log_progress :
      Hooks S → Core S → List (ℕ × MetaLog) → Outcome (Space S)
  advance_meta_log_progress h c [] = ok (record { core = c; pending_metalogs = [] })
  advance_meta_log_progress h c ((k, m) ∷ rest) = elim (ltb k c.metalog_position) [
    | true ↦ advance_meta_log_progress h c rest
    | false ↦ elim (m.metalog_seqnum == c.metalog_position) [
      | true ↦ apply_next h m c >>= λ c'. advance_meta_log_progress h c' rest
      | false ↦ ok (record { core = c; pending_metalogs = (k, m) ∷ rest })
    ]
  ]

  -- Trims are dropped by every mode but `full_mode`. The Boolean says whether the position moved.
  unfoldable pub provide_meta_log : Hooks S → MetaLog → Space S → Outcome (Space S × Bool)
  provide_meta_log h m s =
      if is_trim m.kind && not (is_full s.core.mode)
      then ok (s, false)
      else if ltb m.metalog_seqnum s.core.metalog_position
      then ok (s, false)
      else (advance_meta_log_progress h s.core (insert m.metalog_seqnum m s.pending_metalogs)
          >>= λ s'. ok (s', ltb s.core.metalog_position s'.core.metalog_position))

  unfoldable pub freeze : Space S → Space S
  freeze s = record s { core = record s.core { state = frozen } }

  unfoldable pub provide_all : Hooks S → List MetaLog → Space S → Outcome (Space S)
  provide_all h [] s = ok s
  provide_all h (m ∷ ms) s = provide_meta_log h m s >>= λ r. provide_all h ms r.0

  finish : Hooks S → Space S → Outcome (Space S × Bool)
  finish h s = do
    d ← h.on_finalized s.core s.core.metalog_position
    ok (record s { core = record s.core { derived = d } }, true)

  unfoldable pub finalize : Hooks S → ℕ → List MetaLog → Space S → Outcome (Space S × Bool)
  unfolding finish
  finalize h final tail s =
      if s.core.metalog_position == final
      then finish h s
      else if ltb final s.core.metalog_position
      then (if ltb ((final + 1) % 2 ^ 32) s.core.metalog_position then fatal else finish h s)
      else (provide_all h tail s >>= λ s'.
          if ltb s'.core.metalog_position final
          then ok (s', false)
          else if ltb final s'.core.metalog_position
          then fatal
          else finish h s')
