-- ===== src/Bits.antt =====
-- src/utils/bits.h and the two accessors of src/log/utils.cpp.
use ixe.Prelude.{ℕ, ◌+◌, ◌*◌, ◌/◌, ◌%◌, ◌^◌, ◌<◌, ◌≡◌, arith}

abbrev pub u16_mod : ℕ
u16_mod = 2 ^ 16

abbrev pub u32_mod : ℕ
u32_mod = 2 ^ 32

abbrev pub u64_mod : ℕ
u64_mod = 2 ^ 64

-- The sum wraps at 64 bits; for halves in range it cannot.
unfoldable pub join_two32 : ℕ → ℕ → ℕ
join_two32 high low = (low + high * 2 ^ 32) % 2 ^ 64

unfoldable pub join_two16 : ℕ → ℕ → ℕ
join_two16 high low = (low + high * 2 ^ 16) % 2 ^ 32

unfoldable pub low_half64 : ℕ → ℕ
low_half64 x = x % 2 ^ 32

unfoldable pub low_half32 : ℕ → ℕ
low_half32 x = x % 2 ^ 16

unfoldable pub high_half64 : ℕ → ℕ
high_half64 x = (x / 2 ^ 32) % 2 ^ 32

unfoldable pub high_half32 : ℕ → ℕ
high_half32 x = (x / 2 ^ 16) % 2 ^ 16

unfoldable pub get_view_id : ℕ → ℕ
unfolding high_half32 high_half64
get_view_id value = high_half32 (high_half64 value)

unfoldable pub get_sequencer_id : ℕ → ℕ
unfolding low_half32 high_half64
get_sequencer_id value = low_half32 (high_half64 value)

-- What tactics need to know of a join: no wrap, and the halves come back.
pub join_two32_lem : (h l : ℕ) → h < 2 ^ 32 → l < 2 ^ 32 → join_two32 h l ≡ l + h * 2 ^ 32
unfolding join_two32
join_two32_lem h l p q = omega arith

pub join_two16-lt : (h l : ℕ) → join_two16 h l < 2 ^ 32
unfolding join_two16
join_two16-lt h l = omega arith

-- Joining two 16-bit halves and then two 32-bit halves loses nothing: a sequence number gives
-- back its view, its sequencer and its position, each in range.
pub seqnum_roundtrip :
    (view sequencer position : ℕ)
    → view < 2 ^ 16
    → sequencer < 2 ^ 16
    → position < 2 ^ 32
    → (get_view_id (join_two32 (join_two16 view sequencer) position) ≡ view)
      × (get_sequencer_id (join_two32 (join_two16 view sequencer) position) ≡ sequencer)
      × (low_half64 (join_two32 (join_two16 view sequencer) position) ≡ position)
unfolding join_two32 join_two16 get_view_id get_sequencer_id low_half64
seqnum_roundtrip view sequencer position v s p = omega arith
