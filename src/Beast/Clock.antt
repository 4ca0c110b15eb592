-- ===== src/Beast/Clock.antt =====
-- tools/mlat/beast_tcp_adapter.py: the tick arithmetic of `normalize_beast_timestamp`.
use aircraft_malt.Prelude.{
  ℕ, ◌+◌, ◌-◌, ◌*◌, ◌%◌, ◌<◌, ◌≡◌, refl, ap, ◌∙◌, true, false, [], ◌∷◌, ℤ, pos, negsuc, leb, arith,
  if◌then◌else◌, tests,
}
use aircraft_malt.Beast.{Bytes}

-- `1 << 48` and its half
abbrev pub tick_modulus : ℕ
tick_modulus = 281474976710656

abbrev half_modulus : ℕ
half_modulus = 140737488355328

-- `int.from_bytes(raw_timestamp, "big")`, behind the value of the bytes before
unfoldable pub ticks_from : ℕ → Bytes → ℕ
ticks_from n [] = n
ticks_from n (b ∷ bytes) = ticks_from (n * 256 + b) bytes

-- The ticks from the anchor to the frame, on a counter that wraps; the anchor is below the modulus,
-- so adding the modulus first is Python's `%` on the difference.
abbrev signed_ticks : ℕ → ℤ
signed_ticks n = if leb half_modulus n then negsuc (tick_modulus - n - 1) else pos n

unfoldable pub delta_ticks : ℕ → ℕ → ℤ
delta_ticks frame_tick anchor_tick =
    signed_ticks ((frame_tick + (tick_modulus - anchor_tick)) % tick_modulus)

forward_ticks :
    (anchor n : ℕ)
    → anchor < tick_modulus
    → n < half_modulus
    → ((anchor + n) % tick_modulus + (tick_modulus - anchor)) % tick_modulus ≡ n
forward_ticks anchor n h k = omega arith

backward_ticks :
    (anchor n : ℕ)
    → anchor < tick_modulus
    → n < half_modulus
    → ((anchor + (tick_modulus - n - 1)) % tick_modulus + (tick_modulus - anchor)) % tick_modulus
      ≡ tick_modulus - n - 1
backward_ticks anchor n h k = omega arith

-- The counter at `d` ticks from an anchor, and the drifts that half of the counter's range can hold.
abbrev pub counter_at : ℕ → ℤ → ℕ
counter_at anchor (pos n) = (anchor + n) % tick_modulus
counter_at anchor (negsuc n) = (anchor + (tick_modulus - n - 1)) % tick_modulus

abbrev pub InHalfRange : ℤ → Type 0
InHalfRange (pos n) = n < half_modulus
InHalfRange (negsuc n) = n < half_modulus

low : (n : ℕ) → n < half_modulus → leb half_modulus n ≡ false
low n h = grind tests

high : (n : ℕ) → n < half_modulus → leb half_modulus (tick_modulus - n - 1) ≡ true
high n h = grind tests

back_again : (n : ℕ) → n < half_modulus → tick_modulus - (tick_modulus - n - 1) - 1 ≡ n
back_again n h = omega arith

-- The difference of a frame's counter and the anchor's is the number of ticks between them, before
-- or after the anchor, whether or not the counter of 48 bits wrapped in between, as long as fewer
-- than half its range lie between them, or half exactly before the anchor.
pub delta_ticks-counter_at :
    (anchor : ℕ) (d : ℤ)
    → anchor < tick_modulus
    → InHalfRange d
    → delta_ticks (counter_at anchor d) anchor ≡ d
unfolding delta_ticks
delta_ticks-counter_at anchor (pos n) h k =
    ap signed_ticks (forward_ticks anchor n h k) ∙ rw (low n k) refl
delta_ticks-counter_at anchor (negsuc n) h k =
    ap signed_ticks (backward_ticks anchor n h k) ∙ rw (high n k) (ap negsuc (back_again n k))
