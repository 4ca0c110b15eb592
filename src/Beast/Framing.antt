-- ===== src/Beast/Framing.antt =====
-- The loop of `parse_beast_frames` without its fuel, and what it emits.
use aircraft_malt.Prelude.{
  ℕ, zero, suc, ◌+◌, ◌≤◌, ◌<◌, ◌≡◌, refl, Option, none, some, [], ◌∷◌, ◌==◌, arith, length, ap,
  Bool-cases, inl, inr,
}
use aircraft_malt.Beast.{
  Bytes, marker, type_to_message_len, skip_to_marker, Payload, complete, incomplete, corrupted,
  push, read_payload, Parsed, emit, parse_payload, parse_typed, parse_at, parse_loop,
  parse_beast_frames,
}

pub length-skip_to_marker : (buffer : Bytes) → length (skip_to_marker buffer) ≤ length buffer
unfolding skip_to_marker
length-skip_to_marker [] = omega arith
length-skip_to_marker (b ∷ buffer) = ground (arith, length-skip_to_marker buffer)

-- What the inner loop leaves is not longer than what it read.
abbrev pub Leaves : ℕ → Bytes → Payload → Type 0
Leaves n buffer (complete decoded rest) = (length decoded ≡ n) × (length rest + n ≤ length buffer)
Leaves n buffer incomplete = length buffer < n + n
Leaves n buffer (corrupted rest) = length rest ≤ length buffer

Leaves-push :
    (n : ℕ) (b : ℕ) (buffer tail : Bytes) (p : Payload)
    → length tail < length buffer
    → length buffer ≤ length tail + 2
    → Leaves n tail p
    → Leaves (suc n) buffer (push b p)
Leaves-push n b buffer tail (complete decoded rest) h k l = omega arith
Leaves-push n b buffer tail incomplete h k l = omega arith
Leaves-push n b buffer tail (corrupted rest) h k l = omega arith

pub read_payload-Leaves : (n : ℕ) (buffer : Bytes) → Leaves n buffer (read_payload n buffer)
unfolding read_payload
read_payload-Leaves zero buffer = omega arith
read_payload-Leaves (suc n) [] = omega arith
read_payload-Leaves (suc n) (b ∷ []) = elim (Bool-cases (b == marker)) [
  | inl e ↦ rw e (omega arith)
  | inr e ↦
      rw e (Leaves-push n b (b ∷ []) [] _ (omega arith) (omega arith) (read_payload-Leaves n []))
]
read_payload-Leaves (suc n) (b ∷ c ∷ buffer) = elim (Bool-cases (b == marker)) [
  | inl e ↦ elim (Bool-cases (c == marker)) [
    | inl e' ↦
        rw (e, e')
          (Leaves-push n marker (b ∷ c ∷ buffer) buffer _ (omega arith) (omega arith)
            (read_payload-Leaves n buffer))
    | inr e' ↦ rw (e, e') (omega arith)
  ]
  | inr e ↦ rw e (
      Leaves-push n b (b ∷ c ∷ buffer) (c ∷ buffer) _ (omega arith) (omega arith)
        (read_payload-Leaves n (c ∷ buffer)))
]

module _ (next next' : Bytes → Parsed) (start : Bytes)
    (agree : (tail : Bytes) → length tail < length start → next tail ≡ next' tail) where
  parse_payload-cong :
      (t n : ℕ) (rest : Bytes) (p : Payload)
      → length rest < length start
      → Leaves n rest p
      → parse_payload next start t rest p ≡ parse_payload next' start t rest p
  parse_payload-cong t n rest (complete decoded tail) h l =
      ap (emit (record { type_byte = t; payload = decoded })) (agree tail (omega arith))
  parse_payload-cong t n rest incomplete h l = refl
  parse_payload-cong t n rest (corrupted tail) h l = agree tail (omega arith)

parse_typed-cong :
    (next next' : Bytes → Parsed) (b t : ℕ) (rest : Bytes) (m : Option ℕ)
    → ((tail : Bytes) → length tail < length (b ∷ t ∷ rest) → next tail ≡ next' tail)
    → parse_typed next b t rest m ≡ parse_typed next' b t rest m
parse_typed-cong next next' b t rest none agree = agree (t ∷ rest) (omega arith)
parse_typed-cong next next' b t rest (some m) agree =
    parse_payload-cong next next' (b ∷ t ∷ rest) agree t (7 + m) rest (read_payload (7 + m) rest)
      (omega arith) (read_payload-Leaves (7 + m) rest)

parse_at-cong :
    (next next' : Bytes → Parsed) (s : Bytes)
    → ((tail : Bytes) → length tail < length s → next tail ≡ next' tail)
    → parse_at next s ≡ parse_at next' s
parse_at-cong next next' [] agree = refl
parse_at-cong next next' (b ∷ []) agree = refl
parse_at-cong next next' (b ∷ t ∷ rest) agree =
    parse_typed-cong next next' b t rest (type_to_message_len t) agree

-- Fuel above the length of the buffer makes no difference.
parse_loop-fuel :
    (f g : ℕ) (buffer : Bytes)
    → length buffer < f
    → length buffer < g
    → parse_loop f buffer ≡ parse_loop g buffer
unfolding parse_loop
parse_loop-fuel zero g buffer h k = elim h [ ]
parse_loop-fuel (suc f) zero buffer h k = elim k [ ]
parse_loop-fuel (suc f) (suc g) buffer h k =
    parse_at-cong (λ tail. parse_loop f tail) (λ tail. parse_loop g tail) (skip_to_marker buffer)
      λ tail l.
        parse_loop-fuel f g tail (omega (arith, length-skip_to_marker buffer))
          (omega (arith, length-skip_to_marker buffer))

-- The loop, without its fuel.
pub parse_beast_frames_lem :
    (buffer : Bytes)
    → parse_beast_frames buffer ≡ parse_at parse_beast_frames (skip_to_marker buffer)
unfolding parse_beast_frames
parse_beast_frames_lem buffer =
    parse_at-cong (λ tail. parse_loop (length buffer) tail) parse_beast_frames
      (skip_to_marker buffer)
      λ tail l.
        parse_loop-fuel (length buffer) (suc (length tail)) tail
          (omega (arith, length-skip_to_marker buffer)) (omega arith)
