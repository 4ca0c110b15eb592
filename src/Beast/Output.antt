-- ===== src/Beast/Output.antt =====
-- What `parse_beast_frames` emits, and how much of the buffer it keeps.
use aircraft_malt.Prelude.{
  ℕ, zero, suc, ◌+◌, ◌≤◌, ◌<◌, ◌≡◌, Option, none, some, [], ◌∷◌, arith, length, All, refl,
}
use aircraft_malt.Beast.{
  Bytes, type_to_message_len, skip_to_marker, Payload, complete, incomplete, corrupted,
  read_payload, Frame, Parsed, parse_payload, parse_typed, parse_at, parse_beast_frames,
}
use aircraft_malt.Beast.Framing.{
  Leaves, read_payload-Leaves, length-skip_to_marker, parse_beast_frames_lem,
}

-- The payload is 6 bytes of time, one of signal level, and the message of the type's length.
abbrev pub IsFrame : Frame → Type 0
IsFrame f = (m : ℕ) × (type_to_message_len f.type_byte ≡ some m) × (length f.payload ≡ 7 + m)

abbrev pub IsOutput : Parsed → Type 0
IsOutput (frames, rest) = All IsFrame frames × (length rest ≤ 43)

type_to_message_len-le : (t m : ℕ) → type_to_message_len t ≡ some m → m ≤ 14
unfolding type_to_message_len
type_to_message_len-le t m h = ground arith

module _ (next : Bytes → Parsed) (start : Bytes)
    (hold : (tail : Bytes) → length tail < length start → IsOutput (next tail)) where
  parse_payload-IsOutput :
      (t m : ℕ) (rest : Bytes) (p : Payload)
      → type_to_message_len t ≡ some m
      → length start ≡ length rest + 2
      → Leaves (7 + m) rest p
      → IsOutput (parse_payload next start t rest p)
  parse_payload-IsOutput t m rest (complete decoded tail) e h l =
      let ih = hold tail (omega arith) in (((m, e, l.0), ih.0), ih.1)
  parse_payload-IsOutput t m rest incomplete e h l =
      (tt, omega (arith, type_to_message_len-le t m e))
  parse_payload-IsOutput t m rest (corrupted tail) e h l = hold tail (omega arith)

parse_typed-IsOutput :
    (next : Bytes → Parsed) (b t : ℕ) (rest : Bytes) (o : Option ℕ)
    → type_to_message_len t ≡ o
    → ((tail : Bytes) → length tail < length (b ∷ t ∷ rest) → IsOutput (next tail))
    → IsOutput (parse_typed next b t rest o)
parse_typed-IsOutput next b t rest none e hold = hold (t ∷ rest) (omega arith)
parse_typed-IsOutput next b t rest (some m) e hold =
    parse_payload-IsOutput next (b ∷ t ∷ rest) hold t m rest (read_payload (7 + m) rest) e
      (omega arith) (read_payload-Leaves (7 + m) rest)

parse_at-IsOutput :
    (next : Bytes → Parsed) (s : Bytes)
    → ((tail : Bytes) → length tail < length s → IsOutput (next tail))
    → IsOutput (parse_at next s)
parse_at-IsOutput next [] hold = (tt, omega arith)
parse_at-IsOutput next (b ∷ []) hold = (tt, omega arith)
parse_at-IsOutput next (b ∷ t ∷ rest) hold =
    parse_typed-IsOutput next b t rest (type_to_message_len t) refl hold

below : (n : ℕ) (buffer : Bytes) → length buffer < n → IsOutput (parse_beast_frames buffer)
below zero buffer h = elim h [ ]
below (suc n) buffer h = rw parse_beast_frames_lem (
    parse_at-IsOutput parse_beast_frames (skip_to_marker buffer)
      λ tail l. below n tail (omega (arith, length-skip_to_marker buffer)))

-- Whatever the bytes, each frame that `parse_beast_frames` emits has a known type and a payload of
-- that type's length, and at most 43 bytes are kept for the next read.
pub parse_beast_frames-IsOutput : (buffer : Bytes) → IsOutput (parse_beast_frames buffer)
parse_beast_frames-IsOutput buffer = below (suc (length buffer)) buffer (omega arith)
