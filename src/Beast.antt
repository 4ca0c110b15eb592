-- ===== src/Beast.antt =====
-- tools/mlat/beast_tcp_adapter.py: Beast framing. A position in the buffer is the rest of the
-- buffer from that position on.
use aircraft_malt.Prelude.{
  ℕ, zero, suc, ◌+◌, ◌≡◌, refl, Option, none, some, List, [], ◌∷◌, ◌++◌, ◌==◌, if◌then◌else◌,
  length,
}
pub mod Framing
pub mod Output
pub mod Chunks
pub mod RoundTrip
pub mod Clock
pub mod Timing
pub mod Record
mod Examples

abbrev pub Bytes : Type 0
Bytes = List ℕ

abbrev pub marker : ℕ
marker = 0x1a

-- `TYPE_TO_MESSAGE_LEN.get(type_byte)`
unfoldable pub type_to_message_len : ℕ → Option ℕ
type_to_message_len t =
    if t == 0x31 then some 2 else if t == 0x32 then some 7 else if t == 0x33 then some 14 else none

-- `while idx < len(buffer) and buffer[idx] != 0x1A: idx += 1`
unfoldable pub skip_to_marker : Bytes → Bytes
skip_to_marker [] = []
skip_to_marker (b ∷ buffer) = if b == marker then b ∷ buffer else skip_to_marker buffer

-- How the inner loop ends: the payload and the buffer behind it, the end of the buffer, or the
-- buffer from a marker that arrived too early.
pub data Payload : Type 0 where
  complete : Bytes → Bytes → Payload
  incomplete : Payload
  corrupted : Bytes → Payload

abbrev pub push : ℕ → Payload → Payload
push b (complete decoded rest) = complete (b ∷ decoded) rest
push b incomplete = incomplete
push b (corrupted rest) = corrupted rest

-- `while len(decoded) < expected_len`, over the number of bytes still missing.
unfoldable pub read_payload : ℕ → Bytes → Payload
read_payload zero buffer = complete [] buffer
read_payload (suc n) [] = incomplete
read_payload (suc n) (b ∷ []) =
    let plain = push b (read_payload n []) in if b == marker then incomplete else plain
read_payload (suc n) (b ∷ c ∷ buffer) =
    let plain = push b (read_payload n (c ∷ buffer)) in
    let escaped = push marker (read_payload n buffer) in
    if b == marker then (if c == marker then escaped else corrupted (b ∷ c ∷ buffer)) else plain

pub record Frame : Type 0 where
  pub type_byte : ℕ
  pub payload : Bytes

abbrev pub Parsed : Type 0
Parsed = List Frame × Bytes

abbrev pub emit : Frame → Parsed → Parsed
emit f (frames, rest) = (f ∷ frames, rest)

-- One round of the outer loop behind a marker, over the continuation `next`.
abbrev pub parse_payload : (Bytes → Parsed) → Bytes → ℕ → Bytes → Payload → Parsed
parse_payload next start t rest (complete decoded tail) =
    emit (record { type_byte = t; payload = decoded }) (next tail)
parse_payload next start t rest incomplete = ([], start)
parse_payload next start t rest (corrupted tail) = next tail

abbrev pub parse_typed : (Bytes → Parsed) → ℕ → ℕ → Bytes → Option ℕ → Parsed
parse_typed next b t rest none = next (t ∷ rest)
parse_typed next b t rest (some message_len) =
    parse_payload next (b ∷ t ∷ rest) t rest (read_payload (7 + message_len) rest)

abbrev pub parse_at : (Bytes → Parsed) → Bytes → Parsed
parse_at next [] = ([], [])
parse_at next (b ∷ []) = ([], b ∷ [])
parse_at next (b ∷ t ∷ rest) = parse_typed next b t rest (type_to_message_len t)

-- The outer `while True`, on fuel: each round moves at least one byte forward.
unfoldable pub parse_loop : ℕ → Bytes → Parsed
parse_loop zero buffer = ([], buffer)
parse_loop (suc fuel) buffer = parse_at (λ tail. parse_loop fuel tail) (skip_to_marker buffer)

unfoldable pub parse_beast_frames : Bytes → Parsed
unfolding parse_loop skip_to_marker read_payload type_to_message_len
parse_beast_frames buffer = parse_loop (suc (length buffer)) buffer

-- The read loop of `stream_records` over the chunks of one connection, with the frames in order.
unfoldable pub read_chunks : List Bytes → Parsed → Parsed
unfolding parse_beast_frames
read_chunks [] (frames, buffer) = (frames, buffer)
read_chunks (chunk ∷ chunks) (frames, buffer) =
    let (more, buffer') = parse_beast_frames (buffer ++ chunk) in
    read_chunks chunks (frames ++ more, buffer')

-- Noise, a type A frame with an escaped marker, a frame cut off by a new marker, and a tail.
parse_mixed :
    parse_beast_frames (
      7 ∷ 0x1a ∷ 0x31 ∷ 1 ∷ 2 ∷ 3 ∷ 4 ∷ 5 ∷ 6 ∷ 7 ∷ 0x1a ∷ 0x1a ∷ 9 ∷ 0x1a ∷ 0x31 ∷ 8 ∷ 0x1a ∷ 0x32
      ∷ [])
    ≡ (
      record { type_byte = 0x31; payload = 1 ∷ 2 ∷ 3 ∷ 4 ∷ 5 ∷ 6 ∷ 7 ∷ 0x1a ∷ 9 ∷ [] } ∷ [],
      0x1a ∷ 0x32 ∷ [],
    )
unfolding parse_beast_frames
parse_mixed = refl
