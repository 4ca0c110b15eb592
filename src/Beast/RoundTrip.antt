-- ===== src/Beast/RoundTrip.antt =====
-- The Beast encoding of a frame, as the docstring of `parse_beast_frames` describes it, and its
-- decoding; and the read loop of `stream_records`.
use aircraft_malt.Prelude.{
  ℕ, suc, ◌≡◌, refl, ap, ◌∙◌, inl, inr, List, [], ◌∷◌, ◌++◌, ◌==◌, arith, length, Bool-cases, All,
  if◌then◌else◌, false,
}
use mathlib.Core.List.{append_assoc, append-nil}
use aircraft_malt.Beast.{
  Bytes, marker, skip_to_marker, complete, push, read_payload, Frame, Parsed, emit,
  parse_beast_frames, read_chunks,
}
use aircraft_malt.Beast.Framing.{parse_beast_frames_lem}
use aircraft_malt.Beast.Output.{IsFrame}
use aircraft_malt.Beast.Chunks.{then_chunk, parse_beast_frames-append}

-- A payload byte equal to the marker is sent twice.
abbrev pub escape : Bytes → Bytes
escape [] = []
escape (b ∷ payload) = if b == marker then marker ∷ marker ∷ escape payload else b ∷ escape payload

abbrev pub encode : Frame → Bytes
encode f = marker ∷ f.type_byte ∷ escape f.payload

abbrev pub encode_all : List Frame → Bytes
encode_all [] = []
encode_all (f ∷ frames) = encode f ++ encode_all frames

read_payload-plain :
    (n b : ℕ) (buffer : Bytes)
    → (b == marker) ≡ false
    → read_payload (suc n) (b ∷ buffer) ≡ push b (read_payload n buffer)
unfolding read_payload
read_payload-plain n b [] h = rw h
read_payload-plain n b (c ∷ buffer) h = rw h

read_payload-escape :
    (payload rest : Bytes)
    → read_payload (length payload) (escape payload ++ rest) ≡ complete payload rest
unfolding read_payload
read_payload-escape [] rest = refl
read_payload-escape (b ∷ payload) rest = elim (Bool-cases (b == marker)) [
  | inl e ↦ rw e (ground (arith, read_payload-escape payload rest))
  | inr e ↦ rw e (
      read_payload-plain (length payload) b (escape payload ++ rest) e
      ∙ ap (push b) (read_payload-escape payload rest))
]

-- A whole frame at the front of the buffer is emitted first, and then what follows is parsed.
pub parse-encode :
    (f : Frame) (rest : Bytes)
    → IsFrame f
    → parse_beast_frames (encode f ++ rest) ≡ emit f (parse_beast_frames rest)
unfolding skip_to_marker
parse-encode f rest (m, known, size) =
    parse_beast_frames_lem (encode f ++ rest)
    ∙ rw (known, ← size) (rw (read_payload-escape f.payload rest))

-- Decoding the encoding of well-formed frames gives those frames and leaves nothing.
pub parse-encode_all :
    (frames : List Frame)
    → All IsFrame frames
    → parse_beast_frames (encode_all frames) ≡ (frames, [])
unfolding parse_beast_frames
parse-encode_all [] h = refl
parse-encode_all (f ∷ frames) h =
    parse-encode f (encode_all frames) h.0 ∙ ap (emit f) (parse-encode_all frames h.1)

abbrev concat : List Bytes → Bytes
concat [] = []
concat (chunk ∷ chunks) = chunk ++ concat chunks

read_chunks-from :
    (chunks : List Bytes) (sent : Bytes) (p : Parsed)
    → p ≡ parse_beast_frames sent
    → read_chunks chunks p ≡ parse_beast_frames (sent ++ concat chunks)
unfolding read_chunks
read_chunks-from [] sent p h = rw append-nil h
read_chunks-from (chunk ∷ chunks) sent p h =
    read_chunks-from chunks (sent ++ chunk) (then_chunk chunk p)
      (ap (then_chunk chunk) h ∙ rw (parse_beast_frames-append sent chunk))
    ∙ ap parse_beast_frames (append_assoc sent chunk (concat chunks))

-- However the network cuts a stream of well-formed frames into chunks, the read loop emits exactly
-- the frames that were sent, in order, and keeps nothing.
pub read_chunks-encode_all :
    (chunks : List Bytes) (frames : List Frame)
    → All IsFrame frames
    → concat chunks ≡ encode_all frames
    → read_chunks chunks ([], []) ≡ (frames, [])
unfolding parse_beast_frames
read_chunks-encode_all chunks frames h e =
    read_chunks-from chunks [] ([], []) refl ∙ ap parse_beast_frames e ∙ parse-encode_all frames h
