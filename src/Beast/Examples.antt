-- ===== src/Beast/Examples.antt =====
-- Tests of the Beast framing, and its theorems at concrete streams.
use aircraft_malt.Prelude.{◌≡◌, refl, List, [], ◌∷◌, ◌++◌, All, pos, arith}
use aircraft_malt.Beast.{Bytes, Frame, type_to_message_len, parse_beast_frames, read_chunks}
use aircraft_malt.Beast.Output.{IsFrame}
use aircraft_malt.Beast.Chunks.{then_chunk, parse_beast_frames-append}
use aircraft_malt.Beast.Clock.{ticks_from, delta_ticks, counter_at, delta_ticks-counter_at}
use aircraft_malt.Beast.RoundTrip.{read_chunks-encode_all}

-- A short frame whose message and time hold marker bytes.
abbrev short_frame : Frame
short_frame = record {
  type_byte = 0x31;
  payload = 0 ∷ 0 ∷ 0 ∷ 0 ∷ 0x1a ∷ 6 ∷ 90 ∷ 0x1a ∷ 0x1a ∷ [];
}

abbrev other_frame : Frame
other_frame = record {
  type_byte = 0x32;
  payload = 0 ∷ 0 ∷ 0 ∷ 0 ∷ 0 ∷ 9 ∷ 80 ∷ 0x5d ∷ 0x48 ∷ 0x40 ∷ 0xd6 ∷ 1 ∷ 2 ∷ 3 ∷ [];
}

abbrev frames : List Frame
frames = short_frame ∷ other_frame ∷ []

-- The stream is cut inside an escaped marker.
abbrev chunks : List Bytes
chunks =
    (0x1a ∷ 0x31 ∷ 0 ∷ 0 ∷ 0 ∷ 0 ∷ 0x1a ∷ [])
    ∷ (0x1a ∷ 6 ∷ 90 ∷ 0x1a ∷ 0x1a ∷ 0x1a ∷ 0x1a ∷ 0x1a ∷ [])
    ∷ (0x32 ∷ 0 ∷ 0 ∷ 0 ∷ 0 ∷ 0 ∷ 9 ∷ 80 ∷ 0x5d ∷ 0x48 ∷ 0x40 ∷ 0xd6 ∷ 1 ∷ 2 ∷ 3 ∷ [])
    ∷ []

frames-IsFrame : All IsFrame frames
unfolding type_to_message_len
frames-IsFrame = ((2, refl, refl), ((7, refl, refl), tt))

read_chunks-encode_all_example : read_chunks chunks ([], []) ≡ (frames, [])
read_chunks-encode_all_example = read_chunks-encode_all chunks frames frames-IsFrame refl

parse_beast_frames-append_example :
    parse_beast_frames ((7 ∷ 0x1a ∷ []) ++ 0x31 ∷ 1 ∷ 2 ∷ [])
    ≡ then_chunk (0x31 ∷ 1 ∷ 2 ∷ []) (parse_beast_frames (7 ∷ 0x1a ∷ []))
parse_beast_frames-append_example = parse_beast_frames-append (7 ∷ 0x1a ∷ []) (0x31 ∷ 1 ∷ 2 ∷ [])

-- The counter wrapped between the anchor and the frame.
wrapped_frame : delta_ticks (ticks_from 0 (0 ∷ 0 ∷ 0 ∷ 0 ∷ 0 ∷ 14 ∷ [])) 281474976710650 ≡ pos 20
unfolding delta_ticks ticks_from
wrapped_frame = refl

delta_ticks-counter_at_example :
    delta_ticks (counter_at 281474976710650 (pos 20)) 281474976710650 ≡ pos 20
delta_ticks-counter_at_example =
    delta_ticks-counter_at 281474976710650 (pos 20) (omega arith) (omega arith)
