-- ===== src/Beast/Chunks.antt =====
-- Reading a stream in chunks gives the frames of the whole stream.
use aircraft_malt.Prelude.{
  ℕ, zero, suc, ◌+◌, ◌<◌, ◌≡◌, refl, sym, ap, ◌∙◌, inl, inr, Option, none, some, [], ◌∷◌, ◌++◌,
  ◌==◌, arith, length, Bool-cases,
}
use aircraft_malt.Beast.{
  Bytes, marker, type_to_message_len, skip_to_marker, Payload, complete, incomplete, corrupted,
  push, read_payload, Frame, Parsed, emit, parse_payload, parse_typed, parse_at, parse_beast_frames,
}
use aircraft_malt.Beast.Framing.{
  Leaves, read_payload-Leaves, length-skip_to_marker, parse_beast_frames_lem,
}

-- `buffer.extend(chunk); frames, buffer = parse_beast_frames(buffer)` after an earlier round.
abbrev pub then_chunk : Bytes → Parsed → Parsed
then_chunk chunk (frames, rest) =
    let (more, rest') = parse_beast_frames (rest ++ chunk) in (frames ++ more, rest')

skip-skip_append : (a b : Bytes) → skip_to_marker (skip_to_marker a ++ b) ≡ skip_to_marker (a ++ b)
unfolding skip_to_marker
skip-skip_append [] b = refl
skip-skip_append (x ∷ a) b = elim (Bool-cases (x == marker)) [
  | inl e ↦ rw e (rw e)
  | inr e ↦ rw e (skip-skip_append a b)
]

-- A buffer that is skipped to a non-empty rest is skipped so with more bytes behind it.
skip-append :
    (a b : Bytes) (x : ℕ) (s : Bytes)
    → skip_to_marker a ≡ x ∷ s
    → skip_to_marker (a ++ b) ≡ (x ∷ s) ++ b
unfolding skip_to_marker
skip-append [] b x s h = cc
skip-append (y ∷ a) b x s h = elim (Bool-cases (y == marker)) [
  | inl e ↦ rw e (ap (λ (t : Bytes). t ++ b) (rw e at h))
  | inr e ↦ rw e (skip-append a b x s (rw e at h))
]

-- More bytes behind the buffer change a payload that is read only if it was not complete.
abbrev extend : Bytes → Payload → Payload
extend chunk (complete decoded rest) = complete decoded (rest ++ chunk)
extend chunk incomplete = incomplete
extend chunk (corrupted rest) = corrupted (rest ++ chunk)

abbrev IsDone : Payload → Type 0
IsDone incomplete = ⊥
IsDone (complete _ _) = Unit
IsDone (corrupted _) = Unit

IsDone-push : (b : ℕ) (p : Payload) → IsDone (push b p) → IsDone p
IsDone-push b (complete _ _) h = tt
IsDone-push b incomplete h = h
IsDone-push b (corrupted _) h = tt

push-extend :
    (b : ℕ) (chunk : Bytes) (p : Payload) → push b (extend chunk p) ≡ extend chunk (push b p)
push-extend b chunk (complete _ _) = refl
push-extend b chunk incomplete = refl
push-extend b chunk (corrupted _) = refl

read_payload-append :
    (n : ℕ) (a b : Bytes)
    → IsDone (read_payload n a)
    → read_payload n (a ++ b) ≡ extend b (read_payload n a)
unfolding read_payload
read_payload-append zero a b d = refl
read_payload-append (suc n) [] b d = absurd d
read_payload-append (suc zero) (x ∷ []) [] d = ground arith
read_payload-append (suc zero) (x ∷ []) (c ∷ b) d = ground arith
read_payload-append (suc (suc n)) (x ∷ []) b d = elim (Bool-cases (x == marker)) [
  | inl e ↦ absurd (rw e at d)
  | inr e ↦ absurd (rw e at d)
]
read_payload-append (suc n) (x ∷ y ∷ a) b d = elim (Bool-cases (x == marker)) [
  | inl e ↦ elim (Bool-cases (y == marker)) [
    | inl e' ↦
        rw (e, e')
          (rw (read_payload-append n a b (IsDone-push marker (read_payload n a) (rw (e, e') at d)))
            (push-extend marker b (read_payload n a)))
    | inr e' ↦ rw (e, e')
  ]
  | inr e ↦ rw e (
      rw (read_payload-append n (y ∷ a) b (IsDone-push x (read_payload n (y ∷ a)) (rw e at d)))
        (push-extend x b (read_payload n (y ∷ a))))
]

-- The claim for one buffer: reading it and then the chunk is reading both.
abbrev Splits : Bytes → Bytes → Type 0
Splits chunk buffer =
    parse_beast_frames (buffer ++ chunk) ≡ then_chunk chunk (parse_beast_frames buffer)

emit-then_chunk :
    (chunk : Bytes) (f : Frame) (p : Parsed)
    → emit f (then_chunk chunk p) ≡ then_chunk chunk (emit f p)
emit-then_chunk chunk f (frames, rest) = refl

module _ (chunk start : Bytes)
    (hold : (tail : Bytes) → length tail < length start → Splits chunk tail) where
  parse_payload-append :
      (t n : ℕ) (rest : Bytes) (p : Payload)
      → length rest < length start
      → Leaves n rest p
      → IsDone p
      → parse_payload parse_beast_frames (start ++ chunk) t (rest ++ chunk) (extend chunk p)
        ≡ then_chunk chunk (parse_payload parse_beast_frames start t rest p)
  parse_payload-append t n rest (complete decoded tail) h l d =
      rw (hold tail (omega arith)) (emit-then_chunk chunk _ (parse_beast_frames tail))
  parse_payload-append t n rest incomplete h l d = absurd d
  parse_payload-append t n rest (corrupted tail) h l d = hold tail (omega arith)

module _ (chunk : Bytes) (b t : ℕ) (rest : Bytes)
    (hold : (tail : Bytes) → length tail < length (b ∷ t ∷ rest) → Splits chunk tail) where
  Splits-payload :
      (m : ℕ) (p : Payload)
      → read_payload (7 + m) rest ≡ p
      → parse_beast_frames ((b ∷ t ∷ rest) ++ chunk)
        ≡ parse_typed parse_beast_frames b t (rest ++ chunk) (some m)
      → parse_beast_frames ((b ∷ t ∷ rest) ++ chunk)
        ≡ then_chunk chunk (parse_payload parse_beast_frames (b ∷ t ∷ rest) t rest p)
  Splits-payload m incomplete e whole = refl
  Splits-payload m (complete decoded tail) e whole =
      whole
      ∙ rw (read_payload-append (7 + m) rest chunk (rw e tt), e)
          (parse_payload-append chunk (b ∷ t ∷ rest) hold t (7 + m) rest (complete decoded tail)
            (omega arith) (rw e at (read_payload-Leaves (7 + m) rest)) tt)
  Splits-payload m (corrupted tail) e whole =
      whole
      ∙ rw (read_payload-append (7 + m) rest chunk (rw e tt), e)
          (parse_payload-append chunk (b ∷ t ∷ rest) hold t (7 + m) rest (corrupted tail)
            (omega arith) (rw e at (read_payload-Leaves (7 + m) rest)) tt)

  Splits-typed :
      (o : Option ℕ)
      → parse_beast_frames ((b ∷ t ∷ rest) ++ chunk)
        ≡ parse_typed parse_beast_frames b t (rest ++ chunk) o
      → parse_beast_frames ((b ∷ t ∷ rest) ++ chunk)
        ≡ then_chunk chunk (parse_typed parse_beast_frames b t rest o)
  Splits-typed none whole = whole ∙ hold (t ∷ rest) (omega arith)
  Splits-typed (some m) whole = Splits-payload m (read_payload (7 + m) rest) refl whole

-- Only what is behind the first marker counts.
same :
    (chunk buffer s : Bytes)
    → skip_to_marker buffer ≡ s
    → parse_beast_frames (buffer ++ chunk) ≡ parse_beast_frames (s ++ chunk)
same chunk buffer s e =
    parse_beast_frames_lem (buffer ++ chunk)
    ∙ sym (
        parse_beast_frames_lem (s ++ chunk)
        ∙ ap (parse_at parse_beast_frames) (
            ap (λ (r : Bytes). skip_to_marker (r ++ chunk)) (sym e)
            ∙ skip-skip_append buffer chunk))

-- The three ways in which a buffer can look once it is skipped to a marker.
Splits-skipped :
    (chunk buffer s : Bytes)
    → skip_to_marker buffer ≡ s
    → ((tail : Bytes) → length tail < length s → Splits chunk tail)
    → parse_beast_frames (buffer ++ chunk) ≡ then_chunk chunk (parse_at parse_beast_frames s)
Splits-skipped chunk buffer [] e hold = same chunk buffer [] e
Splits-skipped chunk buffer (b ∷ []) e hold = same chunk buffer (b ∷ []) e
Splits-skipped chunk buffer (b ∷ t ∷ rest) e hold =
    same chunk buffer (b ∷ t ∷ rest) e
    ∙ Splits-typed chunk b t rest hold (type_to_message_len t) (
        sym (same chunk buffer (b ∷ t ∷ rest) e)
        ∙ parse_beast_frames_lem (buffer ++ chunk)
        ∙ ap (parse_at parse_beast_frames) (skip-append buffer chunk b (t ∷ rest) e))

below : (n : ℕ) (chunk buffer : Bytes) → length buffer < n → Splits chunk buffer
below zero chunk buffer h = elim h [ ]
below (suc n) chunk buffer h = rw (parse_beast_frames_lem buffer) (
    Splits-skipped chunk buffer (skip_to_marker buffer) refl
      λ tail l. below n chunk tail (omega (arith, length-skip_to_marker buffer)))

-- Reading a stream in two chunks, with what the first round keeps put before the second chunk,
-- gives the frames and the rest of one round over the whole stream.
pub parse_beast_frames-append :
    (buffer chunk : Bytes)
    → parse_beast_frames (buffer ++ chunk) ≡ then_chunk chunk (parse_beast_frames buffer)
parse_beast_frames-append buffer chunk = below (suc (length buffer)) chunk buffer (omega arith)
