-- ===== src/Ingest/Strip.antt =====
-- The Python method `str.strip`.
use aircraft_malt.Prelude.{ℕ, ◌≡◌, refl, ap, ◌∙◌, inl, inr, [], ◌∷◌, Str, Bool-cases}
use aircraft_malt.Ingest.Transport.{is_text_space, before_stripped, strip_left, strip_right, strip}

tail : Str → Str
tail [] = []
tail (c ∷ s) = s

before_stripped_idem :
    (c : ℕ) (r : Str) → strip_right r ≡ r → strip_right (before_stripped c r) ≡ before_stripped c r
unfolding strip_right
before_stripped_idem c [] h = elim (Bool-cases (is_text_space c)) [
  | inl e ↦ rw e refl
  | inr e ↦ rw e (rw e refl)
]
before_stripped_idem c (d ∷ r) h = ap (before_stripped c) h

strip_right_idem : (s : Str) → strip_right (strip_right s) ≡ strip_right s
unfolding strip_right
strip_right_idem [] = refl
strip_right_idem (c ∷ s) = before_stripped_idem c (strip_right s) (strip_right_idem s)

before_stripped-tail : (c : ℕ) (r s : Str) → before_stripped c r ≡ c ∷ s → r ≡ s
before_stripped-tail c [] s h = elim (Bool-cases (is_text_space c)) [
  | inl e ↦ absurd (let k = (rw e at h) in cc)
  | inr e ↦ (let k = (rw e at h) in cc)
]
before_stripped-tail c (d ∷ r) s h = cc

strip_right-tail : (c : ℕ) (s : Str) → strip_right (c ∷ s) ≡ c ∷ s → strip_right s ≡ s
unfolding strip_right
strip_right-tail c s h = before_stripped-tail c (strip_right s) s h

strip_left-trimmed : (s : Str) → strip_right s ≡ s → strip_right (strip_left s) ≡ strip_left s
unfolding strip_left
strip_left-trimmed [] h = h
strip_left-trimmed (c ∷ s) h = elim (Bool-cases (is_text_space c)) [
  | inl e ↦ rw e (strip_left-trimmed s (strip_right-tail c s h))
  | inr e ↦ rw e h
]

strip_left_idem : (s : Str) → strip_left (strip_left s) ≡ strip_left s
unfolding strip_left
strip_left_idem [] = refl
strip_left_idem (c ∷ s) = elim (Bool-cases (is_text_space c)) [
  | inl e ↦ rw e (strip_left_idem s)
  | inr e ↦ rw e (rw e refl)
]

pub strip_idem : (s : Str) → strip (strip s) ≡ strip s
unfolding strip
strip_idem s =
    ap strip_left (strip_left-trimmed (strip_right s) (strip_right_idem s))
    ∙ strip_left_idem (strip_right s)
