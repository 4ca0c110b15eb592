-- ===== src/Correlation/Buffer.antt =====
-- Which signals the buffer keeps.
use aircraft_malt.Prelude.{
  ◌≡◌, ◌∙◌, refl, inl, inr, ◌⊎◌, true, List, [], ◌∷◌, ◌++◌, All, keep_if, map, Bool-cases,
}
use aircraft_malt.Float.{Floats, IsIeee}
use aircraft_malt.Correlation.Signal.{RawSignal, max_of, max_all}
use aircraft_malt.Correlation.Correlator.{SignalCorrelator, drop_old, add_signal}
use aircraft_malt.Correlation.Order.{HasTime}

module _ (fl : Floats) where
  open fl use {F, le, lt, sub, is_finite}

  -- One of the signals has this time.
  abbrev pub HasSignalAt : F → List (RawSignal F) → Type 0
  HasSignalAt t [] = ⊥
  HasSignalAt t (s ∷ ss) = (t ≡ s.timestamp) ⊎ HasSignalAt t ss

  -- The time of the newest signal.
  pub record IsNewest (t : F) (ss : List (RawSignal F)) : Type 0 where
    pub held : HasSignalAt t ss
    pub newest : All (λ s. le s.timestamp t ≡ true) ss

  module _ (laws : IsIeee fl) where
    max_of-bounds :
        (a b : F)
        → is_finite a ≡ true
        → is_finite b ≡ true
        → (le a (max_of fl a b) ≡ true)
          × (le b (max_of fl a b) ≡ true)
          × (is_finite (max_of fl a b) ≡ true)
    max_of-bounds a b p q = elim (Bool-cases (lt a b)) [
      | inl e ↦ rw e (laws.le_of_lt a b e, laws.le_refl b q, q)
      | inr e ↦ rw e (laws.le_refl a p, laws.lt_flip a b p q e, p)
    ]

    max_of-held :
        (a : F) (s : RawSignal F)
        → (max_of fl a s.timestamp ≡ a) ⊎ (max_of fl a s.timestamp ≡ s.timestamp)
    max_of-held a s = elim (Bool-cases (lt a s.timestamp)) [
      | inl e ↦ inr (rw e)
      | inr e ↦ inl (rw e)
    ]

    -- What the maximum over a start and some signals is.
    record IsMax (a m : F) (ss : List (RawSignal F)) : Type 0 where
      start : le a m ≡ true
      held : (m ≡ a) ⊎ HasSignalAt m ss
      newest : All (λ s. le s.timestamp m ≡ true) ss

    max_all-IsMax :
        (a : F) (ss : List (RawSignal F))
        → is_finite a ≡ true
        → All (HasTime fl) ss
        → IsMax a (max_all fl a (map (λ s. s.timestamp) ss)) ss
    max_all-IsMax a [] p qs = record { start = laws.le_refl a p; held = inl refl; newest = tt }
    max_all-IsMax a (s ∷ ss) p qs =
        let b = max_of fl a s.timestamp in
        let (left, right, finite) = max_of-bounds a s.timestamp p qs.0 in
        let ih = max_all-IsMax b ss finite qs.1 in
        let m = max_all fl b (map (λ t. t.timestamp) ss) in
        record {
          start = laws.le_trans a b m left ih.start;
          held = elim ih.held [
            | inl e ↦ elim (max_of-held a s) [ inl k ↦ inl (e ∙ k) | inr k ↦ inr (inl (e ∙ k)) ]
            | inr h ↦ inr (inr h)
          ];
          newest = (laws.le_trans s.timestamp b m right ih.start, ih.newest);
        }

    drop_old-recent :
        (duration : F) (s : RawSignal F) (ss : List (RawSignal F))
        → All (HasTime fl) (s ∷ ss)
        → (t : F) × IsNewest t (s ∷ ss)
          × (drop_old fl duration (s ∷ ss)
              ≡ keep_if (λ r. le (sub t duration) r.timestamp) (s ∷ ss))
    unfolding drop_old
    drop_old-recent duration s ss times =
        let m = max_all-IsMax s.timestamp ss times.0 times.1 in
        (
          max_all fl s.timestamp (map (λ r. r.timestamp) ss),
          record { held = m.held; newest = (m.start, m.newest) },
          refl,
        )

    drop_old-appended :
        (duration : F) (s : RawSignal F) (old : List (RawSignal F))
        → All (HasTime fl) (old ++ s ∷ [])
        → (t : F) × IsNewest t (old ++ s ∷ [])
          × (drop_old fl duration (old ++ s ∷ [])
              ≡ keep_if (λ r. le (sub t duration) r.timestamp) (old ++ s ∷ []))
    drop_old-appended duration s [] times = drop_old-recent duration s [] times
    drop_old-appended duration s (r ∷ old) times = drop_old-recent duration r (old ++ s ∷ []) times

    -- If all times are finite, then a signal that is added leaves in the buffer exactly the signals,
    -- the new one among them, whose time is at least that of the newest less the buffer's duration,
    -- in their order.
    pub add_signal-recent :
        (s : RawSignal F) (c : SignalCorrelator F)
        → All (HasTime fl) (c.signal_buffer ++ s ∷ [])
        → (t : F) × IsNewest t (c.signal_buffer ++ s ∷ [])
          × ((add_signal fl s c).signal_buffer
              ≡ keep_if (λ r. le (sub t c.buffer_duration) r.timestamp) (c.signal_buffer ++ s ∷ []))
    unfolding add_signal
    add_signal-recent s c times = drop_old-appended c.buffer_duration s c.signal_buffer times
