-- ===== src/Correlation/Score.antt =====
-- The quality score lies between 0 and 1, whatever its parts are.
use aircraft_malt.Prelude.{ℕ, ◌≡◌, inl, inr, true, pos, Bool-cases, arith}
use aircraft_malt.Float.{Floats, IsIeee}
use aircraft_malt.Correlation.Signal.{min_of}
use aircraft_malt.Correlation.Quality.{Cluster, clamp_unit, zero_f, one_f, build_quality_metadata}

module _ (fl : Floats) where
  open fl use {F, le, lt, literal}

  abbrev pub InUnit : F → Type 0
  InUnit x = (le (zero_f fl) x ≡ true) × (le x (one_f fl) ≡ true)

  module _ (laws : IsIeee fl) where
    min_of-le : (x : F) → le (min_of fl (one_f fl) x) (one_f fl) ≡ true
    min_of-le x = elim (Bool-cases (lt x (one_f fl))) [
      | inl e ↦ rw e (laws.le_of_lt x (one_f fl) e)
      | inr e ↦ rw e (laws.literal_mono (pos 1) (pos 1) (omega arith))
    ]

    clamp_unit-InUnit : (x : F) → InUnit (clamp_unit fl x)
    unfolding clamp_unit
    clamp_unit-InUnit x =
        let y = min_of fl (one_f fl) x in
        elim (Bool-cases (lt (zero_f fl) y)) [
          | inl e ↦ rw e (laws.le_of_lt (zero_f fl) y e, min_of-le x)
          | inr e ↦ rw e (
            laws.literal_mono (pos 0) (pos 0) (omega arith),
            laws.literal_mono (pos 0) (pos 1) (omega arith),
          )
        ]

    -- The score of any cluster is between 0 and 1, even where a part of it is not a number.
    pub build_quality_metadata-InUnit :
        (min_receivers : ℕ) (time_window : F) (c : Cluster F)
        → InUnit (build_quality_metadata fl min_receivers time_window c).quality_score
    unfolding build_quality_metadata
    build_quality_metadata-InUnit n w c = clamp_unit-InUnit _
