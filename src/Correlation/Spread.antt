-- ===== src/Correlation/Spread.antt =====
-- How far apart the signals of a group with precise times are.
use aircraft_malt.Prelude.{◌≡◌, true, some, List, [], ◌∷◌, All, ℤ}
use aircraft_malt.Float.{Floats}
use aircraft_malt.Correlation.Signal.{RawSignal}
use aircraft_malt.Correlation.Runs.{is_within}
use aircraft_malt.Correlation.Candidates.{Group}

abbrev pub HasNs : {F : Type 0} → RawSignal F → Type 0
HasNs s = (ns : ℤ) × (s.timestamp_ns ≡ some ns)

module _ (fl : Floats) where
  open fl use {F, le, ns_to_seconds}

  -- Every signal is within the window of every earlier one.
  abbrev pub AllWithin : F → List (RawSignal F) → Type 0
  AllWithin time_window [] = Unit
  AllWithin time_window (s ∷ ss) =
      All (λ t. is_within fl time_window s t ≡ true) ss × AllWithin time_window ss

  -- If all signals of the group have a precise time, each two of them are within the window.
  abbrev pub IsTight : F → Group fl → Type 0
  IsTight time_window g = All HasNs g.signals → AllWithin time_window g.signals
