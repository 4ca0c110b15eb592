-- ===== src/Correlation/Signal.antt =====
-- src/mlat_reference/correlation/correlator.py: `RawSignal`, its sort key and time differences.
use aircraft_malt.Prelude.{
  Bool, true, false, Option, none, some, List, [], ◌∷◌, Str, ℤ, ◌-ℤ◌, ltb_ℤ, sort_with,
  if◌then◌else◌,
}
use aircraft_malt.Float.{Floats}

pub record RawSignal (F : Type 0) : Type 0 where
  pub receiver_id : Str
  pub timestamp : F
  pub message : Str
  pub signal_strength : F
  pub timestamp_ns : Option ℤ
  pub clock_synchronized : Bool
  pub clock_source : Str
  pub clock_uncertainty_ns : Option F

-- The tuple `(0, timestamp_ns)` or `(1, timestamp)`.
pub data TimeKey (F : Type 0) : Type 0 where
  precise : ℤ → TimeKey F
  wall : F → TimeKey F

abbrev pub key_of : {F : Type 0} → Option ℤ → F → TimeKey F
key_of (some ns) timestamp = precise ns
key_of none timestamp = wall timestamp

unfoldable pub signal_time_key : {F : Type 0} → RawSignal F → TimeKey F
signal_time_key signal = key_of signal.timestamp_ns signal.timestamp

module _ (fl : Floats) where
  open fl use {F, lt, sub, ns_to_seconds}

  -- `key < other`, on tuples
  unfoldable pub key_lt : TimeKey F → TimeKey F → Bool
  key_lt (precise a) (precise b) = ltb_ℤ a b
  key_lt (precise a) (wall u) = true
  key_lt (wall t) (precise b) = false
  key_lt (wall t) (wall u) = lt t u

  unfoldable pub signal_before : RawSignal F → RawSignal F → Bool
  unfolding signal_time_key key_lt
  signal_before a b = key_lt (signal_time_key a) (signal_time_key b)

  -- `signals.sort(key=signal_time_key)`
  unfoldable pub sort_signals : List (RawSignal F) → List (RawSignal F)
  unfolding signal_before sort_with
  sort_signals = sort_with signal_before

  abbrev difference : Option ℤ → Option ℤ → F → F → F
  difference (some first_ns) (some last_ns) first last = ns_to_seconds (last_ns -ℤ first_ns)
  difference (some first_ns) none first last = sub last first
  difference none last_ns first last = sub last first

  -- The quotient of a difference of nanoseconds is finite for every time that a float can hold.
  unfoldable pub signal_time_difference_seconds : RawSignal F → RawSignal F → F
  unfolding ◌-ℤ◌
  signal_time_difference_seconds first last =
      difference first.timestamp_ns last.timestamp_ns first.timestamp last.timestamp

  -- Python's `max(a, b)` and `min(a, b)`: the first, unless the second is strictly beyond it.
  abbrev pub max_of : F → F → F
  max_of a b = if lt a b then b else a

  abbrev pub min_of : F → F → F
  min_of a b = if lt b a then b else a

  -- `max(xs)` and `min(xs)` of a list that begins with `x`
  abbrev pub max_all : F → List F → F
  max_all x [] = x
  max_all x (y ∷ ys) = max_all (max_of x y) ys

  abbrev pub min_all : F → List F → F
  min_all x [] = x
  min_all x (y ∷ ys) = min_all (min_of x y) ys
