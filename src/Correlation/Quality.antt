-- ===== src/Correlation/Quality.antt =====
-- src/mlat_reference/correlation/correlator.py: `CorrelationQuality` and `_build_quality_metadata`.
use aircraft_malt.Prelude.{
  ℕ, ◌+◌, List, [], ◌∷◌, Str, codes, pos, length, map, max, str_in, if◌then◌else◌,
}
use aircraft_malt.Float.{Floats}
use aircraft_malt.Correlation.Signal.{
  RawSignal, signal_time_difference_seconds, max_of, min_of, max_all, min_all,
}

-- A list of signals that is not empty, in order.
pub record Cluster (F : Type 0) : Type 0 where
  pub first : RawSignal F
  pub later : List (RawSignal F)

-- `set(texts)`
unfoldable pub distinct : List Str → List Str
distinct [] = []
distinct (t ∷ ts) = let rest = distinct ts in if str_in t rest then rest else t ∷ rest

module _ {F : Type 0} where
  abbrev pub signals_of : Cluster F → List (RawSignal F)
  signals_of c = c.first ∷ c.later

  -- `signals[-1]`
  abbrev pub last_from : RawSignal F → List (RawSignal F) → RawSignal F
  last_from s [] = s
  last_from s (t ∷ ts) = last_from t ts

  unfoldable pub receiver_count : List (RawSignal F) → ℕ
  unfolding distinct str_in
  receiver_count signals = length (distinct (map (λ s. s.receiver_id) signals))

pub record CorrelationQuality (F : Type 0) : Type 0 where
  pub quality_score : F
  pub quality_bucket : Str
  pub receivers : ℕ
  pub correlation_time_span_s : F
  pub time_window_s : F
  pub min_receivers_required : ℕ
  pub mean_signal_strength : F
  pub signal_strength_span : F
  pub receiver_density_score : F
  pub span_score : F

module _ (fl : Floats) where
  open fl use {F, le, lt, literal, of_u64, add, sub, mul, div, sum}

  abbrev pub zero_f : F
  zero_f = literal (pos 0) 0

  abbrev pub one_f : F
  one_f = literal (pos 1) 0

  -- `max(0.0, min(1.0, x))`
  unfoldable pub clamp_unit : F → F
  clamp_unit x = max_of fl zero_f (min_of fl one_f x)

  -- `max(0.0, 1.0 - min(x, 1.0))`
  abbrev pub falling : F → F
  falling x = max_of fl zero_f (sub one_f (min_of fl x one_f))

  -- `max(xs) - min(xs) if len(xs) > 1 else 0.0`
  abbrev pub strength_span : F → List F → F
  strength_span x [] = zero_f
  strength_span x (y ∷ ys) = sub (max_all fl x (y ∷ ys)) (min_all fl x (y ∷ ys))

  unfoldable pub quality_bucket_of : F → Str
  quality_bucket_of score =
      if le (literal (pos 85) 2) score
      then codes "excellent"
      else if le (literal (pos 65) 2) score
      then codes "good"
      else if le (literal (pos 4) 1) score
      then codes "fair"
      else codes "poor"

  -- `_build_quality_metadata`
  unfoldable pub build_quality_metadata : ℕ → F → Cluster F → CorrelationQuality F
  unfolding receiver_count signal_time_difference_seconds clamp_unit quality_bucket_of
  build_quality_metadata min_receivers time_window c =
      let count = receiver_count (signals_of c) in
      let time_span = signal_time_difference_seconds fl c.first (last_from c.first c.later) in
      let strengths = map (λ s. s.signal_strength) c.later in
      let mean = div (sum (c.first.signal_strength ∷ strengths)) (of_u64 (length (signals_of c))) in
      let span = strength_span c.first.signal_strength strengths in
      let density = min_of fl one_f (div (of_u64 count) (of_u64 (max (min_receivers + 2) 1))) in
      let spread = if lt zero_f time_window then falling (div time_span time_window) else zero_f in
      let consistency = falling (div span (literal (pos 40) 0)) in
      let score = clamp_unit (
        add (add (mul density (literal (pos 45) 2)) (mul spread (literal (pos 4) 1)))
          (mul consistency (literal (pos 15) 2))) in
      record {
        quality_score = score;
        quality_bucket = quality_bucket_of score;
        receivers = count;
        correlation_time_span_s = time_span;
        time_window_s = time_window;
        min_receivers_required = min_receivers;
        mean_signal_strength = mean;
        signal_strength_span = span;
        receiver_density_score = density;
        span_score = spread;
      }
