-- ===== src/Ingest/FeedExamples.antt =====
-- A feed payload read on one connection.
use aircraft_malt.Prelude.{
  ℕ, ◌≡◌, refl, Bool, true, false, Option, none, some, List, [], ◌∷◌, Str, codes, lookup, str_eq,
  str_in, pos, ℤ, All, map,
}
use aircraft_malt.Float.Fixed.{fixed}
use aircraft_malt.Value.{Value, bool, int, str, list, dict, nil, cons, end, field, Result, ok, err}
use aircraft_malt.Registry.Json.{get}
use aircraft_malt.Ingest.Feed.{FeedRecord, Readers, normalize_feed_records}
use aircraft_malt.Ingest.Bound.{IsQualified, normalize_feed_records-IsQualified}

abbrev readers : Readers ℤ
readers = record {
  render = λ v. elim v as (λ _. Str) [ str s ↦ s | _ ↦ codes "1" ];
  int_of_text = λ s. none;
  truncate = λ x. ok (some x);
  float_of_text = λ s. none;
  iso_timestamp = λ s. none;
}

abbrev reading : Str → ℕ → Value ℤ
reading receiver ns = dict (
    field (codes "receiver_id") (str receiver) (
      field (codes "hex") (str (codes "8D")) (
        field (codes "timestamp_ns") (int false ns)
          (field (codes "clock_synchronized") (bool true) end))))

-- Of three readings one claims another receiver, and one has no time.
abbrev payload : Value ℤ
payload = dict (
    field (codes "records")
      (list (
        cons (reading (codes "N") 5)
          (cons (reading (codes "S") 6) (cons (reading (codes "N") 0) nil))))
      end)

abbrev read : FeedRecord ℤ → Str × Option ℤ × Bool
read r = (r.receiver_id, r.timestamp_ns, r.clock_synchronized)

abbrev records_of : Result (List (FeedRecord ℤ)) → List (FeedRecord ℤ)
records_of (ok rs) = rs
records_of (err e) = []

payload_read :
    map read (
      records_of (
        normalize_feed_records fixed readers
          (pos 9)
          (some (codes "N"))
          (some (codes "N" ∷ []))
          payload))
    ≡ (codes "N", some (pos 5), true) ∷ (codes "N", none, false) ∷ []
unfolding normalize_feed_records str_eq str_in lookup get
payload_read = refl

normalize_feed_records-IsQualified_example :
    All (IsQualified fixed readers (pos 9) (some (codes "N")) (some (codes "N" ∷ []))) (
      records_of (
        normalize_feed_records fixed readers
          (pos 9)
          (some (codes "N"))
          (some (codes "N" ∷ []))
          payload))
unfolding normalize_feed_records str_eq str_in lookup get
normalize_feed_records-IsQualified_example =
    normalize_feed_records-IsQualified fixed readers (pos 9) (some (codes "N"))
      (some (codes "N" ∷ [])) payload refl
