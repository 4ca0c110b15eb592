-- ===== src/Ingest/Feed.antt =====
-- src/mlat_reference/ingest/feed_transports.py: `JsonFeedParsingMixin`. The grammars of numbers and
-- dates in texts, `str` on a value, and the clock's reading are arguments.
use aircraft_malt.Prelude.{
  Bool, true, false, ◌&&◌, Option, none, some, List, [], ◌∷◌, ◌++◌, Str, codes, Dict, lookup,
  str_eq, str_in, ◌==◌, pos, ltb_ℤ, ℤ, if◌then◌else◌,
}
use aircraft_malt.Float.{Floats}
use aircraft_malt.Value.{
  Value, Items, Fields, null, bool, int, float, str, list, dict, nil, cons, end, field, entries,
  signed, Result, ok, err, overflow_error, ◌>>=◌,
}
use aircraft_malt.Registry.Identity.{normalize_text}
use aircraft_malt.Registry.Json.{get}
use aircraft_malt.Ingest.Transport.{is_truthy}

pub record FeedRecord (F : Type 0) : Type 0 where
  pub receiver_id : Str
  pub timestamp : F
  pub timestamp_ns : Option ℤ
  pub clock_synchronized : Bool
  pub clock_source : Str
  pub clock_uncertainty_ns : Option F
  pub message : Str

-- What the interpreter and its library do with numbers and texts.
pub record Readers (F : Type 0) : Type 0 where
  -- `str(value)`
  pub render : Value F → Str
  -- `int(text)`; none is its ValueError
  pub int_of_text : Str → Option ℤ
  -- `int(x)`: none is the ValueError of a NaN, an error the OverflowError of an infinity
  pub truncate : F → Result (Option ℤ)
  -- `float(text)`; none is its ValueError
  pub float_of_text : Str → Option F
  -- `datetime.fromisoformat(text.replace("Z", "+00:00")).timestamp()`; none is its ValueError
  pub iso_timestamp : Str → Option F

abbrev starts_with_0x : Str → Bool
starts_with_0x (a ∷ b ∷ s) = a == b'0' && b == b'x'
starts_with_0x _ = false

-- A claimed or configured identifier: an identity is brought to its normal form, and the record is
-- dropped, which is `none`, if it has none.
unfoldable pub normalize_id : Option Str → Option (Option Str)
normalize_id none = some none
normalize_id (some s) =
    if starts_with_0x s
    then (elim (normalize_text s) [ ok identity ↦ some (some identity) | err e ↦ none ])
    else some (some s)

-- The receiver that the connection is bound to and the one that the record claims: two different
-- ones are a conflict. A text that is empty is as none.
unfoldable pub agreed_id : Option Str → Option Str → Option Str
agreed_id (some bound) (some claimed) = if str_eq claimed bound then some bound else none
agreed_id (some []) none = none
agreed_id (some (c ∷ s)) none = some (c ∷ s)
agreed_id none claimed = claimed

unfoldable pub check_allowed : Option (List Str) → Option Str → Option Str
check_allowed allowed none = none
check_allowed none (some id) = some id
check_allowed (some ids) (some id) = if str_in id ids then some id else none

abbrev pub bound_id : Option (List Str) → Option (Option Str) → Option (Option Str) → Option Str
bound_id allowed none bound = none
bound_id allowed (some claimed) none = none
bound_id allowed (some claimed) (some bound) = check_allowed allowed (agreed_id bound claimed)

-- `_bound_receiver_id`
unfoldable pub bound_receiver_id : Option Str → Option Str → Option (List Str) → Option Str
unfolding normalize_id agreed_id check_allowed
bound_receiver_id claimed default allowed =
    bound_id allowed (normalize_id claimed) (normalize_id default)

module _ (fl : Floats) (readers : Readers fl.F) where
  open fl use {F, is_finite, le, literal, of_int, ns_to_seconds}

  -- `a or b`
  abbrev pub or_value : Value F → Value F → Value F
  or_value a b = if is_truthy fl a then a else b

  -- `int(value)`: none is a TypeError or ValueError
  abbrev int_of : Value F → Result (Option ℤ)
  int_of (int minus n) = ok (some (signed minus n))
  int_of (float x) = readers.truncate x
  int_of (str s) = ok (readers.int_of_text s)
  int_of _ = ok none

  -- `float(value)`: none is a TypeError or ValueError
  abbrev float_of_int : Option F → Result (Option F)
  float_of_int none = err overflow_error
  float_of_int (some x) = ok (some x)

  abbrev pub float_of : Value F → Result (Option F)
  float_of (int minus n) = float_of_int (of_int (signed minus n))
  float_of (float x) = ok (some x)
  float_of (str s) = ok (readers.float_of_text s)
  float_of _ = ok none

  abbrev pub keep_positive : Option ℤ → Option ℤ
  keep_positive none = none
  keep_positive (some n) = if ltb_ℤ (pos 0) n then some n else none

  -- `parse_timestamp_ns`
  unfoldable pub parse_timestamp_ns : Value F → Result (Option ℤ)
  parse_timestamp_ns (int minus n) = ok (keep_positive (some (signed minus n)))
  parse_timestamp_ns (float x) = do parsed ← int_of (float x); ok (keep_positive parsed)
  parse_timestamp_ns (str s) = ok (keep_positive (readers.int_of_text s))
  parse_timestamp_ns _ = ok none

  abbrev pub keep_uncertainty : Option F → Option F
  keep_uncertainty none = none
  keep_uncertainty (some x) = if is_finite x && le (literal (pos 0) 0) x then some x else none

  -- `parse_optional_float`; `float_of` has no value for None, and a bool is turned away first.
  unfoldable pub parse_optional_float : Value F → Result (Option F)
  parse_optional_float (bool b) = ok none
  parse_optional_float v = do parsed ← float_of v; ok (keep_uncertainty parsed)

  abbrev or_now : F → Option F → F
  or_now now none = now
  or_now now (some x) = x

  abbrev float_or_iso : Option F → Option F → Option F
  float_or_iso none iso = iso
  float_or_iso (some x) iso = some x

  -- `parse_timestamp`, at the time `now`
  unfoldable pub parse_timestamp : F → Value F → Result F
  parse_timestamp now (bool b) = ok (if b then literal (pos 1) 0 else literal (pos 0) 0)
  parse_timestamp now (int minus n) = do
    x ← float_of_int (of_int (signed minus n))
    ok (or_now now x)
  parse_timestamp now (float x) = ok x
  parse_timestamp now (str s) =
      ok (or_now now (float_or_iso (readers.float_of_text s) (readers.iso_timestamp s)))
  parse_timestamp now _ = ok now

  -- `timestamp_ns / 1_000_000_000.0`
  abbrev pub seconds_of : ℤ → Result F
  seconds_of ns = elim (of_int ns) [ none ↦ err overflow_error | some x ↦ ok (ns_to_seconds ns) ]

  abbrev pub is_true : Value F → Bool
  is_true (bool b) = b
  is_true _ = false

  abbrev pub has_time : Option ℤ → Bool
  has_time none = false
  has_time (some ns) = true

  module _ (now : F) (default : Option Str) (allowed : Option (List Str)) where
    -- The message, if it is an object, is one of its members.
    abbrev message_value : Value F → Value F
    message_value (dict fs) =
        or_value (get (codes "hex") (entries fs))
          (or_value (get (codes "raw") (entries fs)) (get (codes "frame") (entries fs)))
    message_value v = v

    abbrev pub message_of : Dict (Value F) → Value F
    message_of payload = or_value (message_value (get (codes "message") payload)) (
        or_value (get (codes "hex") payload) (
          or_value (get (codes "raw") payload)
            (or_value (get (codes "frame") payload) (get (codes "payload") payload))))

    abbrev pub claimed_of : Dict (Value F) → Option Str
    claimed_of payload =
        let claimed = or_value (get (codes "receiver_id") payload) (
          or_value (get (codes "receiver") payload)
            (or_value (get (codes "sensor_id") payload) (get (codes "source") payload))) in
        if is_truthy fl claimed then some (readers.render claimed) else none

    abbrev pub timestamp_of : Option ℤ → Dict (Value F) → Result F
    timestamp_of (some ns) payload = seconds_of ns
    timestamp_of none payload = parse_timestamp now (
        or_value (get (codes "timestamp") payload) (
          or_value (get (codes "time") payload)
            (or_value (get (codes "ts") payload) (get (codes "observed_at") payload))))

    -- The record of an object whose receiver and message are known.
    unfoldable pub read_record : Dict (Value F) → Str → Value F → Result (List (FeedRecord F))
    unfolding is_truthy parse_timestamp_ns parse_optional_float parse_timestamp
    read_record payload receiver_id message = do
      timestamp_ns ← parse_timestamp_ns (get (codes "timestamp_ns") payload)
      timestamp ← timestamp_of timestamp_ns payload
      uncertainty ← parse_optional_float (get (codes "clock_uncertainty_ns") payload)
      ok (
          record {
            receiver_id = receiver_id;
            timestamp = timestamp;
            timestamp_ns = timestamp_ns;
            clock_synchronized =
                has_time timestamp_ns && is_true (get (codes "clock_synchronized") payload);
            clock_source =
                readers.render
                  (or_value (get (codes "clock_source") payload) (str (codes "unknown")));
            clock_uncertainty_ns = uncertainty;
            message = readers.render message;
          }
          ∷ [])

    abbrev pub read_bound : Dict (Value F) → Value F → Option Str → Result (List (FeedRecord F))
    read_bound payload message none = ok []
    read_bound payload message (some []) = ok []
    read_bound payload message (some (c ∷ id)) =
        let found = read_record payload (c ∷ id) message in
        if is_truthy fl message then found else ok []

    -- An object that is no container.
    unfoldable pub read_object : Dict (Value F) → Result (List (FeedRecord F))
    unfolding read_record bound_receiver_id
    read_object payload =
        read_bound payload (message_of payload)
          (bound_receiver_id (claimed_of payload) default allowed)

    abbrev pub is_list : Value F → Bool
    is_list (list vs) = true
    is_list _ = false

    abbrev pub is_container : Value F → Bool
    is_container (list vs) = true
    is_container (dict fs) = true
    is_container _ = false

    abbrev pub found_in : Option (Result (List (FeedRecord F))) → Result (List (FeedRecord F))
    found_in none = ok []
    found_in (some records) = records

    abbrev pub found_at : Str → Dict (Result (List (FeedRecord F))) → Result (List (FeedRecord F))
    found_at key nested = found_in (lookup key nested)

    abbrev pub or_object :
        Result (List (FeedRecord F)) → Result (List (FeedRecord F)) → Result (List (FeedRecord F))
    or_object (err e) object = err e
    or_object (ok []) object = object
    or_object (ok (r ∷ rs)) object = ok (r ∷ rs)

    -- An object, with what its members would be read to.
    unfoldable pub normalize_object :
        Dict (Value F) → Dict (Result (List (FeedRecord F))) → Result (List (FeedRecord F))
    unfolding read_object
    normalize_object payload nested =
        if is_list (get (codes "records") payload)
        then found_at (codes "records") nested
        else if is_container (get (codes "data") payload)
        then or_object (found_at (codes "data") nested) (read_object payload)
        else read_object payload

    -- `normalize_feed_records`
    unfoldable mutual
      unfolding normalize_object

      pub normalize_feed_records : Value F → Result (List (FeedRecord F))
      normalize_feed_records (list vs) = normalize_items vs
      normalize_feed_records (dict fs) = normalize_object (entries fs) (normalize_members fs)
      normalize_feed_records null = ok []
      normalize_feed_records (bool b) = ok []
      normalize_feed_records (int minus n) = ok []
      normalize_feed_records (float x) = ok []
      normalize_feed_records (str s) = ok []

      pub normalize_items : Items F → Result (List (FeedRecord F))
      normalize_items nil = ok []
      normalize_items (cons v vs) =
          let rest = normalize_items vs in
          normalize_feed_records v >>= λ xs. rest >>= λ ys. ok (xs ++ ys)

      pub normalize_members : Fields F → Dict (Result (List (FeedRecord F)))
      normalize_members end = []
      normalize_members (field k v fs) = (k, normalize_feed_records v) ∷ normalize_members fs

    -- `dispatch_feed_payload`: the records that the callback is called with; a payload that is no
    -- JSON is passed over.
    unfoldable pub dispatch_feed_payload :
        (Str → Option (Value F)) → Str → Result (List (FeedRecord F))
    unfolding normalize_feed_records
    dispatch_feed_payload json_loads raw_payload = elim (json_loads raw_payload) [
      | none ↦ ok []
      | some payload ↦ normalize_feed_records payload
    ]
