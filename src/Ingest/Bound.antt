-- ===== src/Ingest/Bound.antt =====
-- Whose records a feed connection passes on, and what their clocks are.
use aircraft_malt.Prelude.{
  ◌≡◌, refl, inl, inr, Option, none, some, List, [], ◌∷◌, ◌++◌, Str, codes, Dict, lookup, All,
  All-append, Bool-cases,
}
use mathlib.Core.Path.{subst}
use aircraft_malt.Float.{Floats}
use aircraft_malt.Value.{
  Value, Items, Fields, null, bool, int, float, str, list, dict, nil, cons, end, field, entries,
  Result, ok, err, ◌>>=◌,
}
use aircraft_malt.Registry.Json.{get}
use aircraft_malt.Ingest.Transport.{is_truthy}
use aircraft_malt.Ingest.Feed.{
  FeedRecord, Readers, normalize_id, bound_receiver_id, parse_timestamp_ns, parse_optional_float,
  read_record, read_object, found_at, found_in, or_object, is_list, is_container, normalize_object,
  normalize_feed_records, normalize_items, normalize_members, message_of, claimed_of, timestamp_of,
  read_bound,
}
use aircraft_malt.Ingest.Permitted.{
  IsPermitted, IsBoundTo, bound_id_lem, IsTimed, IsUncertainty, parse_timestamp_ns_lem,
  parse_optional_float_lem, lookup-All,
}

module _ (fl : Floats) (readers : Readers fl.F) where
  open fl use {F, is_finite, le, literal}

  module _ (now : F) (default : Option Str) (allowed : Option (List Str)) where
    -- The record's receiver is one that the connection may speak for, and the one that it is bound
    -- to if it is bound; a clock that counts as synchronised gave a time, and an uncertainty is
    -- finite and not below 0.
    pub record IsQualified (r : FeedRecord F) : Type 0 where
      pub permitted : IsPermitted allowed r.receiver_id
      pub bound : IsBoundTo (normalize_id default) r.receiver_id
      pub timed : IsTimed r.clock_synchronized r.timestamp_ns
      pub certain : IsUncertainty fl readers r.clock_uncertainty_ns

    abbrev AllOk : Result (List (FeedRecord F)) → Type 0
    AllOk (ok rs) = All IsQualified rs
    AllOk (err e) = Unit

    AllOk-bind :
        {V : Type 0} (call : Result V) (rest : V → Result (List (FeedRecord F)))
        → ((v : V) → call ≡ ok v → AllOk (rest v))
        → AllOk (call >>= rest)
    AllOk-bind (err e) rest h = tt
    AllOk-bind (ok v) rest h = h v refl

    read_record-IsQualified :
        (payload : Dict (Value F)) (id : Str) (message : Value F)
        → IsPermitted allowed id
        → IsBoundTo (normalize_id default) id
        → AllOk (read_record fl readers now default allowed payload id message)
    unfolding read_record
    read_record-IsQualified payload id message h k =
        AllOk-bind (parse_timestamp_ns fl readers (get (codes "timestamp_ns") payload)) _
          (λ ns timed.
            AllOk-bind (timestamp_of fl readers now default allowed ns payload) _ (λ timestamp _.
              AllOk-bind
                (parse_optional_float fl readers (get (codes "clock_uncertainty_ns") payload)) _
                (λ uncertainty certain. (
                  record {
                    permitted = h;
                    bound = k;
                    timed =
                        parse_timestamp_ns_lem fl readers (get (codes "timestamp_ns") payload) _
                          timed;
                    certain =
                        parse_optional_float_lem fl readers
                          (get (codes "clock_uncertainty_ns") payload) certain;
                  },
                  tt,
                ))))

    read_bound-IsQualified :
        (payload : Dict (Value F)) (message : Value F) (id : Option Str)
        → ((c : Str) → id ≡ some c → IsPermitted allowed c × IsBoundTo (normalize_id default) c)
        → AllOk (read_bound fl readers now default allowed payload message id)
    read_bound-IsQualified payload message none h = tt
    read_bound-IsQualified payload message (some []) h = tt
    read_bound-IsQualified payload message (some (c ∷ id)) h =
        let (permitted, bound) = h (c ∷ id) refl in
        elim (Bool-cases (is_truthy fl message)) [
          | inl e ↦ rw e (read_record-IsQualified payload (c ∷ id) message permitted bound)
          | inr e ↦ rw e tt
        ]

    read_object-IsQualified :
        (payload : Dict (Value F)) → AllOk (read_object fl readers now default allowed payload)
    unfolding read_object bound_receiver_id
    read_object-IsQualified payload =
        let claimed = claimed_of fl readers now default allowed payload in
        read_bound-IsQualified payload (message_of fl readers now default allowed payload)
          (bound_receiver_id claimed default allowed)
          (λ id e. bound_id_lem allowed (normalize_id claimed) (normalize_id default) e)

    AllOk-found_in :
        (found : Option (Result (List (FeedRecord F))))
        → ((r : Result (List (FeedRecord F))) → found ≡ some r → AllOk r)
        → AllOk (found_in fl readers now default allowed found)
    AllOk-found_in none h = tt
    AllOk-found_in (some r) h = h r refl

    AllOk-found_at :
        (key : Str) (nested : Dict (Result (List (FeedRecord F))))
        → All (λ e. AllOk e.1) nested
        → AllOk (found_at fl readers now default allowed key nested)
    AllOk-found_at key nested h =
        AllOk-found_in (lookup key nested) (λ r e. lookup-All AllOk key nested h e)

    AllOk-or_object :
        (found object : Result (List (FeedRecord F)))
        → AllOk found
        → AllOk object
        → AllOk (or_object fl readers now default allowed found object)
    AllOk-or_object (err e) object h k = tt
    AllOk-or_object (ok []) object h k = k
    AllOk-or_object (ok (r ∷ rs)) object h k = h

    normalize_object-IsQualified :
        (payload : Dict (Value F)) (nested : Dict (Result (List (FeedRecord F))))
        → All (λ e. AllOk e.1) nested
        → AllOk (normalize_object fl readers now default allowed payload nested)
    unfolding normalize_object
    normalize_object-IsQualified payload nested h =
        let object = read_object-IsQualified payload in
        elim (Bool-cases (is_list fl readers now default allowed (get (codes "records") payload))) [
          | inl e ↦ rw e (AllOk-found_at (codes "records") nested h)
          | inr e ↦
              rw e
                (elim (Bool-cases
                  (is_container fl readers now default allowed (get (codes "data") payload))) [
                    | inl c ↦
                        rw c (AllOk-or_object _ _ (AllOk-found_at (codes "data") nested h) object)
                    | inr c ↦ rw c object
                  ])
        ]

    AllOk-append :
        (found rest : Result (List (FeedRecord F)))
        → AllOk found
        → AllOk rest
        → AllOk (found >>= λ xs. rest >>= λ ys. ok (xs ++ ys))
    AllOk-append (err e) rest h k = tt
    AllOk-append (ok xs) (err e) h k = tt
    AllOk-append (ok xs) (ok ys) h k = All-append IsQualified xs ys h k

    mutual
      unfolding normalize_feed_records

      value-AllOk : (v : Value F) → AllOk (normalize_feed_records fl readers now default allowed v)
      value-AllOk (list vs) = items-AllOk vs
      value-AllOk (dict fs) = normalize_object-IsQualified (entries fs) _ (members-AllOk fs)
      value-AllOk null = tt
      value-AllOk (bool b) = tt
      value-AllOk (int minus n) = tt
      value-AllOk (float x) = tt
      value-AllOk (str s) = tt

      items-AllOk : (vs : Items F) → AllOk (normalize_items fl readers now default allowed vs)
      items-AllOk nil = tt
      items-AllOk (cons v vs) = AllOk-append _ _ (value-AllOk v) (items-AllOk vs)

      members-AllOk :
          (fs : Fields F)
          → All (λ e. AllOk e.1) (normalize_members fl readers now default allowed fs)
      members-AllOk end = tt
      members-AllOk (field k v fs) = (value-AllOk v, members-AllOk fs)

    -- A payload that a connection reads, however deep its lists and objects nest, gives only records
    -- of receivers that the connection permits, and of the one that it is bound to if it is bound;
    -- a record whose clock counts as synchronised has a time above 0, and its uncertainty, if it
    -- has one, is finite and not below 0.
    pub normalize_feed_records-IsQualified :
        (payload : Value F) {rs : List (FeedRecord F)}
        → normalize_feed_records fl readers now default allowed payload ≡ ok rs
        → All IsQualified rs
    normalize_feed_records-IsQualified payload h = subst AllOk h (value-AllOk payload)
