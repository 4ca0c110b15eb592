-- ===== src/Trial/Ready.antt =====
-- What a configuration that `load_receiver_config` accepted for a trial holds.
use aircraft_malt.Prelude.{
  ℕ, ◌+◌, ◌≤◌, ◌≡◌, sym, ap, ◌==◌, inl, inr, Bool, true, false, not, ◌&&◌, Option, List, [], ◌∷◌,
  ◌++◌, map, Str, codes, Dict, str_eq, str_in, leb, length, length-append, any_of, any_of-none, All,
  All-append, Pairwise, Pairwise-snoc, Bool-cases, ℤ, pos, negsuc, arith, leb→le,
}
use mathlib.Core.Path.{subst}
use aircraft_malt.Float.{Floats}
use aircraft_malt.Value.{
  Value, null, bool, int, float, str, list, dict, items, entries, Result, ok, err, ok_injective,
  require, require-eq-ok, >>=-eq-ok, >>-eq-ok, example_identity, duplicate_receiver, bad_sensor_id,
  duplicate_sensor, bad_host, bad_port, duplicate_endpoint,
}
use aircraft_malt.Registry.Identity.{
  is_between, IsCanonical, normalize_text, normalize_text_lem, normalize_receiver_identity,
}
use aircraft_malt.Registry.Json.{get}
use aircraft_malt.Ingest.Feed.{Readers}
use aircraft_malt.Numbers.{Numerals, integer}
use aircraft_malt.Trial.Clock.{validate_clock}
use aircraft_malt.Trial.Calibration.{Calibration, IsCalibrated, IsQualified}
use aircraft_malt.Trial.Evidence.{not-true}
use aircraft_malt.Trial.Qualified.{validate_clock-IsQualified}
use aircraft_malt.Trial.Config.{
  Accepted, example_identities, port_of, registry_identity, is_sensor, is_host, as_dict,
  receivers_at_least, receivers_in, text_at, check_fields, check_receiver, accept_all,
  load_receiver_config,
}

module _ {F : Type 0} where
  -- Two receivers have different identities, sensors and endpoints.
  pub record Differ (a b : Accepted F) : Type 0 where
    pub identity : str_eq a.identity b.identity ≡ false
    pub sensor_id : str_eq a.sensor_id b.sensor_id ≡ false
    pub endpoint : (str_eq a.host b.host && a.port == b.port) ≡ false

module _ (fl : Floats) (digest_of : Str → Option Str) (max_uncertainty_ns : fl.F) (now_ns : ℤ) where
  open fl use {F}

  -- A receiver that can take part in a trial.
  pub record IsReady (a : Accepted F) : Type 0 where
    pub identity : IsCanonical a.identity
    pub registered : str_in a.identity example_identities ≡ false
    pub sensor_id : is_sensor a.sensor_id ≡ true
    pub host : is_host a.host ≡ true
    pub port : is_between 1 65535 a.port ≡ true
    pub clock :
        (cal : Calibration F) × IsCalibrated cal a.clock
        × IsQualified fl digest_of max_uncertainty_ns now_ns cal

All-Differ :
    {F : Type 0}
    → (seen : List (Accepted F)) (a : Accepted F)
    → All (λ b. str_eq b.identity a.identity ≡ false) seen
    → All (λ b. str_eq b.sensor_id a.sensor_id ≡ false) seen
    → All (λ b. (str_eq b.host a.host && b.port == a.port) ≡ false) seen
    → All (λ b. Differ b a) seen
All-Differ [] a h k l = tt
All-Differ (b ∷ seen) a h k l =
    (record { identity = h.0; sensor_id = k.0; endpoint = l.0 }, All-Differ seen a h.1 k.1 l.1)

port_of-between : (n : ℤ) {port : ℕ} → port_of n ≡ ok port → is_between 1 65535 port ≡ true
unfolding port_of
port_of-between (negsuc n) h = cc
port_of-between (pos n) h = elim (Bool-cases (is_between 1 65535 n)) [
  | inl e ↦ subst (λ p. is_between 1 65535 p ≡ true) (ok_injective (rw e at h)) e
  | inr e ↦ absurd (let k = (rw e at h) in cc)
]

text-IsCanonical : (r : Result Str) {t : Str} → registry_identity r ≡ ok t → r ≡ ok t
text-IsCanonical (ok s) h = h
text-IsCanonical (err e) h = cc

identity-IsCanonical :
    {F : Type 0}
    → (v : Value F) {t : Str} → registry_identity (normalize_receiver_identity v) ≡ ok t
    → IsCanonical t
unfolding normalize_receiver_identity
identity-IsCanonical (str s) {t} h =
    (normalize_text_lem s t (text-IsCanonical (normalize_text s) h)).0
identity-IsCanonical null h = cc
identity-IsCanonical (bool b) h = cc
identity-IsCanonical (int minus n) h = cc
identity-IsCanonical (float x) h = cc
identity-IsCanonical (list vs) h = cc
identity-IsCanonical (dict fs) h = cc

receivers_at_least-many :
    {F : Type 0}
    → (v : Value F) (vs : List (Value F)) → receivers_at_least 4 v ≡ ok vs
    → 4 ≤ length vs
receivers_at_least-many (list us) vs h = elim (Bool-cases (leb 4 (length (items us)))) [
  | inl e ↦ subst (λ l. 4 ≤ length l) (ok_injective (rw e at h)) (leb→le 4 (length (items us)) e)
  | inr e ↦ absurd (let k = (rw e at h) in cc)
]
receivers_at_least-many null vs h = cc
receivers_at_least-many (bool b) vs h = cc
receivers_at_least-many (int minus n) vs h = cc
receivers_at_least-many (float x) vs h = cc
receivers_at_least-many (str s) vs h = cc
receivers_at_least-many (dict fs) vs h = cc

module _ (fl : Floats) (readers : Readers fl.F) (numerals : Numerals fl.F)
    (digest_of : Str → Option Str) (max_uncertainty_ns : fl.F) (now_ns : ℤ) where
  open fl use {F}

  -- The receivers accepted so far are ready and differ.
  abbrev pub AreReady : List (Accepted F) → Type 0
  AreReady seen = All (IsReady fl digest_of max_uncertainty_ns now_ns) seen × Pairwise Differ seen

  check_fields-IsReady :
      (seen : List (Accepted F)) (raw : Dict (Value F)) (a : Accepted F)
      → check_fields fl readers numerals digest_of max_uncertainty_ns true now_ns seen raw ≡ ok a
      → IsReady fl digest_of max_uncertainty_ns now_ns a × All (λ b. Differ b a) seen
  unfolding check_fields
  check_fields-IsReady seen raw a h =
      let text : Str → Str =
        λ key. text_at fl readers numerals digest_of max_uncertainty_ns true now_ns key raw in
      let sensor_id = text (codes "sensor_id") in
      let host = text (codes "host") in
      let (identity, known, h1) =
        >>=-eq-ok
          (registry_identity (normalize_receiver_identity (get (codes "receiver_identity") raw))) _
          h in
      let (registered, h2) =
        >>-eq-ok (require (not (true && str_in identity example_identities)) example_identity) _
          h1 in
      let (new, h3) =
        >>-eq-ok (require (not (any_of (λ b. str_eq b.identity identity) seen)) duplicate_receiver)
          _ h2 in
      let (sensor, h4) = >>-eq-ok (require (is_sensor sensor_id) bad_sensor_id) _ h3 in
      let (new_sensor, h5) =
        >>-eq-ok (require (not (any_of (λ b. str_eq b.sensor_id sensor_id) seen)) duplicate_sensor)
          _ h4 in
      let (hosted, h6) = >>-eq-ok (require (is_host host) bad_host) _ h5 in
      let (number, _, h7) =
        >>=-eq-ok (integer fl readers numerals bad_port (get (codes "port") raw)) _ h6 in
      let (port, fits, h8) = >>=-eq-ok (port_of number) _ h7 in
      let same_endpoint : Accepted F → Bool = λ b. str_eq b.host host && b.port == port in
      let (new_endpoint, h9) =
        >>-eq-ok (require (not (any_of same_endpoint seen)) duplicate_endpoint) _ h8 in
      let (clock, checked, h10) =
        >>=-eq-ok
          (validate_clock fl readers numerals digest_of max_uncertainty_ns true now_ns
            (get (codes "clock") raw))
          _ h9 in
      subst (λ b. IsReady fl digest_of max_uncertainty_ns now_ns b × All (λ c. Differ c b) seen)
        (ok_injective h10)
        (
          record {
            identity = identity-IsCanonical (get (codes "receiver_identity") raw) known;
            registered = not-true _ (require-eq-ok _ example_identity registered);
            sensor_id = require-eq-ok (is_sensor sensor_id) bad_sensor_id sensor;
            host = require-eq-ok (is_host host) bad_host hosted;
            port = port_of-between number fits;
            clock =
                validate_clock-IsQualified fl readers numerals digest_of max_uncertainty_ns now_ns
                  (get (codes "clock") raw) clock checked;
          },
          All-Differ seen
              (record {
                raw = raw;
                identity = identity;
                sensor_id = sensor_id;
                host = host;
                port = port;
                clock = clock;
              })
              (any_of-none (λ b. str_eq b.identity identity) seen
                (not-true _ (require-eq-ok _ duplicate_receiver new)))
              (any_of-none (λ b. str_eq b.sensor_id sensor_id) seen
                (not-true _ (require-eq-ok _ duplicate_sensor new_sensor)))
              (any_of-none same_endpoint seen
                (not-true _ (require-eq-ok _ duplicate_endpoint new_endpoint))),
        )

  check_receiver-IsReady :
      (seen : List (Accepted F)) (v : Value F) (a : Accepted F)
      → check_receiver fl readers numerals digest_of max_uncertainty_ns true now_ns seen v ≡ ok a
      → IsReady fl digest_of max_uncertainty_ns now_ns a × All (λ b. Differ b a) seen
  check_receiver-IsReady seen (dict fs) a h = check_fields-IsReady seen (entries fs) a h
  check_receiver-IsReady seen null a h = cc
  check_receiver-IsReady seen (bool b) a h = cc
  check_receiver-IsReady seen (int minus n) a h = cc
  check_receiver-IsReady seen (float x) a h = cc
  check_receiver-IsReady seen (str s) a h = cc
  check_receiver-IsReady seen (list vs) a h = cc

  accept_all-AreReady :
      (vs : List (Value F)) (seen accepted : List (Accepted F))
      → accept_all fl readers numerals digest_of max_uncertainty_ns true now_ns vs seen
        ≡ ok accepted
      → AreReady seen
      → AreReady accepted × (length accepted ≡ length vs + length seen)
  unfolding accept_all
  accept_all-AreReady [] seen accepted h (ready, differ) =
      let same = ok_injective h in
      (subst AreReady same (ready, differ), omega (arith, ap length (sym same)))
  accept_all-AreReady (v ∷ vs) seen accepted h (ready, differ) =
      let (a, checked, rest) =
        >>=-eq-ok
          (check_receiver fl readers numerals digest_of max_uncertainty_ns true now_ns seen v) _
          h in
      let (is_ready, differs) = check_receiver-IsReady seen v a checked in
      let (all_ready, count) = accept_all-AreReady vs (seen ++ a ∷ []) accepted rest (
        All-append (IsReady fl digest_of max_uncertainty_ns now_ns) seen (a ∷ []) ready
            (is_ready, tt),
        Pairwise-snoc Differ seen a differ differs,
      ) in
      (all_ready, omega (arith, count, length-append seen (a ∷ [])))

  receivers_in-many :
      (payload : Value F) (vs : List (Value F)) → receivers_in 4 payload ≡ ok vs → 4 ≤ length vs
  unfolding receivers_in
  receivers_in-many (dict fs) vs h =
      receivers_at_least-many (get (codes "receivers") (entries fs)) vs h
  receivers_in-many null vs h = cc
  receivers_in-many (bool b) vs h = cc
  receivers_in-many (int minus n) vs h = cc
  receivers_in-many (float x) vs h = cc
  receivers_in-many (str s) vs h = cc
  receivers_in-many (list us) vs h = cc

  -- The entries are those of four or more receivers that are ready and differ.
  abbrev pub IsTrial : List (Dict (Value F)) → Type 0
  IsTrial ds =
      (accepted : List (Accepted F)) × (ds ≡ map as_dict accepted)
      × (4 ≤ length accepted)
      × AreReady accepted

  -- A configuration that is accepted for a trial has four receivers or more, which have different
  -- identities, sensors and endpoints. Each has a canonical identity that is no example, a sensor of 1
  -- to 64 bytes in UTF-8, a host without white space, a port between 1 and 65535, and a clock whose
  -- calibration is good for a trial that starts now; the entries that are returned say so.
  pub load_receiver_config-IsTrial :
      (payload : Value F) (ds : List (Dict (Value F)))
      → load_receiver_config fl readers numerals digest_of max_uncertainty_ns true now_ns payload
        ≡ ok ds
      → IsTrial ds
  unfolding load_receiver_config
  load_receiver_config-IsTrial payload ds h =
      let (vs, read, h1) = >>=-eq-ok (receivers_in 4 payload) _ h in
      let (accepted, all, h2) =
        >>=-eq-ok (accept_all fl readers numerals digest_of max_uncertainty_ns true now_ns vs []) _
          h1 in
      let (ready, count) = accept_all-AreReady vs [] accepted all (tt, tt) in
      (
        accepted,
        sym (ok_injective h2),
        omega (arith, count, receivers_in-many payload vs read),
        ready,
      )
