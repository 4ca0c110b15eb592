-- ===== src/Ingest/Refresh.antt =====
-- What a refresh of the Registry leaves among the active receivers.
use aircraft_malt.Prelude.{
  ℕ, ◌≤◌, ◌≡◌, refl, inl, inr, ◌⊎◌, Bool, true, false, not, List, [], Dict, str_eq, max,
  keep_if-passes, All, All-map, arith,
}
use mathlib.Core.Path.{subst}
use aircraft_malt.Float.{Floats}
use aircraft_malt.Value.{Value, Result, Error, ok, err}
use aircraft_malt.Discovery.Receiver.{ReceiverInfo}
use aircraft_malt.Ingest.Transport.{NetworkConfig}
use aircraft_malt.Ingest.Client.{
  NetworkClient, is_selectable, select_receivers, add_receivers, retained, top_up,
  augment_receivers, refresh_failed, refresh_succeeded, refresh_registry_receivers,
}
use aircraft_malt.Ingest.Receivers.{
  Result-cases, is_registry, registry_count, add_receivers-count, retained-count, top_up-count,
  length-select, select-All, add_receivers-All, top_up-All, augment-cases,
}

not_registry : (b : Bool) → not b ≡ true → b ≡ false
not_registry true h = cc
not_registry false h = refl

module _ {F : Type 0} where
  -- The receivers that a discovery returned.
  abbrev pub received : Result (List (ReceiverInfo F)) → List (ReceiverInfo F)
  received (ok rs) = rs
  received (err e) = []

  module _ (P : ReceiverInfo F → Type 0) where
    -- A receiver from the Registry is selectable and has what all that were discovered have.
    abbrev pub IsAllowed : ReceiverInfo F → Type 0
    IsAllowed r = (is_registry r ≡ false) ⊎ (P r × (is_selectable r ≡ true))

    -- The receivers are allowed, and at most `n` of them come from the Registry.
    pub record IsEligible (n : ℕ) (d : Dict (ReceiverInfo F)) : Type 0 where
      pub allowed : All (λ e. IsAllowed e.1) d
      pub bounded : registry_count d ≤ n

    retained-IsAllowed : (d : Dict (ReceiverInfo F)) → All (λ e. IsAllowed e.1) (retained d)
    unfolding retained
    retained-IsAllowed d =
        All-map (λ e. not (is_registry e.1) ≡ true) (λ e. IsAllowed e.1)
          (λ e h. inl (not_registry (is_registry e.1) h)) (retained d)
          (keep_if-passes (λ e. not (is_registry e.1)) d)

    refreshed-IsEligible :
        (n : ℕ) (rs : List (ReceiverInfo F)) (d : Dict (ReceiverInfo F))
        → All P rs
        → IsEligible n (add_receivers (select_receivers n rs) (retained d))
    refreshed-IsEligible n rs d h = record {
      allowed =
          add_receivers-All IsAllowed (select_receivers n rs) (retained d)
            (All-map (λ r. P r × (is_selectable r ≡ true)) IsAllowed (λ r k. inr k)
              (select_receivers n rs) (select-All P n rs h))
            (retained-IsAllowed d);
      bounded = omega (
        arith,
        add_receivers-count (select_receivers n rs) (retained d),
        length-select n rs,
        retained-count d,
      );
    }

    top_up-IsEligible :
        (n minimum : ℕ) (demo : List (ReceiverInfo F)) (d : Dict (ReceiverInfo F))
        → All (λ r. is_registry r ≡ false) demo
        → IsEligible n d
        → IsEligible n (top_up minimum demo d)
    top_up-IsEligible n minimum demo d others h = record {
      allowed =
          top_up-All IsAllowed minimum demo d
            (All-map (λ r. is_registry r ≡ false) IsAllowed (λ r k. inl k) demo others) h.allowed;
      bounded = omega (arith, h.bounded, top_up-count minimum demo d others);
    }

module _ (fl : Floats) (config : NetworkConfig) (demo : List (ReceiverInfo fl.F))
    (others : All (λ r. is_registry r ≡ false) demo) where
  open fl use {F}

  module _ (P : ReceiverInfo F → Type 0) (n : ℕ) where
    augment-IsEligible :
        (d : Dict (ReceiverInfo F)) {a : Dict (ReceiverInfo F)}
        → IsEligible P n d
        → augment_receivers fl config demo d ≡ ok a
        → IsEligible P n a
    augment-IsEligible d h e = elim (augment-cases fl config demo d e) [
      | inl same ↦ subst (IsEligible P n) same h
      | inr (_, topped) ↦
          subst (IsEligible P n) topped
            (top_up-IsEligible P n (max 1 config.hybrid_simulation_min_receivers) demo d others h)
    ]

  module _ (P : ReceiverInfo F → Type 0) (c : NetworkClient F) where
    refresh_succeeded-IsEligible :
        (value_eq : Value F → Value F → Bool) (started finished now : F)
        (rs : List (ReceiverInfo F))
        → All P rs
        → IsEligible P config.max_receivers
            (refresh_succeeded fl config value_eq demo started finished now rs c).1.active_receivers
    unfolding refresh_succeeded
    refresh_succeeded-IsEligible value_eq started finished now rs h =
        let d =
          add_receivers (select_receivers config.max_receivers rs) (retained c.active_receivers) in
        let eligible = refreshed-IsEligible P config.max_receivers rs c.active_receivers h in
        elim (Result-cases (augment_receivers fl config demo d)) [
          | inl (a, e) ↦ rw e (augment-IsEligible P config.max_receivers d eligible e)
          | inr (raised, e) ↦ rw e eligible
        ]

    refresh_failed-IsEligible :
        (started finished : F) (raised : Error)
        → IsEligible P 0
            (refresh_failed fl config demo started finished raised c).1.active_receivers
    unfolding refresh_failed
    refresh_failed-IsEligible started finished raised =
        let d = retained c.active_receivers in
        let eligible : IsEligible P 0 d = record {
          allowed = retained-IsAllowed P c.active_receivers;
          bounded = omega (arith, retained-count c.active_receivers);
        } in
        elim (Result-cases (augment_receivers fl config demo d)) [
          | inl (a, e) ↦ rw e (augment-IsEligible P 0 d eligible e)
          | inr (again, e) ↦ rw e eligible
        ]

    -- After a refresh with a Registry configured, however it ended, every active receiver from the
    -- Registry has whatever all receivers of this discovery have, is online and offers mlat, and
    -- there are at most `max_receivers` of them; after a failed discovery there is none.
    pub refresh-IsEligible :
        (value_eq : Value F → Value F → Bool) (started finished now : F)
        (discovered : Result (List (ReceiverInfo F)))
        → str_eq config.receiver_registry_type_hash [] ≡ false
        → All P (received discovered)
        → IsEligible P
            (elim discovered [ ok rs ↦ config.max_receivers | err e ↦ 0 ])
            (refresh_registry_receivers fl config value_eq demo started finished now discovered
              c).1.active_receivers
    unfolding refresh_registry_receivers
    refresh-IsEligible value_eq started finished now (ok rs) configured h =
        rw configured (refresh_succeeded-IsEligible value_eq started finished now rs h)
    refresh-IsEligible value_eq started finished now (err raised) configured h =
        rw configured (refresh_failed-IsEligible started finished raised)
