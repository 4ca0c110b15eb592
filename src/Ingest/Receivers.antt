-- ===== src/Ingest/Receivers.antt =====
-- What the operations on the dictionary of active receivers keep.
use aircraft_malt.Prelude.{
  ℕ, zero, suc, ◌+◌, ◌≤◌, ◌≡◌, refl, inl, inr, ◌⊎◌, Bool, true, false, not, ◌||◌, List, [], ◌∷◌,
  Str, Dict, lookup, insert, str_eq, length, leb, max, take, length-take, keep_if, keep_if-passes,
  All, All-both, All-keep_if, tally, Bool-cases, arith, Option-cases, if◌then◌else◌,
}
use aircraft_malt.Float.{Floats}
use aircraft_malt.Value.{Result, Error, ok, err, >>=-eq-ok}
use aircraft_malt.Discovery.Receiver.{ReceiverInfo, runtime_id, ckb_registry}
use aircraft_malt.Discovery.Peers.{sort_by}
use aircraft_malt.Discovery.Sound.{All-sort_by}
use aircraft_malt.Ingest.Transport.{NetworkConfig, simulation, determine_transport}
use aircraft_malt.Ingest.Client.{
  selection_key, is_selectable, select_receivers, add_receivers, retained, top_up,
  augment_receivers,
}

pub All-take {ℓ} :
    {A : Type ℓ} (P : A → Type 0) (n : ℕ) (xs : List A) → All P xs → All P (take n xs)
All-take P zero xs h = tt
All-take P (suc n) [] h = tt
All-take P (suc n) (x ∷ xs) h = (h.0, All-take P n xs h.1)

pub Result-cases {ℓ} :
    {A : Type ℓ} (r : Result A) → ((a : A) × (r ≡ ok a)) ⊎ ((e : Error) × (r ≡ err e))
Result-cases (ok a) = inl (a, refl)
Result-cases (err e) = inr (e, refl)

ok-injective {ℓ} : {A : Type ℓ} {a b : A} → ok a ≡ ok b → a ≡ b
ok-injective h = cc

module _ {F : Type 0} where
  -- The receiver was found in the Registry.
  abbrev pub is_registry : ReceiverInfo F → Bool
  is_registry r = str_eq r.data_source ckb_registry

  -- How many of the receivers in a dictionary come from the Registry.
  abbrev pub registry_count : Dict (ReceiverInfo F) → ℕ
  registry_count = tally (λ e. is_registry e.1)

  insert-count :
      (k : Str) (r : ReceiverInfo F) (d : Dict (ReceiverInfo F))
      → registry_count (insert k r d) ≤ (if is_registry r then 1 else 0) + registry_count d
  unfolding insert
  insert-count k r [] = omega arith
  insert-count k r ((j, q) ∷ d) = elim (Bool-cases (str_eq j k)) [
    | inl e ↦ rw e (ground arith)
    | inr e ↦ rw e (omega (arith, insert-count k r d))
  ]

  pub add_receivers-count :
      (rs : List (ReceiverInfo F)) (d : Dict (ReceiverInfo F))
      → registry_count (add_receivers rs d) ≤ length rs + registry_count d
  unfolding add_receivers
  add_receivers-count [] d = omega arith
  add_receivers-count (r ∷ rs) d =
      ground
        (arith, add_receivers-count rs (insert (runtime_id r) r d), insert-count (runtime_id r) r d)

  pub retained-count : (d : Dict (ReceiverInfo F)) → registry_count (retained d) ≡ 0
  unfolding retained
  retained-count [] = refl
  retained-count ((j, q) ∷ d) = ground (arith, retained-count d)

  pub top_up-count :
      (minimum : ℕ) (demo : List (ReceiverInfo F)) (d : Dict (ReceiverInfo F))
      → All (λ r. is_registry r ≡ false) demo
      → registry_count (top_up minimum demo d) ≤ registry_count d
  unfolding top_up
  top_up-count minimum [] d h = omega arith
  top_up-count minimum (r ∷ rs) d h =
      let added = insert (runtime_id r) r d in
      let one : registry_count added ≤ registry_count d =
        ground (arith, insert-count (runtime_id r) r d) in
      elim (Option-cases (lookup (runtime_id r) d)) [
        | inr (old, e) ↦ rw e (top_up-count minimum rs d h.1)
        | inl e ↦ rw e (elim (Bool-cases (leb minimum (length added))) [
          | inl full ↦ rw full one
          | inr room ↦ rw room (omega (arith, one, top_up-count minimum rs added h.1))
        ])
      ]

  pub length-select : (n : ℕ) (rs : List (ReceiverInfo F)) → length (select_receivers n rs) ≤ n
  unfolding select_receivers
  length-select n rs =
      omega (arith, length-take n (sort_by selection_key (keep_if is_selectable rs)))

  module _ (P : ReceiverInfo F → Type 0) where
    pub select-All :
        (n : ℕ) (rs : List (ReceiverInfo F))
        → All P rs
        → All (λ r. P r × (is_selectable r ≡ true)) (select_receivers n rs)
    unfolding select_receivers
    select-All n rs h = All-take _ n _ (
        All-sort_by selection_key (λ r. P r × (is_selectable r ≡ true)) (keep_if is_selectable rs)
          (All-both P (λ r. is_selectable r ≡ true) (keep_if is_selectable rs)
            (All-keep_if P is_selectable rs h) (keep_if-passes is_selectable rs)))

    insert-All :
        (k : Str) (r : ReceiverInfo F) (d : Dict (ReceiverInfo F))
        → P r
        → All (λ e. P e.1) d
        → All (λ e. P e.1) (insert k r d)
    unfolding insert
    insert-All k r [] p h = (p, tt)
    insert-All k r ((j, q) ∷ d) p h = elim (Bool-cases (str_eq j k)) [
      | inl e ↦ rw e (p, h.1)
      | inr e ↦ rw e (h.0, insert-All k r d p h.1)
    ]

    pub add_receivers-All :
        (rs : List (ReceiverInfo F)) (d : Dict (ReceiverInfo F))
        → All P rs
        → All (λ e. P e.1) d
        → All (λ e. P e.1) (add_receivers rs d)
    unfolding add_receivers
    add_receivers-All [] d ps h = h
    add_receivers-All (r ∷ rs) d ps h =
        add_receivers-All rs (insert (runtime_id r) r d) ps.1 (insert-All (runtime_id r) r d ps.0 h)

    pub top_up-All :
        (minimum : ℕ) (demo : List (ReceiverInfo F)) (d : Dict (ReceiverInfo F))
        → All P demo
        → All (λ e. P e.1) d
        → All (λ e. P e.1) (top_up minimum demo d)
    unfolding top_up
    top_up-All minimum [] d ps h = h
    top_up-All minimum (r ∷ rs) d ps h =
        let added = insert (runtime_id r) r d in
        let all = insert-All (runtime_id r) r d ps.0 h in
        elim (Option-cases (lookup (runtime_id r) d)) [
          | inr (old, e) ↦ rw e (top_up-All minimum rs d ps.1 h)
          | inl e ↦ rw e (elim (Bool-cases (leb minimum (length added))) [
            | inl full ↦ rw full all
            | inr room ↦ rw room (top_up-All minimum rs added ps.1 all)
          ])
        ]

-- What the top-up leaves: the dictionary, or the dictionary with demonstration receivers in it; in
-- strict mode the dictionary.
pub augment-cases :
    (fl : Floats) (config : NetworkConfig) (demo : List (ReceiverInfo fl.F))
    (d : Dict (ReceiverInfo fl.F)) {a : Dict (ReceiverInfo fl.F)}
    → augment_receivers fl config demo d ≡ ok a
    → (d ≡ a)
      ⊎ ((config.strict_production_mode ≡ false)
          × (top_up (max 1 config.hybrid_simulation_min_receivers) demo d ≡ a))
unfolding augment_receivers
augment-cases fl config demo d h =
    let (transport, _, chosen) = >>=-eq-ok (determine_transport fl config d) _ h in
    by_mode config.strict_production_mode (str_eq transport simulation)
      (leb (max 1 config.hybrid_simulation_min_receivers) (length d)) chosen
  where
    by_mode :
        (strict simulated full : Bool) {t a : Dict (ReceiverInfo fl.F)}
        → (if strict || not simulated then ok d else if full then ok d else ok t) ≡ ok a
        → (d ≡ a) ⊎ ((strict ≡ false) × (t ≡ a))
    by_mode true simulated full h = inl (ok-injective h)
    by_mode false false full h = inl (ok-injective h)
    by_mode false true true h = inl (ok-injective h)
    by_mode false true false h = inr (refl, ok-injective h)
