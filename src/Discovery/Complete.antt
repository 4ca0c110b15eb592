-- ===== src/Discovery/Complete.antt =====
-- `discover_peers` of src/ckb_registry/discovery.py passes over no valid receiver.
use aircraft_malt.Prelude.{
  ℕ, ◌≡◌, refl, ap, ◌∙◌, Bool, true, Option, some, List, [], ◌∷◌, Str, Dict, lookup, str_lt, str_eq,
  keep_if, Bool-cases, inl, inr, ◌⊎◌,
}
use mathlib.Core.Path.{subst}
use aircraft_malt.Float.{Floats}
use aircraft_malt.Value.{Value}
use aircraft_malt.Registry.Decode.{Json}
use aircraft_malt.Discovery.Receiver.{ReceiverInfo, CkbConfig, is_receiver_valid}
use aircraft_malt.Discovery.Peers.{insert_by, sort_by, values}
use aircraft_malt.Discovery.Quarantine.{only, scan_cells-exact}
use aircraft_malt.Discovery.Origin.{sighted}
use aircraft_malt.Discovery.Discover.{identity_key, scan, discover_cells}

module _ {A : Type 0} where
  -- The element is one of the list's.
  abbrev pub Has : A → List A → Type 0
  Has a [] = ⊥
  Has a (b ∷ bs) = (b ≡ a) ⊎ Has a bs

  keep_if-Has : (p : A → Bool) (a : A) (bs : List A) → p a ≡ true → Has a bs → Has a (keep_if p bs)
  keep_if-Has p a [] passes h = absurd h
  keep_if-Has p a (b ∷ bs) passes (inl e) = let k : p b ≡ true = ap p e ∙ passes in rw k (inl e)
  keep_if-Has p a (b ∷ bs) passes (inr h) = elim (Bool-cases (p b)) [
    | inl e ↦ rw e (inr (keep_if-Has p a bs passes h))
    | inr e ↦ rw e (keep_if-Has p a bs passes h)
  ]

  module _ (key : A → Str) where
    insert_by-head : (a : A) (bs : List A) → Has a (insert_by key a bs)
    unfolding insert_by
    insert_by-head a [] = inl refl
    insert_by-head a (b ∷ bs) = elim (Bool-cases (str_lt (key b) (key a))) [
      | inl e ↦ rw e (inr (insert_by-head a bs))
      | inr e ↦ rw e (inl refl)
    ]

    insert_by-Has : (a c : A) (bs : List A) → Has c bs → Has c (insert_by key a bs)
    unfolding insert_by
    insert_by-Has a c [] h = absurd h
    insert_by-Has a c (b ∷ bs) h = elim (Bool-cases (str_lt (key b) (key a))) [
      | inl e ↦ rw e (elim h [ inl same ↦ inl same | inr later ↦ inr (insert_by-Has a c bs later) ])
      | inr e ↦ rw e (inr h)
    ]

    sort_by-Has : (a : A) (bs : List A) → Has a bs → Has a (sort_by key bs)
    unfolding sort_by
    sort_by-Has a [] h = absurd h
    sort_by-Has a (b ∷ bs) (inl e) =
        subst (λ c. Has c (insert_by key b (sort_by key bs))) e (insert_by-head b (sort_by key bs))
    sort_by-Has a (b ∷ bs) (inr h) = insert_by-Has b a (sort_by key bs) (sort_by-Has a bs h)

  values-Has : (i : Str) (a : A) (d : Dict A) → lookup i d ≡ some a → Has a (values d)
  unfolding lookup
  values-Has i a [] h = cc
  values-Has i a ((k, b) ∷ d) h = elim (Bool-cases (str_eq k i)) [
    | inl e ↦ inl (let same : some b ≡ some a = rw e at h in cc)
    | inr e ↦ inr (values-Has i a d (rw e at h))
  ]

module _ (fl : Floats) (utf8_decode : List ℕ → Option Str) (json_tree : Str → Option (Json fl.F))
    (render : Value fl.F → Str) (config : CkbConfig fl.F) where
  open fl use {F}

  -- A receiver that is read from the only cell of its identity and passes the validity policy is
  -- returned, whatever the other cells hold.
  pub discover_cells-Has :
      (now : F) (include_inactive include_revoked : Bool) (cells : List (Value F)) (i : Str)
      (r : ReceiverInfo F)
      → sighted fl utf8_decode json_tree render config i cells ≡ some r ∷ []
      → is_receiver_valid fl config now include_inactive include_revoked r ≡ true
      → Has r
          (discover_cells fl utf8_decode json_tree render config now include_inactive
            include_revoked cells).receivers
  unfolding discover_cells scan
  discover_cells-Has now inactive revoked cells i r alone valid = sort_by-Has identity_key r _ (
      keep_if-Has (is_receiver_valid fl config now inactive revoked) r _ valid
        (values-Has i r _ ((scan_cells-exact _ _ cells i).0 ∙ ap only alone)))
