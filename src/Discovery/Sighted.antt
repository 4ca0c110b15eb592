-- ===== src/Discovery/Sighted.antt =====
-- src/ckb_registry/discovery.py: the one cell of an identity, and the identity it has.
use aircraft_malt.Prelude.{
  ◌≡◌, refl, ◌∙◌, ap, ◌||◌, Option, some, List, [], ◌∷◌, Str, codes, str_eq, str_eq_iff, Bool-cases,
  inl, inr, ◌⊎◌,
}
use mathlib.Core.Path.{subst}
use aircraft_malt.Float.{Floats}
use aircraft_malt.Value.{
  Error, Value, null, bool, int, float, str, list, dict, end, Result, ok, err, require, >>=-eq-ok,
  >>-eq-ok, bad_hash_type, bad_code_hash,
}
use aircraft_malt.Registry.Identity.{
  normalize_receiver_identity, normalize_text, normalize_text_lem, IsCanonical, lower,
}
use aircraft_malt.Registry.Record.{is_text}
use aircraft_malt.Discovery.Receiver.{CkbConfig}
use aircraft_malt.Discovery.Cells.{get_from, or_else, receiver_identity_from_cell}
use aircraft_malt.Discovery.Quarantine.{sightings}

result_cases : {A : Type 0} (m : Result A) → ((e : Error) × (m ≡ err e)) ⊎ ((a : A) × (m ≡ ok a))
result_cases (err e) = inl (e, refl)
result_cases (ok a) = inr (a, refl)

module _ {C R : Type 0} (identity_of : C → Result Str) (parse : C → Str → Option R) where
  -- A cell with the identity, and what it is parsed to.
  abbrev pub Sighted : Str → R → Type 0
  Sighted j r = (cell : C) × (identity_of cell ≡ ok j) × (parse cell j ≡ some r)

  pub sightings-Sighted :
      (j : Str) (r : R) (cells : List C)
      → sightings identity_of parse j cells ≡ some r ∷ []
      → Sighted j r
  sightings-Sighted j r [] h = cc
  sightings-Sighted j r (cell ∷ cells) h = elim (result_cases (identity_of cell)) [
    | inl (e, failed) ↦ sightings-Sighted j r cells (rw failed at h)
    | inr (i, found) ↦ elim (Bool-cases (str_eq i j)) [
      | inl same ↦
          let h' : parse cell i ∷ sightings identity_of parse j cells ≡ some r ∷ [] =
            (rw same at (rw found at h)) in
          let i-eq = (str_eq_iff i j).0 same in
          (cell, found ∙ ap ok i-eq, subst (λ t. parse cell t ≡ some r) i-eq (cc))
      | inr other ↦ sightings-Sighted j r cells (rw other at (rw found at h))
    ]
  ]

module _ {F : Type 0} where
  normalize_receiver_identity-canonical :
      (v : Value F) {i : Str}
      → normalize_receiver_identity v ≡ ok i
      → IsCanonical i × (normalize_text i ≡ ok i)
  unfolding normalize_receiver_identity
  normalize_receiver_identity-canonical (str s) h =
      let (canonical, _, same) = normalize_text_lem s _ h in (canonical, same)
  normalize_receiver_identity-canonical null h = cc
  normalize_receiver_identity-canonical (bool b) h = cc
  normalize_receiver_identity-canonical (int minus n) h = cc
  normalize_receiver_identity-canonical (float x) h = cc
  normalize_receiver_identity-canonical (list vs) h = cc
  normalize_receiver_identity-canonical (dict fs) h = cc

module _ (fl : Floats) where
  open fl use {F}

  pub receiver_identity_from_cell-canonical :
      (render : Value F → Str) (config : CkbConfig F) (cell : Value F) {i : Str}
      → receiver_identity_from_cell fl render config cell ≡ ok i
      → IsCanonical i × (normalize_text i ≡ ok i)
  unfolding receiver_identity_from_cell
  receiver_identity_from_cell-canonical render config cell h =
      let (output, _, h1) = >>=-eq-ok (get_from cell (codes "output") (dict end)) _ h in
      let (script, _, h2) = >>=-eq-ok (get_from output (codes "type") null) _ h1 in
      let type_script = or_else fl script (dict end) in
      let (hash_type, _, h3) = >>=-eq-ok (get_from type_script (codes "hash_type") null) _ h2 in
      let (_, h4) =
        >>-eq-ok (require (is_text hash_type config.receiver_registry_hash_type) bad_hash_type) _
          h3 in
      let (code_hash, _, h5) = >>=-eq-ok (get_from type_script (codes "code_hash") (str [])) _ h4 in
      let (_, h6) =
        >>-eq-ok
          (require
            (str_eq config.receiver_registry_type_hash []
              || str_eq (lower (render code_hash)) (lower config.receiver_registry_type_hash))
            bad_code_hash)
          _ h5 in
      let (args, _, h7) = >>=-eq-ok (get_from type_script (codes "args") (str [])) _ h6 in
      normalize_receiver_identity-canonical args h7
