-- ===== src/Discovery/Quarantine.antt =====
-- The scan of `discover_peers` against what each identity was seen as: a refinement by one small
-- automaton for each identity.
use aircraft_malt.Prelude.{
  ◌≡◌, refl, sym, ◌∙◌, ap, Bool, true, false, Option, none, some, List, [], ◌∷◌, Str, Dict, lookup,
  lookup-insert, lookup-remove, str_in, str_eq, str_eq_iff, arith, leb, length, if◌then◌else◌,
  Bool-cases, inl, inr,
}
use aircraft_malt.Value.{Result, ok, err}
use aircraft_malt.Discovery.Peers.{Scan, empty_scan, store, scan_identity, scan_result, scan_cells}

pub data Sighting (R : Type 0) : Type 0 where
  unseen : Sighting R
  once : Option R → Sighting R
  repeated : Sighting R

str_in-cons :
    (j i : Str) (ts : List Str) → str_in j (i ∷ ts) ≡ (if str_eq i j then true else str_in j ts)
unfolding str_in
str_in-cons j i ts = ground (arith, str_eq_iff i j, str_eq_iff j i)

module _ {R : Type 0} where
  -- A further cell with the identity: from the second on, nothing is kept.
  abbrev pub advance : Sighting R → Option R → Sighting R
  advance unseen parsed = once parsed
  advance (once _) parsed = repeated
  advance repeated parsed = repeated

  abbrev pub found : Sighting R → Option R
  found unseen = none
  found (once r) = r
  found repeated = none

  abbrev pub is_repeated : Sighting R → Bool
  is_repeated repeated = true
  is_repeated _ = false

  abbrev pub view : Scan R → Str → Sighting R
  view s j =
      if str_in j s.duplicate_identities
      then repeated
      else if str_in j s.seen_identities
      then once (lookup j s.receivers_by_identity)
      else unseen

  -- A receiver is kept only for an identity that was seen once.
  abbrev pub IsConsistent : Scan R → Type 0
  IsConsistent s = (j : Str) → lookup j s.receivers_by_identity ≡ found (view s j)

  lookup-store :
      (i j : Str) (parsed : Option R) (d : Dict R)
      → lookup i d ≡ none
      → lookup j (store i parsed d) ≡ (if str_eq i j then parsed else lookup j d)
  lookup-store i j none d h = ground (arith, str_eq_iff i j)
  lookup-store i j (some r) d h = lookup-insert i j r d

  view-scan_identity :
      (i j : Str) (parsed : Option R) (s : Scan R)
      → IsConsistent s
      → view (scan_identity i parsed s) j
        ≡ (if str_eq i j then advance (view s j) parsed else view s j)
  unfolding scan_identity
  view-scan_identity i j parsed s h = ground (
    arith,
    h i,
    h j,
    lookup-store i j parsed s.receivers_by_identity,
    lookup-remove i j s.receivers_by_identity,
    str_in-cons j i s.duplicate_identities,
    str_in-cons j i s.seen_identities,
    str_eq_iff i j,
  )

  scan_identity-IsConsistent :
      (i : Str) (parsed : Option R) (s : Scan R)
      → IsConsistent s
      → IsConsistent (scan_identity i parsed s)
  unfolding scan_identity
  scan_identity-IsConsistent i parsed s h j = ground (
    arith,
    h i,
    h j,
    lookup-store i j parsed s.receivers_by_identity,
    lookup-remove i j s.receivers_by_identity,
    str_in-cons j i s.duplicate_identities,
    str_in-cons j i s.seen_identities,
    str_eq_iff i j,
  )

-- The receiver of an identity that one cell has.
abbrev pub only : {R : Type 0} → List (Option R) → Option R
only (p ∷ []) = p
only _ = none

module _ {C R : Type 0} (identity_of : C → Result Str) (parse : C → Str → Option R) where
  abbrev sighted : C → Str → Result Str → List (Option R) → List (Option R)
  sighted cell j (ok i) rest = if str_eq i j then parse cell i ∷ rest else rest
  sighted cell j (err e) rest = rest

  -- What the cells with the identity `j` are parsed to, in order.
  abbrev pub sightings : Str → List C → List (Option R)
  sightings j [] = []
  sightings j (cell ∷ cells) = sighted cell j (identity_of cell) (sightings j cells)

  abbrev advance_all : Sighting R → List (Option R) → Sighting R
  advance_all v [] = v
  advance_all v (p ∷ ps) = advance_all (advance v p) ps

  scan_result-lem :
      (cell : C) (j : Str) (identity : Result Str) (s : Scan R) (rest : List (Option R))
      → IsConsistent s
      → IsConsistent (scan_result identity_of parse cell identity s)
        × (advance_all (view s j) (sighted cell j identity rest)
            ≡ advance_all (view (scan_result identity_of parse cell identity s) j) rest)
  scan_result-lem cell j (err e) s rest h = (h, refl)
  scan_result-lem cell j (ok i) s rest h = (
    scan_identity-IsConsistent i (parse cell i) s h,
    rw (view-scan_identity i j (parse cell i) s h)
        (elim (Bool-cases (str_eq i j)) [ inl e ↦ rw e | inr e ↦ rw e ]),
  )

  scan_cells-view :
      (cells : List C) (s : Scan R) (j : Str)
      → IsConsistent s
      → IsConsistent (scan_cells identity_of parse cells s)
        × (view (scan_cells identity_of parse cells s) j
            ≡ advance_all (view s j) (sightings j cells))
  unfolding scan_cells
  scan_cells-view [] s j h = (h, refl)
  scan_cells-view (cell ∷ cells) s j h =
      let (kept, same) = scan_result-lem cell j (identity_of cell) s (sightings j cells) h in
      let (end, ih) =
        scan_cells-view cells (scan_result identity_of parse cell (identity_of cell) s) j kept in
      (end, ih ∙ sym same)

  advance_all-repeated : (ps : List (Option R)) → advance_all repeated ps ≡ repeated
  advance_all-repeated [] = refl
  advance_all-repeated (p ∷ ps) = advance_all-repeated ps

  advance_all-unseen :
      (ps : List (Option R))
      → (found (advance_all unseen ps) ≡ only ps)
        × (is_repeated (advance_all unseen ps) ≡ leb 2 (length ps))
  advance_all-unseen [] = (refl, refl)
  advance_all-unseen (p ∷ []) = (refl, refl)
  advance_all-unseen (p ∷ q ∷ ps) = rw (advance_all-repeated ps) (refl, ground arith)

  view-is_repeated :
      (s : Scan R) (j : Str) → is_repeated (view s j) ≡ str_in j s.duplicate_identities
  view-is_repeated s j = ground arith

  empty-IsConsistent : IsConsistent {R = R} empty_scan
  unfolding lookup str_in
  empty-IsConsistent j = refl

  -- After the scan an identity has a receiver exactly when one cell, and no more, has the identity
  -- and is parsed to that receiver; it is quarantined exactly when two cells or more have it.
  pub scan_cells-exact :
      (cells : List C) (j : Str)
      → (lookup j (scan_cells identity_of parse cells empty_scan).receivers_by_identity
          ≡ only (sightings j cells))
        × (str_in j (scan_cells identity_of parse cells empty_scan).duplicate_identities
            ≡ leb 2 (length (sightings j cells)))
  unfolding str_in
  scan_cells-exact cells j =
      let (kept, same) = scan_cells-view cells empty_scan j empty-IsConsistent in
      let (one, many) = advance_all-unseen (sightings j cells) in
      (
        kept j ∙ ap found same ∙ one,
        sym (view-is_repeated (scan_cells identity_of parse cells empty_scan) j)
            ∙ ap is_repeated same
            ∙ many,
      )
