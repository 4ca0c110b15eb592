-- ===== src/Correlation/Once.antt =====
-- Each identifier is returned once, over the whole life of a correlator.
use aircraft_malt.Prelude.{
  ◌≡◌, refl, sym, ◌∙◌, ap, inl, inr, true, false, List, [], ◌∷◌, ◌++◌, Str, str_in, str_eq_refl,
  All, arith, Bool-cases,
}
use mathlib.Core.Path.{subst}
use aircraft_malt.Float.{Floats}
use aircraft_malt.Correlation.Signal.{RawSignal}
use aircraft_malt.Correlation.Correlator.{
  SignalCorrelator, add_signal, add_signals, group_id, correlate,
}
use aircraft_malt.Correlation.Candidates.{
  Group, new_groups, noted, candidates_now, correlate-new_groups,
}

module _ (fl : Floats) where
  open fl use {F}

  -- No identifier is in the set, and none stands twice.
  abbrev pub IsFresh : List Str → List (Group fl) → Type 0
  IsFresh processed [] = Unit
  IsFresh processed (g ∷ gs) =
      (str_in (group_id fl g) processed ≡ false) × IsFresh (group_id fl g ∷ processed) gs

  new_groups-IsFresh :
      (processed : List Str) (gs : List (Group fl)) → IsFresh processed (new_groups fl processed gs)
  new_groups-IsFresh processed [] = tt
  new_groups-IsFresh processed (g ∷ gs) = elim (Bool-cases (str_in (group_id fl g) processed)) [
    | inl e ↦ rw e (new_groups-IsFresh processed gs)
    | inr e ↦ rw e (e, new_groups-IsFresh (group_id fl g ∷ processed) gs)
  ]

  IsFresh-append :
      (processed : List Str) (gs hs : List (Group fl))
      → IsFresh processed gs
      → IsFresh (noted fl processed gs) hs
      → IsFresh processed (gs ++ hs)
  IsFresh-append processed [] hs h k = k
  IsFresh-append processed (g ∷ gs) hs h k =
      (h.0, IsFresh-append (group_id fl g ∷ processed) gs hs h.1 k)

  noted-append :
      (processed : List Str) (gs hs : List (Group fl))
      → noted fl (noted fl processed gs) hs ≡ noted fl processed (gs ++ hs)
  noted-append processed [] hs = refl
  noted-append processed (g ∷ gs) hs = noted-append (group_id fl g ∷ processed) gs hs

  -- What is in the set stays in it.
  str_in-noted :
      (i : Str) (processed : List Str) (gs : List (Group fl))
      → str_in i processed ≡ true
      → str_in i (noted fl processed gs) ≡ true
  unfolding str_in
  str_in-noted i processed [] h = h
  str_in-noted i processed (g ∷ gs) h = str_in-noted i (group_id fl g ∷ processed) gs (ground arith)

  abbrev pub IsNoted : List Str → Group fl → Type 0
  IsNoted processed g = str_in (group_id fl g) processed ≡ true

  new_groups-old :
      (processed : List Str) (g : Group fl) (gs : List (Group fl))
      → IsNoted processed g
      → new_groups fl processed (g ∷ gs) ≡ new_groups fl processed gs
  new_groups-old processed g gs e = rw e

  new_groups-new :
      (processed : List Str) (g : Group fl) (gs : List (Group fl))
      → str_in (group_id fl g) processed ≡ false
      → new_groups fl processed (g ∷ gs) ≡ g ∷ new_groups fl (group_id fl g ∷ processed) gs
  new_groups-new processed g gs e = rw e

  pub new_groups-noted :
      (processed : List Str) (gs : List (Group fl))
      → All (IsNoted (noted fl processed (new_groups fl processed gs))) gs
  unfolding str_in
  new_groups-noted processed [] = tt
  new_groups-noted processed (g ∷ gs) =
      let AllNoted : List (Group fl) → Type 0 =
        λ ns. All (IsNoted (noted fl processed ns)) (g ∷ gs) in
      elim (Bool-cases (str_in (group_id fl g) processed)) [
        | inl e ↦ subst AllNoted (sym (new_groups-old processed g gs e)) (
          str_in-noted (group_id fl g) processed (new_groups fl processed gs) e,
          new_groups-noted processed gs,
        )
        | inr e ↦ subst AllNoted (sym (new_groups-new processed g gs e)) (
          str_in-noted (group_id fl g) (group_id fl g ∷ processed)
              (new_groups fl (group_id fl g ∷ processed) gs) (rw (str_eq_refl (group_id fl g))),
          new_groups-noted (group_id fl g ∷ processed) gs,
        )
      ]

  new_groups-none :
      (processed : List Str) (gs : List (Group fl))
      → All (IsNoted processed) gs
      → new_groups fl processed gs ≡ []
  new_groups-none processed [] h = refl
  new_groups-none processed (g ∷ gs) h = rw h.0 (new_groups-none processed gs h.1)

  -- A second call with the same buffer returns nothing: every group of a valid cluster was either
  -- processed before or returned by the first call.
  pub correlate-twice : (c : SignalCorrelator F) → (correlate fl (correlate fl c).1).0 ≡ []
  correlate-twice c =
      let (found, kept) = correlate-new_groups fl c in
      let set = noted fl c.processed_groups (correlate fl c).0 in
      let after : SignalCorrelator F = record c { processed_groups = set } in
      let all : All (IsNoted set) (candidates_now fl c) =
        rw found (new_groups-noted c.processed_groups (candidates_now fl c)) in
      rw kept ((correlate-new_groups fl after).0 ∙ new_groups-none set (candidates_now fl c) all)

  -- What is done to a correlator.
  pub data Call : Type 0 where
    add : RawSignal F → Call
    add_many : List (RawSignal F) → Call
    find : Call

  abbrev pub step : Call → SignalCorrelator F → List (Group fl) × SignalCorrelator F
  step (add s) c = ([], add_signal fl s c)
  step (add_many ss) c = ([], add_signals fl ss c)
  step find c = correlate fl c

  -- All groups that are returned while the calls are made.
  pub returned : List Call → SignalCorrelator F → List (Group fl)
  returned [] c = []
  returned (call ∷ calls) c = let (gs, c') = step call c in gs ++ returned calls c'

  step-IsFresh :
      (call : Call) (c : SignalCorrelator F)
      → IsFresh c.processed_groups (step call c).0
        × ((step call c).1.processed_groups ≡ noted fl c.processed_groups (step call c).0)
  step-IsFresh (add s) c = (tt, unfold add_signal in refl)
  step-IsFresh (add_many ss) c = (tt, unfold add_signals in refl)
  step-IsFresh find c =
      let (found, kept) = correlate-new_groups fl c in
      (
        rw found (new_groups-IsFresh c.processed_groups (candidates_now fl c)),
        ap (λ (d : SignalCorrelator F). d.processed_groups) kept,
      )

  -- Over any sequence of calls no two of the returned groups have one identifier, and none has one
  -- that was processed before.
  pub returned-IsFresh :
      (calls : List Call) (c : SignalCorrelator F) → IsFresh c.processed_groups (returned calls c)
  unfolding returned
  returned-IsFresh [] c = tt
  returned-IsFresh (call ∷ calls) c =
      let (fresh, kept) = step-IsFresh call c in
      IsFresh-append c.processed_groups (step call c).0 (returned calls (step call c).1) fresh
        (rw kept at (returned-IsFresh calls (step call c).1))
