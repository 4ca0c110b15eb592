-- ===== src/RateLimit/Window.antt =====
-- One client's bucket against a limiter that remembers every accepted request and counts those in
-- the window.
use aircraft_malt.Prelude.{
  ℕ, ◌^◌, ◌<◌, ◌≡◌, refl, sym, ◌∙◌, ap, inl, inr, Bool, true, false, not, List, [], ◌∷◌, ◌++◌, leb,
  length, All, All-append, All-map, keep_if, keep_if-All, All-keep_if, arith, Bool-cases,
  if◌then◌else◌,
}
use aircraft_malt.Float.{Floats, IsIeee}
use aircraft_malt.RateLimit.{drop_expired, consume_bucket}

module _ (fl : Floats) where
  open fl use {F, le, is_finite, sub, of_u64}

  -- Inside the window that begins behind the cutoff.
  abbrev pub is_live : F → F → Bool
  is_live cutoff t = not (le t cutoff)

  -- The reference: nothing is ever forgotten.
  abbrev pub reference_step : ℕ → ℕ → F → List F → List F × Bool
  reference_step limit window now history =
      if leb limit (length (keep_if (is_live (sub now (of_u64 window))) history))
      then (history, false)
      else (history ++ now ∷ [], true)

  -- The decisions for the requests of one client, by the code and by the reference.
  unfoldable pub decisions : ℕ → ℕ → List F → List F → List Bool
  decisions limit window [] bucket = []
  decisions limit window (now ∷ times) bucket =
      let (bucket', allowed) = consume_bucket fl limit window now bucket in
      allowed ∷ decisions limit window times bucket'

  abbrev pub reference_decisions : ℕ → ℕ → List F → List F → List Bool
  reference_decisions limit window [] history = []
  reference_decisions limit window (now ∷ times) history =
      let (history', allowed) = reference_step limit window now history in
      allowed ∷ reference_decisions limit window times history'

  -- Each time is at most each later one.
  abbrev pub IsAscending : List F → Type 0
  IsAscending [] = Unit
  IsAscending (t ∷ ts) = All (λ u. le t u ≡ true) ts × IsAscending ts

  -- A clock reading for which the window is visible: it is finite, and less the window it is
  -- smaller. Readings of `time.monotonic` are so for any window of a second or more, up to 2 ** 53.
  abbrev pub IsReading : ℕ → F → Type 0
  IsReading window t = (is_finite t ≡ true) × (le t (sub t (of_u64 window)) ≡ false)

  module _ (laws : IsIeee fl) where
    later-live :
        (cutoff t : F) (ts : List F)
        → le t cutoff ≡ false
        → All (λ u. le t u ≡ true) ts
        → All (λ u. is_live cutoff u ≡ true) ts
    later-live cutoff t [] e h = tt
    later-live cutoff t (u ∷ ts) e h =
        (ground (arith, laws.le_trans t u cutoff), later-live cutoff t ts e h.1)

    -- On an ascending bucket, dropping from the front is filtering.
    drop_expired-ascending :
        (cutoff : F) (bucket : List F)
        → IsAscending bucket
        → drop_expired fl cutoff bucket ≡ keep_if (is_live cutoff) bucket
    unfolding drop_expired
    drop_expired-ascending cutoff [] h = refl
    drop_expired-ascending cutoff (t ∷ bucket) h = elim (Bool-cases (le t cutoff)) [
      | inl e ↦ rw e (drop_expired-ascending cutoff bucket h.1)
      | inr e ↦ rw e (
          ap (λ (b : List F). t ∷ b)
            (sym (keep_if-All _ bucket (later-live cutoff t bucket e h.0))))
    ]

    keep_if-live :
        (c d : F) (history : List F)
        → le c d ≡ true
        → keep_if (is_live d) (keep_if (is_live c) history) ≡ keep_if (is_live d) history
    keep_if-live c d [] h = refl
    keep_if-live c d (t ∷ history) h =
        ground (arith, keep_if-live c d history h, laws.le_trans t c d)

    IsAscending-keep_if : (p : F → Bool) (ts : List F) → IsAscending ts → IsAscending (keep_if p ts)
    IsAscending-keep_if p [] h = tt
    IsAscending-keep_if p (t ∷ ts) h = elim (Bool-cases (p t)) [
      | inl e ↦ rw e (All-keep_if _ p ts h.0, IsAscending-keep_if p ts h.1)
      | inr e ↦ rw e (IsAscending-keep_if p ts h.1)
    ]

    IsAscending-append :
        (ts : List F) (now : F)
        → IsAscending ts
        → All (λ t. le t now ≡ true) ts
        → IsAscending (ts ++ now ∷ [])
    IsAscending-append [] now h k = (tt, tt)
    IsAscending-append (t ∷ ts) now h k =
        (All-append _ ts (now ∷ []) h.0 (k.0, tt), IsAscending-append ts now h.1 k.1)

    keep_if-append :
        (p : F → Bool) (ts : List F) (now : F)
        → p now ≡ true
        → keep_if p (ts ++ now ∷ []) ≡ keep_if p ts ++ now ∷ []
    keep_if-append p [] now h = rw h
    keep_if-append p (t ∷ ts) now h = ground (arith, keep_if-append p ts now h)

    -- What holds between requests: the bucket is the part of the history behind the last cutoff.
    record IsWindow (cutoff : F) (bucket history : List F) : Type 0 where
      same : bucket ≡ keep_if (is_live cutoff) history
      ascending : IsAscending history

    live-IsWindow :
        (c d : F) (bucket history : List F)
        → le c d ≡ true
        → IsWindow c bucket history
        → drop_expired fl d bucket ≡ keep_if (is_live d) history
    live-IsWindow c d bucket history h w = rw w.same (
        drop_expired-ascending d (keep_if (is_live c) history)
          (IsAscending-keep_if (is_live c) history w.ascending)
        ∙ keep_if-live c d history h)

    module _ (limit window : ℕ) (fits : window < 2 ^ 64) where
      cutoff_at : F → F
      cutoff_at now = sub now (of_u64 window)

      decisions-from :
          (times : List F) (last : F) (bucket history : List F)
          → IsAscending (last ∷ times)
          → All (IsReading window) (last ∷ times)
          → All (λ t. le t last ≡ true) history
          → IsWindow (cutoff_at last) bucket history
          → decisions limit window times bucket ≡ reference_decisions limit window times history
      unfolding decisions consume_bucket cutoff_at
      decisions-from [] last bucket history asc fin old w = refl
      decisions-from (now ∷ times) last bucket history asc fin old w =
          let live =
            live-IsWindow (cutoff_at last) (cutoff_at now) bucket history
              (laws.sub_mono last now (of_u64 window) (laws.of_u64_finite window fits) asc.0.0) w in
          let older : All (λ t. le t now ≡ true) history =
            All-map (λ t. le t last ≡ true) (λ t. le t now ≡ true)
              (λ t h. laws.le_trans t last now h asc.0.0) history old in
          elim (Bool-cases (leb limit (length (keep_if (is_live (cutoff_at now)) history)))) [
            | inl full ↦
                rw (live, full)
                  (ap (λ (ds : List Bool). false ∷ ds)
                    (decisions-from times now _ history asc.1 fin.1 older
                      (record { same = refl; ascending = w.ascending })))
            | inr room ↦
                rw (live, room)
                  (ap (λ (ds : List Bool). true ∷ ds)
                    (decisions-from times now _ (history ++ now ∷ []) asc.1 fin.1
                      (All-append _ history (now ∷ []) older (laws.le_refl now fin.1.0.0, tt))
                      (record {
                        same =
                            sym
                              (keep_if-append (is_live (cutoff_at now)) history now (rw fin.1.0.1));
                        ascending = IsAscending-append history now w.ascending older;
                      })))
          ]

    -- For the requests of one client at ascending clock readings, the bucket that forgets expired
    -- times decides as the limiter that remembers every accepted request and allows a request
    -- exactly when fewer than `limit` accepted ones lie in the window before it. The window is below
    -- 2 ** 64 seconds, and each reading is finite and by a window less it is smaller.
    pub decisions-eq-reference :
        (limit window : ℕ) (times : List F)
        → window < 2 ^ 64
        → IsAscending times
        → All (IsReading window) times
        → decisions limit window times [] ≡ reference_decisions limit window times []
    unfolding decisions
    decisions-eq-reference limit window [] fits asc readings = refl
    decisions-eq-reference limit window (t ∷ times) fits asc readings =
        decisions-from limit window fits (t ∷ times) t [] []
          ((laws.le_refl t readings.0.0, asc.0), asc) (readings.0, readings) tt
          (record { same = refl; ascending = tt })
