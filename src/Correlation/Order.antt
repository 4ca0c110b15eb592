-- ===== src/Correlation/Order.antt =====
-- The order of `signal_time_key`, on signals whose wall-clock time is finite.
use aircraft_malt.Prelude.{◌≡◌, inl, inr, Bool, true, false, none, some, IsOrder, arith, Bool-cases}
use aircraft_malt.Float.{Floats, IsIeee}
use aircraft_malt.Correlation.Signal.{
  RawSignal, TimeKey, precise, wall, key_of, signal_time_key, key_lt, signal_before,
}

true-ne-false : {b : Bool} → b ≡ true → b ≡ false → ⊥
true-ne-false h k = cc

-- The wall-clock time is finite.
abbrev pub HasTime : (fl : Floats) → RawSignal fl.F → Type 0
HasTime fl s = fl.is_finite s.timestamp ≡ true

module _ (fl : Floats) (laws : IsIeee fl) where
  open fl use {F, is_finite, lt, le}

  abbrev KeyIsFinite : TimeKey F → Type 0
  KeyIsFinite (precise ns) = Unit
  KeyIsFinite (wall t) = is_finite t ≡ true

  key_of-KeyIsFinite : (s : RawSignal F) → HasTime fl s → KeyIsFinite (signal_time_key s)
  unfolding signal_time_key
  key_of-KeyIsFinite s h = elim s.timestamp_ns as (λ ns. KeyIsFinite (key_of ns s.timestamp)) [
    | none ↦ h
    | some ns ↦ tt
  ]

  not_lt_of_le : (x y : F) → le x y ≡ true → lt y x ≡ false
  not_lt_of_le x y h = elim (Bool-cases (lt y x)) [
    | inl e ↦ absurd (true-ne-false h (laws.not_le_of_lt y x e))
    | inr e ↦ e
  ]

  key_lt-asym :
      (a b : TimeKey F)
      → KeyIsFinite a
      → KeyIsFinite b
      → key_lt fl a b ≡ true
      → key_lt fl b a ≡ false
  unfolding key_lt
  key_lt-asym (precise a) (precise b) p q h = ground arith
  key_lt-asym (precise a) (wall b) p q h = ground arith
  key_lt-asym (wall a) (precise b) p q h = cc
  key_lt-asym (wall a) (wall b) p q h = not_lt_of_le a b (laws.le_of_lt a b h)

  key_lt-negatively_trans :
      (a b c : TimeKey F)
      → KeyIsFinite a
      → KeyIsFinite b
      → KeyIsFinite c
      → key_lt fl b a ≡ false
      → key_lt fl c b ≡ false
      → key_lt fl c a ≡ false
  unfolding key_lt
  key_lt-negatively_trans (precise a) (precise b) (precise c) p q r h k = ground arith
  key_lt-negatively_trans (precise a) (precise b) (wall c) p q r h k = ground arith
  key_lt-negatively_trans (precise a) (wall b) (precise c) p q r h k = cc
  key_lt-negatively_trans (precise a) (wall b) (wall c) p q r h k = ground arith
  key_lt-negatively_trans (wall a) (precise b) c p q r h k = cc
  key_lt-negatively_trans (wall a) (wall b) (precise c) p q r h k = cc
  key_lt-negatively_trans (wall a) (wall b) (wall c) p q r h k =
      not_lt_of_le a c (laws.le_trans a b c (laws.lt_flip b a q p h) (laws.lt_flip c b r q k))

  pub signal_before-IsOrder : IsOrder (signal_before fl) (HasTime fl)
  unfolding signal_before
  signal_before-IsOrder = record {
    asym = λ a b p q. key_lt-asym _ _ (key_of-KeyIsFinite a p) (key_of-KeyIsFinite b q);
    negatively_trans = λ a b c p q r.
        key_lt-negatively_trans _ _ _ (key_of-KeyIsFinite a p) (key_of-KeyIsFinite b q)
          (key_of-KeyIsFinite c r);
  }
