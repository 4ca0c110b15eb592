-- ===== src/RateLimit/Examples.antt =====
-- The theorems on the rate limiter at concrete requests.
use aircraft_malt.Prelude.{◌≡◌, refl, List, [], ◌∷◌, All, codes, ℤ, pos, ◌+ℤ◌, ◌-ℤ◌, arith}
use aircraft_malt.Float.Fixed.{fixed, fixed-IsIeee}
use aircraft_malt.RateLimit.{Limiter, consume}
use aircraft_malt.RateLimit.Bounds.{IsBounded, consume-IsBounded}
use aircraft_malt.RateLimit.Window.{
  IsAscending, IsReading, decisions, reference_decisions, decisions-eq-reference,
}

-- One client, whose bucket is full.
abbrev busy : Limiter ℤ
busy = record {
  limit = 2;
  window_seconds = 10;
  max_clients = 1;
  buckets = (codes "a", pos 3000000000 ∷ pos 4000000000 ∷ []) ∷ [];
}

busy-IsBounded : IsBounded fixed busy
busy-IsBounded = record {
  positive = omega arith;
  buckets_fit = (omega arith, tt);
  clients_fit = omega arith;
}

consume-IsBounded_example : IsBounded fixed (consume fixed (codes "b") (pos 5000000000) busy).1
consume-IsBounded_example = consume-IsBounded fixed (codes "b") (pos 5000000000) busy busy-IsBounded

abbrev times : List ℤ
times = pos 3000000000 ∷ pos 4000000000 ∷ pos 5000000000 ∷ pos 13000000000 ∷ []

times-IsAscending : IsAscending fixed times
times-IsAscending = ((refl, (refl, (refl, tt))), ((refl, (refl, tt)), ((refl, tt), (tt, tt))))

times-IsReading : All (IsReading fixed 10) times
unfolding ◌-ℤ◌ ◌+ℤ◌
times-IsReading = ((refl, refl), ((refl, refl), ((refl, refl), ((refl, refl), tt))))

decisions-eq-reference_example :
    decisions fixed 2 10 times [] ≡ reference_decisions fixed 2 10 times []
decisions-eq-reference_example =
    decisions-eq-reference fixed fixed-IsIeee 2 10 times (omega arith) times-IsAscending
      times-IsReading
