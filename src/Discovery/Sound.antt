-- ===== src/Discovery/Sound.antt =====
-- Which receivers `discover_peers` returns.
use aircraft_malt.Prelude.{
  ◌≡◌, none, some, List, [], ◌∷◌, Str, Dict, lookup, str_lt, All, Bool-cases, inl, inr,
}
use aircraft_malt.Value.{Value}
use aircraft_malt.Discovery.Peers.{insert_by, sort_by}

-- No key stands twice.
abbrev pub IsDict : {R : Type 0} → Dict R → Type 0
IsDict [] = Unit
IsDict ((k, r) ∷ d) = (lookup k d ≡ none) × IsDict d

module _ {R : Type 0} where
  -- Each value is what a look-up of some key finds.
  abbrev Found : Dict R → R → Type 0
  Found d r = (i : Str) × (lookup i d ≡ some r)

module _ {A : Type 0} (key : A → Str) (P : A → Type 0) where
  All-insert_by : (a : A) (bs : List A) → P a → All P bs → All P (insert_by key a bs)
  unfolding insert_by
  All-insert_by a [] p h = (p, tt)
  All-insert_by a (b ∷ bs) p h = elim (Bool-cases (str_lt (key b) (key a))) [
    | inl e ↦ rw e (h.0, All-insert_by a bs p h.1)
    | inr e ↦ rw e (p, h)
  ]

  pub All-sort_by : (bs : List A) → All P bs → All P (sort_by key bs)
  unfolding sort_by
  All-sort_by [] h = tt
  All-sort_by (b ∷ bs) h = All-insert_by b (sort_by key bs) h.0 (All-sort_by bs h.1)
