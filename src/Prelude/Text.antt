-- ===== src/Prelude/Text.antt =====
-- Python texts as their code points, their equality and order, and dictionaries keyed by texts.
use Prim.Native.Nat.{ℕ, zero, suc, ◌+◌, ◌/◌, ◌%◌}
use Prim.Native.Char.{code}
use Prim.Native.String.{String}
use mathlib.Core.Path.{◌≡◌, refl, ap, ◌∙◌}
use mathlib.Core.Logic.{◌↔◌}
use mathlib.Core.Bool.{Bool, true, false, ◌&&◌, ◌||◌}
use mathlib.Core.List.{List, [], ◌∷◌}
use mathlib.Core.Option.{Option, none, some}
use native.Mathlib.Omega.{arith}
use aircraft_malt.Prelude.Logic.{◌==◌, ltb, if◌then◌else◌}

abbrev pub Str : Type 0
Str = List ℕ

-- A text literal as its code points.
abbrev pub codes : String → Str
codes String.[] = []
codes (String.◌∷◌ c s) = code c ∷ codes s

-- `s == t`
unfoldable pub str_eq : Str → Str → Bool
str_eq [] [] = true
str_eq [] (b ∷ t) = false
str_eq (a ∷ s) [] = false
str_eq (a ∷ s) (b ∷ t) = a == b && str_eq s t

pub str_eq_sound : (s t : Str) → str_eq s t ≡ true → s ≡ t
unfolding str_eq
str_eq_sound [] [] h = refl
str_eq_sound [] (b ∷ t) h = cc
str_eq_sound (a ∷ s) [] h = cc
str_eq_sound (a ∷ s) (b ∷ t) h = ground (arith, str_eq_sound s t)

pub str_eq_refl : (s : Str) → str_eq s s ≡ true
unfolding str_eq
str_eq_refl [] = refl
str_eq_refl (a ∷ s) = ground (arith, str_eq_refl s)

pub str_eq_iff : (s t : Str) → (str_eq s t ≡ true) ↔ (s ≡ t)
str_eq_iff s t = (str_eq_sound s t, λ e. rw e (str_eq_refl t))

pub str_eq_comm : (s t : Str) → str_eq s t ≡ str_eq t s
unfolding str_eq
str_eq_comm [] [] = refl
str_eq_comm [] (b ∷ t) = refl
str_eq_comm (a ∷ s) [] = refl
str_eq_comm (a ∷ s) (b ∷ t) = ground (arith, str_eq_comm s t)

-- `s < t`, by code points
unfoldable pub str_lt : Str → Str → Bool
str_lt [] [] = false
str_lt [] (b ∷ t) = true
str_lt (a ∷ s) [] = false
str_lt (a ∷ s) (b ∷ t) = ltb a b || (a == b && str_lt s t)

pub str_lt_irrefl : (s : Str) → str_lt s s ≡ false
unfolding str_lt
str_lt_irrefl [] = refl
str_lt_irrefl (a ∷ s) = ground (arith, str_lt_irrefl s)

pub str_lt_trans : (s t u : Str) → str_lt s t ≡ true → str_lt t u ≡ true → str_lt s u ≡ true
unfolding str_lt
str_lt_trans [] [] [] h k = h
str_lt_trans [] (b ∷ t) [] h k = k
str_lt_trans [] t (c ∷ u) h k = refl
str_lt_trans (a ∷ s) [] u h k = cc
str_lt_trans (a ∷ s) (b ∷ t) [] h k = cc
str_lt_trans (a ∷ s) (b ∷ t) (c ∷ u) h k = ground (arith, str_lt_trans s t u)

pub str_lt_total : (s t : Str) → str_lt s t ≡ false → str_lt t s ≡ false → s ≡ t
unfolding str_lt
str_lt_total [] [] h k = refl
str_lt_total [] (b ∷ t) h k = cc
str_lt_total (a ∷ s) [] h k = cc
str_lt_total (a ∷ s) (b ∷ t) h k = ground (arith, str_lt_total s t)

-- `str(n)`: the last digit first, on fuel that the number itself suffices for.
abbrev pub decimal : ℕ → ℕ → Str → Str
decimal zero n s = s
decimal (suc fuel) n s =
    let digits = (n % 10 + 48) ∷ s in
    let more = decimal fuel (n / 10) digits in if ltb n 10 then digits else more

abbrev pub show_nat : ℕ → Str
show_nat n = decimal (suc n) n []

-- `x in {…}` for a set of texts
unfoldable pub str_in : Str → List Str → Bool
str_in s [] = false
str_in s (t ∷ ts) = str_eq s t || str_in s ts

-- A dictionary in insertion order.
abbrev pub Dict {ℓ} : Type ℓ → Type ℓ
Dict V = List (Str × V)

module _ {ℓ} {V : Type ℓ} where
  unfoldable pub lookup : Str → Dict V → Option V
  lookup k [] = none
  lookup k ((j, v) ∷ d) = if str_eq j k then some v else lookup k d

  -- `d[k] = v` keeps the place of a key that is there.
  unfoldable pub insert : Str → V → Dict V → Dict V
  insert k v [] = (k, v) ∷ []
  insert k v ((j, w) ∷ d) = if str_eq j k then (j, v) ∷ d else (j, w) ∷ insert k v d

  -- `d.pop(k, None)`
  unfoldable pub remove : Str → Dict V → Dict V
  remove k [] = []
  remove k ((j, v) ∷ d) = let rest = remove k d in if str_eq j k then rest else (j, v) ∷ rest

  pub lookup-insert :
      (k j : Str) (v : V) (d : Dict V)
      → lookup j (insert k v d) ≡ (if str_eq k j then some v else lookup j d)
  unfolding lookup insert
  lookup-insert k j v [] = refl
  lookup-insert k j v ((i, w) ∷ d) =
      ground (arith, lookup-insert k j v d, str_eq_iff i k, str_eq_iff i j, str_eq_iff k j)

  pub lookup-remove :
      (k j : Str) (d : Dict V) → lookup j (remove k d) ≡ (if str_eq k j then none else lookup j d)
  unfolding lookup remove
  lookup-remove k j [] = ground arith
  lookup-remove k j ((i, w) ∷ d) =
      ground (arith, lookup-remove k j d, str_eq_iff i k, str_eq_iff i j, str_eq_iff k j)

module _ {ℓ} {V : Type ℓ} where
  -- `d.update(updates)`
  unfoldable pub with_all : Dict V → Dict V → Dict V
  with_all [] d = d
  with_all ((k, v) ∷ updates) d = with_all updates (insert k v d)

  -- What a key has behind the updates.
  abbrev pub updated : Str → Dict V → Option V → Option V
  updated j [] found = found
  updated j ((k, v) ∷ updates) found = updated j updates (if str_eq k j then some v else found)

  pub lookup-with_all :
      (j : Str) (updates d : Dict V)
      → lookup j (with_all updates d) ≡ updated j updates (lookup j d)
  unfolding with_all
  lookup-with_all j [] d = refl
  lookup-with_all j ((k, v) ∷ updates) d =
      lookup-with_all j updates (insert k v d) ∙ ap (updated j updates) (lookup-insert k j v d)
