-- ===== src/Runtime/Keys.antt =====
-- Which keys a dictionary has after insertions and removals.
use aircraft_malt.Prelude.{
  ◌≡◌, refl, ap, Bool, not, ◌&&◌, ◌||◌, List, [], ◌∷◌, Str, Dict, lookup, insert, remove,
  lookup-insert, lookup-remove, str_eq, str_in, map, keep_if, str_eq_iff, arith,
}
use aircraft_malt.Runtime.Base.{is_some, remove_all, keys_without}

abbrev pub has {ℓ} : {V : Type ℓ} → Str → Dict V → Bool
has k d = is_some (lookup k d)

module _ {ℓ} {V : Type ℓ} where
  pub has-insert : (k j : Str) (v : V) (d : Dict V) → has j (insert k v d) ≡ (str_eq k j || has j d)
  has-insert k j v d = ground (arith, lookup-insert k j v d)

  pub has-remove : (k j : Str) (d : Dict V) → has j (remove k d) ≡ (has j d && not (str_eq k j))
  has-remove k j d = ground (arith, lookup-remove k j d)

  pub has-remove_all :
      (ks : List Str) (j : Str) (d : Dict V)
      → has j (remove_all ks d) ≡ (has j d && not (str_in j ks))
  unfolding remove_all str_in
  has-remove_all [] j d = ground arith
  has-remove_all (k ∷ ks) j d =
      ground
        (arith, has-remove_all ks j (remove k d), has-remove k j d, str_eq_iff k j, str_eq_iff j k)

  pub has-cons : (k j : Str) (v : V) (d : Dict V) → has j ((k, v) ∷ d) ≡ (str_eq k j || has j d)
  unfolding lookup
  has-cons k j v d = ground arith

-- The keys of the entries whose key passes a test.
pub str_in-kept {ℓ} :
    {V : Type ℓ} (p : Str → Bool) (j : Str) (d : Dict V)
    → str_in j (map (λ entry. entry.0) (keep_if (λ entry. p entry.0) d)) ≡ (has j d && p j)
unfolding str_in lookup
str_in-kept p j [] = refl
str_in-kept p j ((k, v) ∷ d) =
    let same : k ≡ j → p k ≡ p j = λ e. ap p e in
    ground (arith, str_in-kept p j d, str_eq_iff k j, str_eq_iff j k, same)

pub str_in-keys_without {ℓ κ} :
    {V : Type ℓ} {W : Type κ} (d : Dict V) (e : Dict W) (j : Str)
    → str_in j (keys_without d e) ≡ (has j d && not (has j e))
unfolding keys_without
str_in-keys_without d e j = str_in-kept (λ k. not (has k e)) j d

-- A dictionary without the keys that another lacks.
pub has-common {ℓ κ} :
    {V : Type ℓ} {W : Type κ} (d : Dict V) (e : Dict W) (j : Str)
    → has j (remove_all (keys_without d e) d) ≡ (has j d && has j e)
has-common d e j = ground (arith, has-remove_all (keys_without d e) j d, str_in-keys_without d e j)
