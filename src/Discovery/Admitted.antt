-- ===== src/Discovery/Admitted.antt =====
-- What the validity policy of `_is_receiver_valid` asks of a receiver.
use aircraft_malt.Prelude.{
  ℕ, ◌≡◌, ap, refl, sym, Bool, true, Option, none, some, Str, str_eq_iff, str_eq_refl, codes, pos,
  ◌⊎◌, false, arith, Bool-cases, inl, inr,
}
use mathlib.Core.Path.{subst}
use aircraft_malt.Float.{Floats}
use aircraft_malt.Value.{Value, null, bool, int, float, str, list, dict}
use aircraft_malt.Registry.Record.{is_text}
use aircraft_malt.Discovery.Receiver.{
  ReceiverInfo, CkbConfig, is_timely, minus_seconds, is_receiver_valid,
}

module _ {F : Type 0} where
  text_lem : (v : Value F) (t : Str) → is_text v t ≡ true → v ≡ str t
  unfolding is_text
  text_lem (str s) t h = ap str ((str_eq_iff s t).0 h)
  text_lem null t h = cc
  text_lem (bool b) t h = cc
  text_lem (int minus n) t h = cc
  text_lem (float x) t h = cc
  text_lem (list vs) t h = cc
  text_lem (dict fs) t h = cc

is_text-str : (F : Type 0) (t : Str) → is_text {F = F} (str t) t ≡ true
unfolding is_text
is_text-str F t = str_eq_refl t

module _ (fl : Floats) (config : CkbConfig fl.F) where
  open fl use {F, lt, sub, of_u64, literal}

  -- What the policy asks of a receiver besides what its record has already.
  pub record IsAdmitted (now : F) (include_inactive include_revoked : Bool) (r : ReceiverInfo F)
      : Type 0 where
    pub revoked : r.status ≡ str (codes "revoked") → include_revoked ≡ true
    pub inactive :
        (r.status ≡ str (codes "online"))
        ⊎ (r.status ≡ str (codes "revoked"))
        ⊎ (include_inactive ≡ true)
    pub updated_at : ℕ
    pub known : r.registry_updated_at ≡ some updated_at
    pub not_ahead :
        lt
          (sub now (of_u64 updated_at))
          (literal (minus_seconds fl config.max_future_record_skew_seconds) 0)
        ≡ false
    pub not_old :
        (age : ℕ)
        → config.max_record_age_seconds ≡ some age
        → lt (literal (pos age) 0) (sub now (of_u64 updated_at)) ≡ false

  is_timely-facts :
      (now : F) (read : Option ℕ)
      → is_timely fl config now read ≡ true
      → (t : ℕ) × (read ≡ some t)
        × (lt
              (sub now (of_u64 t))
              (literal (minus_seconds fl config.max_future_record_skew_seconds) 0)
            ≡ false)
        × ((age : ℕ)
            → config.max_record_age_seconds ≡ some age
            → lt (literal (pos age) 0) (sub now (of_u64 t)) ≡ false)
  unfolding is_timely
  is_timely-facts now none h = cc
  is_timely-facts now (some t) h =
      (t, refl, ground arith, λ age limited. ground (arith, rw limited at h))

  pub is_receiver_valid-IsAdmitted :
      (now : F) (inactive revoked : Bool) (r : ReceiverInfo F)
      → is_receiver_valid fl config now inactive revoked r ≡ true
      → IsAdmitted now inactive revoked r
  unfolding is_receiver_valid
  is_receiver_valid-IsAdmitted now inactive revoked r h =
      let timely : is_timely fl config now r.registry_updated_at ≡ true = ground arith in
      let (t, known, not_ahead, not_old) = is_timely-facts now r.registry_updated_at timely in
      record {
        revoked = λ e.
            let k : is_text r.status (codes "revoked") ≡ true =
              subst (λ v. is_text v (codes "revoked") ≡ true) (sym e)
                (is_text-str F (codes "revoked")) in
            ground (arith, k);
        inactive = elim (Bool-cases (is_text r.status (codes "online"))) [
          | inl on ↦ inl (text_lem r.status (codes "online") on)
          | inr off ↦ elim (Bool-cases (is_text r.status (codes "revoked"))) [
            | inl out ↦ inr (inl (text_lem r.status (codes "revoked") out))
            | inr live ↦ inr (inr (ground arith))
          ]
        ];
        updated_at = t;
        known = known;
        not_ahead = not_ahead;
        not_old = not_old;
      }
