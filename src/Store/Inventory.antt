-- ===== src/Store/Inventory.antt =====
-- Which receivers the database has after the runtime cached the active ones.
use aircraft_malt.Prelude.{
  ◌^◌, ◌≡◌, refl, ap, sym, ◌∙◌, inl, inr, Bool, false, not, ◌&&◌, Option, none, some, List, [], ◌∷◌,
  Str, codes, Dict, ℤ, lookup, insert, lookup-insert, str_eq, str_eq_iff, str_in, ltb, keep_if,
  Bool-cases, arith, if◌then◌else◌,
}
use mathlib.Core.Path.{subst}
use aircraft_malt.Float.{Floats}
use aircraft_malt.Value.{
  Value, int, Result, Checked, ok, err, ok_injective, require, bad_sequence, >>=-eq-ok, >>-eq-ok,
  ◌>>=◌,
}
use aircraft_malt.Discovery.Receiver.{ReceiverInfo, ckb_registry}
use aircraft_malt.Discovery.Sound.{IsDict}
use aircraft_malt.Ingest.Receivers.{Result-cases}
use aircraft_malt.Runtime.State.{ReceiverRow, Runtime}
use aircraft_malt.Runtime.Base.{
  is_some, member, keys_without, build_receiver_position, active_registry_ids, receiver_row,
  on_database, then_run, with_positions, on_receiver_cached, cache_receivers, drop_receivers,
  cache_receiver_positions,
}
use aircraft_malt.Store.Receivers.{
  StoredReceiver, Store, u64_of, delete_registry_receivers_except, stored_receiver, no_null_column,
  upsert, store_receiver, database,
}

abbrev is_stored_registry : {F : Type 0} → Option (StoredReceiver F) → Bool
is_stored_registry none = false
is_stored_registry (some r) = str_eq r.data_source ckb_registry

abbrev is_active_registry : {F : Type 0} → Option (ReceiverInfo F) → Bool
is_active_registry none = false
is_active_registry (some r) = str_eq r.data_source ckb_registry

-- Whether a receiver is there and comes from the Registry.
abbrev pub stored_registry : {F : Type 0} → Str → Dict (StoredReceiver F) → Bool
stored_registry j d = is_stored_registry (lookup j d)

abbrev pub active_registry : {F : Type 0} → Str → Dict (ReceiverInfo F) → Bool
active_registry j d = is_active_registry (lookup j d)

-- What a step leaves of Registry receivers in the database, if it returned.
abbrev pub IsInventory :
    {F : Type 0} → Dict (ReceiverInfo F) → Checked × Runtime F (Store F) → Type 0
IsInventory active (err e, q) = Unit
IsInventory active (ok u, q) =
    (j : Str) → stored_registry j q.database.receivers ≡ active_registry j active

active-twice :
    {F : Type 0}
    → (found : Option (ReceiverInfo F)) (b : Bool)
    → ((if is_some found then is_active_registry found else b) && is_active_registry found)
      ≡ is_active_registry found
active-twice none b = ground arith
active-twice (some r) b = ground arith

module _ (fl : Floats) (dumps : Value fl.F → Str) (now : Str) (int_of : Value fl.F → Result ℤ) where
  open fl use {F}

  -- What a call that stored a receiver wrote.
  store_receiver-writes :
      (row : ReceiverRow F) (s s' : Store F)
      → store_receiver fl dumps now row s ≡ ok s'
      → (entry : StoredReceiver F) × (s'.receivers ≡ insert row.receiver_id entry s.receivers)
        × (entry.data_source ≡ row.data_source)
  unfolding store_receiver
  store_receiver-writes row s s' h =
      let (n, _, h1) = >>=-eq-ok (u64_of row.registry_sequence) _ h in
      let (_, h2) = >>-eq-ok (require (ltb row.registry_updated_at (2 ^ 64)) bad_sequence) _ h1 in
      let (_, h3) = >>-eq-ok _ (upsert fl dumps now n row s) h2 in
      elim (Bool-cases (no_null_column fl dumps now row)) [
        | inl e ↦ (
          stored_receiver fl dumps now n row,
          ap (λ (t : Store F). t.receivers) (sym (ok_injective (rw e at h3))),
          refl,
        )
        | inr e ↦ absurd (let k = (rw e at h3) in cc)
      ]

  row-source :
      (id : Str) (info : ReceiverInfo F) (row : ReceiverRow F)
      → receiver_row fl (database fl dumps now) int_of dumps id info ≡ ok row
      → (row.receiver_id ≡ id) × (row.data_source ≡ info.data_source)
  unfolding receiver_row
  row-source id info row h =
      let (n, _, made) =
        >>=-eq-ok (int_of (member fl info.metadata (codes "sequence") (int false 0))) _ h in
      let same = ok_injective made in
      (
        sym (ap (λ (t : ReceiverRow F). t.receiver_id) same),
        sym (ap (λ (t : ReceiverRow F). t.data_source) same),
      )

  -- The rows that come from the Registry after a step, over those of `found` and of the old table.
  abbrev IsStored :
      Dict (ReceiverInfo F) → Dict (StoredReceiver F) → Checked × Runtime F (Store F) → Type 0
  IsStored found old (err e, q) = Unit
  IsStored found old (ok u, q) =
      (j : Str)
      → stored_registry j q.database.receivers
        ≡ (if is_some (lookup j found) then active_registry j found else stored_registry j old)

  abbrev IsEntered :
      Str → ReceiverInfo F → Dict (StoredReceiver F) → Checked × Runtime F (Store F) → Type 0
  IsEntered id info old (err e, q) = Unit
  IsEntered id info old (ok u, q) =
      (entry : StoredReceiver F) × (q.database.receivers ≡ insert id entry old)
      × (entry.data_source ≡ info.data_source)

  cached-IsEntered :
      (id : Str) (info : ReceiverInfo F) (r : Runtime F (Store F))
      → IsEntered id info r.database.receivers
          (on_receiver_cached fl (database fl dumps now) int_of dumps id info r)
  unfolding on_receiver_cached database
  cached-IsEntered id info r =
      let call : Store F → Result (Store F) = λ d.
        (receiver_row fl (database fl dumps now) int_of dumps id info >>= λ row.
        store_receiver fl dumps now row d) in
      elim (Result-cases (call r.database)) [
        | inr (raised, e) ↦ rw e tt
        | inl (d, e) ↦
            (let (row, made, stored) =
                >>=-eq-ok (receiver_row fl (database fl dumps now) int_of dumps id info) _ e in
              let (same_id, same_source) = row-source id info row made in
              let (entry, written, source) = store_receiver-writes row r.database d stored in
              rw e (
                entry,
                written ∙ ap (λ k. insert k entry r.database.receivers) same_id,
                source ∙ same_source,
              ))
      ]

  stored-insert :
      (id j : Str) (entry : StoredReceiver F) (d : Dict (StoredReceiver F))
      → stored_registry j (insert id entry d)
        ≡ (if str_eq id j then str_eq entry.data_source ckb_registry else stored_registry j d)
  stored-insert id j entry d = elim (Bool-cases (str_eq id j)) [
    | inl e ↦ rw (lookup-insert id j entry d, e) refl
    | inr e ↦ rw (lookup-insert id j entry d, e) refl
  ]

  join-IsStored :
      (id : Str) (info : ReceiverInfo F) (found : Dict (ReceiverInfo F))
      (old mid : Dict (StoredReceiver F)) (entry : StoredReceiver F)
      (outcome : Checked × Runtime F (Store F))
      → lookup id found ≡ none
      → mid ≡ insert id entry old
      → entry.data_source ≡ info.data_source
      → IsStored found mid outcome
      → IsStored ((id, info) ∷ found) old outcome
  unfolding lookup
  join-IsStored id info found old mid entry (err e, q) once written source k = tt
  join-IsStored id info found old mid entry (ok u, q) once written source k = λ j.
      (let from_mid = ap (stored_registry j) written ∙ stored-insert id j entry old in
        elim (Bool-cases (str_eq id j)) [
          | inl e ↦
              (let other : lookup j found ≡ none =
                  subst (λ i. lookup i found ≡ none) ((str_eq_iff id j).0 e) once in
                rw e (k j ∙ rw other (from_mid ∙ rw e (ap (λ s. str_eq s ckb_registry) source))))
          | inr e ↦ rw e (
              k j
              ∙ ap (λ b. if is_some (lookup j found) then active_registry j found else b)
                  (from_mid ∙ rw e refl))
        ])

  then-IsStored :
      (id : Str) (info : ReceiverInfo F) (found : Dict (ReceiverInfo F))
      (old : Dict (StoredReceiver F)) (step : Checked × Runtime F (Store F))
      (rest : Runtime F (Store F) → Checked × Runtime F (Store F))
      → lookup id found ≡ none
      → IsEntered id info old step
      → ((q : Runtime F (Store F)) → IsStored found q.database.receivers (rest q))
      → IsStored ((id, info) ∷ found) old (then_run step rest)
  then-IsStored id info found old (err e, q) rest once h k = tt
  then-IsStored id info found old (ok u, q) rest once h k =
      let (entry, written, source) = h in
      join-IsStored id info found old q.database.receivers entry (rest q) once written source (k q)

  cache_receivers-IsStored :
      (found : Dict (ReceiverInfo F)) (r : Runtime F (Store F))
      → IsDict found
      → IsStored found r.database.receivers
          (cache_receivers fl (database fl dumps now) int_of dumps found r)
  unfolding cache_receivers lookup
  cache_receivers-IsStored [] r d = λ j. refl
  cache_receivers-IsStored ((id, info) ∷ found) r d =
      let entered =
        with_positions r (insert id (build_receiver_position id info) r.receiver_positions) in
      then-IsStored id info found r.database.receivers
        (on_receiver_cached fl (database fl dumps now) int_of dumps id info entered)
        (cache_receivers fl (database fl dumps now) int_of dumps found) d.0
        (cached-IsEntered id info entered) (λ q. cache_receivers-IsStored found q d.1)

  -- The identifiers that the runtime hands to the database are those of active Registry receivers.
  str_in-active :
      (j : Str) (d : Dict (ReceiverInfo F))
      → IsDict d
      → str_in j (active_registry_ids d) ≡ active_registry j d
  unfolding str_in lookup
  str_in-active j [] h = refl
  str_in-active j ((id, info) ∷ d) h =
      let rest = str_in-active j d h.1 in
      let swap : str_eq j id ≡ str_eq id j = ground (arith, str_eq_iff j id, str_eq_iff id j) in
      elim (Bool-cases (str_eq id j)) [
        | inl e ↦
            (let other : lookup j d ≡ none =
                subst (λ i. lookup i d ≡ none) ((str_eq_iff id j).0 e) h.0 in
              let absent : str_in j (active_registry_ids d) ≡ false = rest ∙ rw other refl in
              elim (Bool-cases (str_eq info.data_source ckb_registry)) [
                | inl c ↦ rw (c, swap, e) (sym c)
                | inr c ↦ rw (c, e) (absent ∙ sym c)
              ])
        | inr e ↦ elim (Bool-cases (str_eq info.data_source ckb_registry)) [
          | inl c ↦ rw (c, swap, e) rest
          | inr c ↦ rw (c, e) rest
        ]
      ]

  -- Deleting all Registry rows but those of some identifiers.
  abbrev kept_rows : List Str → Dict (StoredReceiver F) → Dict (StoredReceiver F)
  kept_rows ids = keep_if (λ e. not (str_eq e.1.data_source ckb_registry && not (str_in e.0 ids)))

  kept-others :
      (ids : List Str) (j : Str) (d : Dict (StoredReceiver F))
      → str_in j ids ≡ false
      → stored_registry j (kept_rows ids d) ≡ false
  unfolding lookup
  kept-others ids j [] h = refl
  kept-others ids j ((k, entry) ∷ d) h =
      let same : k ≡ j → str_in k ids ≡ str_in j ids = λ e. ap (λ i. str_in i ids) e in
      elim (Bool-cases (str_eq entry.data_source ckb_registry && not (str_in k ids))) [
        | inl e ↦ rw e (kept-others ids j d h)
        | inr e ↦ rw e (elim (Bool-cases (str_eq k j)) [
          | inl u ↦ rw u (ground (arith, e, h, same, (str_eq_iff k j).0 u))
          | inr u ↦ rw u (kept-others ids j d h)
        ])
      ]

  stored-kept :
      (ids : List Str) (j : Str) (d : Dict (StoredReceiver F))
      → stored_registry j (kept_rows ids d) ≡ (stored_registry j d && str_in j ids)
  unfolding lookup
  stored-kept ids j [] = refl
  stored-kept ids j ((k, entry) ∷ d) =
      let same : k ≡ j → str_in k ids ≡ str_in j ids = λ e. ap (λ i. str_in i ids) e in
      elim (Bool-cases (str_eq k j)) [
        | inl u ↦ elim (Bool-cases (str_eq entry.data_source ckb_registry && not (str_in k ids))) [
          | inl e ↦
              (let gone : str_in j ids ≡ false = ground (arith, e, same, (str_eq_iff k j).0 u) in
                rw (e, u) (kept-others ids j d gone ∙ ground (arith, gone)))
          | inr e ↦ rw (e, u) (ground (arith, e, same, (str_eq_iff k j).0 u))
        ]
        | inr u ↦ elim (Bool-cases (str_eq entry.data_source ckb_registry && not (str_in k ids))) [
          | inl e ↦ rw (e, u) (stored-kept ids j d)
          | inr e ↦ rw (e, u) (stored-kept ids j d)
        ]
      ]

  finished-IsInventory :
      (active : Dict (ReceiverInfo F)) (old : Dict (StoredReceiver F))
      (outcome : Checked × Runtime F (Store F))
      → IsDict active
      → IsStored active old outcome
      → IsInventory active (
          then_run outcome (
            on_database (
              (database fl dumps now).delete_registry_receivers_except
                (active_registry_ids active))))
  unfolding database delete_registry_receivers_except
  finished-IsInventory active old (err e, q) d k = tt
  finished-IsInventory active old (ok u, q) d k = λ j.
      (stored-kept (active_registry_ids active) j q.database.receivers
        ∙ ap (λ b. stored_registry j q.database.receivers && b) (str_in-active j active d)
        ∙ ap (λ b. b && active_registry j active) (k j)
        ∙ active-twice (lookup j active) (stored_registry j old))

  dropped-IsInventory :
      (active : Dict (ReceiverInfo F)) (step : Checked × Runtime F (Store F))
      (rest : Runtime F (Store F) → Checked × Runtime F (Store F))
      → ((q : Runtime F (Store F)) → IsInventory active (rest q))
      → IsInventory active (then_run step rest)
  dropped-IsInventory active (err e, q) rest k = tt
  dropped-IsInventory active (ok u, q) rest k = k q

  -- Once the runtime has cached the receivers without an exception, a receiver is in the database as
  -- one of the Registry if and only if the client has it as an active Registry receiver. The client's
  -- dictionary of active receivers has each key once.
  pub cache_receiver_positions-IsInventory :
      (r : Runtime F (Store F))
      → IsDict r.network_client.active_receivers
      → IsInventory r.network_client.active_receivers
          (cache_receiver_positions fl (database fl dumps now) int_of dumps r)
  unfolding cache_receiver_positions
  cache_receiver_positions-IsInventory r d =
      let active = r.network_client.active_receivers in
      let db = database fl dumps now in
      dropped-IsInventory active
        (drop_receivers fl db int_of dumps (keys_without r.receiver_positions active) r) _
        (λ q.
          finished-IsInventory active q.database.receivers
            (cache_receivers fl db int_of dumps active q) d (cache_receivers-IsStored active q d))
