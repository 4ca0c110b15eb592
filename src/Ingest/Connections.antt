-- ===== src/Ingest/Connections.antt =====
-- Each WebSocket connection is bound to the one receiver that its endpoint is assigned to.
use aircraft_malt.Prelude.{
  ◌≡◌, refl, sym, ◌∙◌, ap, inl, inr, ◌⊎◌, Bool, true, false, ◌||◌, not, Option, none, some, List,
  [], ◌∷◌, ◌++◌, Str, Dict, lookup, lookup-insert, str_eq, str_eq_sound, Bool-cases, if◌then◌else◌,
}
use mathlib.Core.Path.{subst}
use mathlib.Core.List.{append-nil, append_assoc}
use aircraft_malt.Float.{Floats}
use aircraft_malt.Value.{Result, ok, err}
use aircraft_malt.Discovery.Receiver.{ReceiverInfo}
use aircraft_malt.Ingest.Transport.{
  endpoint_of, is_other_protocol, ids_of, assign_endpoint, assign_endpoints, bind_connections,
  websocket_connections,
}

-- What the two dictionaries hold at an endpoint.
abbrev IsBound : Option (List Str) → Option Str → Type 0
IsBound assigned bound =
    ((assigned ≡ none) × (bound ≡ none))
    ⊎ ((id : Str) × (assigned ≡ some (id ∷ [])) × (bound ≡ some id))

true-ne-false : {b : Bool} → b ≡ true → b ≡ false → ⊥
true-ne-false h k = cc

ok-injective : {A : Type 0} {a b : A} → ok a ≡ ok b → a ≡ b
ok-injective h = cc

-- What a successful loop did behind its first endpoint.
bound_tail :
    (e id : Str) (tail : Result (Dict Str)) {bound : Dict Str}
    → (elim tail as (λ _. Result (Dict Str)) [
      | err raised ↦ err raised
      | ok cs ↦ ok ((e, id) ∷ cs)
    ])
      ≡ ok bound
    → (rest : Dict Str) × (tail ≡ ok rest) × ((e, id) ∷ rest ≡ bound)
bound_tail e id (err raised) h = cc
bound_tail e id (ok rest) h = (rest, refl, ok-injective h)

IsBound-head :
    (endpoint e id : Str) (d : Dict (List Str)) (rest : Dict Str)
    → IsBound (lookup endpoint d) (lookup endpoint rest)
    → IsBound (lookup endpoint ((e, id ∷ []) ∷ d)) (lookup endpoint ((e, id) ∷ rest))
unfolding lookup
IsBound-head endpoint e id d rest h = elim (Bool-cases (str_eq e endpoint)) [
  | inl same ↦ rw same (inr (id, refl, refl))
  | inr other ↦ rw other h
]

bind_connections-IsBound :
    (endpoint : Str) (d : Dict (List Str)) {bound : Dict Str}
    → bind_connections d ≡ ok bound
    → IsBound (lookup endpoint d) (lookup endpoint bound)
unfolding bind_connections lookup
bind_connections-IsBound endpoint [] h =
    subst (λ b. IsBound none (lookup endpoint b)) (ok-injective h) (inl (refl, refl))
bind_connections-IsBound endpoint ((e, []) ∷ d) h = cc
bind_connections-IsBound endpoint ((e, id ∷ id' ∷ ids) ∷ d) h = cc
bind_connections-IsBound endpoint ((e, id ∷ []) ∷ d) h =
    let (rest, tail, same) = bound_tail e id (bind_connections d) h in
    subst (λ b. IsBound (lookup endpoint ((e, id ∷ []) ∷ d)) (lookup endpoint b)) same
      (IsBound-head endpoint e id d rest (bind_connections-IsBound endpoint d tail))

passed_over :
    (other : Bool) (used endpoint : Str)
    → (other || str_eq used []) ≡ true
    → str_eq endpoint [] ≡ false
    → (other || not (str_eq used endpoint)) ≡ true
passed_over true used endpoint skip h = refl
passed_over false used endpoint skip h = elim (Bool-cases (str_eq used endpoint)) [
  | inl same ↦ absurd (true-ne-false (rw (str_eq_sound used endpoint same) at skip) h)
  | inr apart ↦ rw apart
]

assign_endpoint-at :
    (other : Bool) (used endpoint id : Str) (rest : List Str) (d : Dict (List Str))
    → (other || str_eq used []) ≡ false
    → ids_of (lookup endpoint (assign_endpoint used id d)) ++ rest
      ≡ ids_of (lookup endpoint d)
        ++ (if other || not (str_eq used endpoint) then rest else id ∷ rest)
assign_endpoint-at true used endpoint id rest d kept = cc
assign_endpoint-at false used endpoint id rest d kept =
    rw (lookup-insert used endpoint (ids_of (lookup used d) ++ id ∷ []) d)
      (elim (Bool-cases (str_eq used endpoint)) [
        | inl same ↦ rw (same, str_eq_sound used endpoint same, append_assoc)
        | inr apart ↦ rw apart
      ])

module _ (fl : Floats) (default : Str) where
  open fl use {F}

  -- The receivers that use the endpoint, in order.
  abbrev pub receivers_at : Str → Dict (ReceiverInfo F) → List Str
  receivers_at endpoint [] = []
  receivers_at endpoint ((id, r) ∷ active) =
      let rest = receivers_at endpoint active in
      if is_other_protocol fl r || not (str_eq (endpoint_of fl default r) endpoint)
      then rest
      else id ∷ rest

  assign_endpoints-at :
      (endpoint : Str) (active : Dict (ReceiverInfo F)) (d : Dict (List Str))
      → str_eq endpoint [] ≡ false
      → ids_of (lookup endpoint (assign_endpoints fl default active d))
        ≡ ids_of (lookup endpoint d) ++ receivers_at endpoint active
  unfolding assign_endpoints
  assign_endpoints-at endpoint [] d h = sym (append-nil _)
  assign_endpoints-at endpoint ((id, r) ∷ active) d h =
      let used = endpoint_of fl default r in
      let other = is_other_protocol fl r in
      elim (Bool-cases (other || str_eq used [])) [
        | inl skip ↦
            rw (skip, passed_over other used endpoint skip h)
              (assign_endpoints-at endpoint active d h)
        | inr kept ↦ rw kept (
            assign_endpoints-at endpoint active (assign_endpoint used id d) h
            ∙ assign_endpoint-at other used endpoint id (receivers_at endpoint active) d kept)
      ]

  -- With the transport's tasks created, an endpoint is connected to exactly if receivers use it. Then
  -- one receiver alone uses it, and the connection is bound to that receiver.
  pub websocket_connections-IsBound :
      (active : Dict (ReceiverInfo F)) (connections : Dict Str) (endpoint : Str)
      → websocket_connections fl default active ≡ ok connections
      → str_eq endpoint [] ≡ false
      → ((receivers_at endpoint active ≡ []) × (lookup endpoint connections ≡ none))
        ⊎ ((id : Str) × (receivers_at endpoint active ≡ id ∷ [])
            × (lookup endpoint connections ≡ some id))
  unfolding websocket_connections lookup
  websocket_connections-IsBound active connections endpoint made h =
      let d = assign_endpoints fl default active [] in
      let at_endpoint = sym (assign_endpoints-at endpoint active [] h) in
      elim (bind_connections-IsBound endpoint d made) [
        | inl (unused, unbound) ↦ inl (at_endpoint ∙ ap ids_of unused, unbound)
        | inr (id, used, bound) ↦ inr (id, at_endpoint ∙ ap ids_of used, bound)
      ]
