-- ===== src/Api/Examples.antt =====
-- The API at a concrete request.
use aircraft_malt.Prelude.{
  ℕ, ◌≡◌, refl, map, false, Option, none, some, List, [], ◌∷◌, Str, codes, str_eq, sort_with, ◌-ℤ◌,
  ℤ, pos,
}
use aircraft_malt.Float.Fixed.{fixed}
use aircraft_malt.Store.Examples.{table}
use aircraft_malt.Api.Access.{Plan, Auth, Session, get_request_auth}
use aircraft_malt.Api.Recent.{
  Response, positions, bad_request, forbidden, failed, recent_positions, IsServed,
  recent_positions-IsServed,
}

abbrev plan : Plan
plan = record { max_history_seconds = 30; can_access_premium = false }

abbrev account : Auth
account = record {
  api_key_id = 7;
  account_id = 1;
  api_key_status = codes "active";
  account_status = codes "active";
  plan = plan;
}

abbrev authenticate : Str → Option Auth
authenticate key = some account

abbrev fresh : Session
fresh = record { auth = none; touched_keys = []; events = [] }

abbrev four : Str → Option ℤ
four text = some (pos 4)

abbrev ids_in : Response ℤ → List ℕ
ids_in (positions rows window) = map (λ p. p.id) rows
ids_in bad_request = []
ids_in forbidden = []
ids_in failed = []

-- The window is the plan's, though the request asks for the default of a minute.
served :
    ids_in
      (recent_positions fixed four authenticate none
        (some (codes "k"))
        (pos 30000000015)
        table
        none
        (some (codes "4"))
        fresh).0
    ≡ 5 ∷ 1 ∷ []
unfolding recent_positions str_eq sort_with ◌-ℤ◌
served = refl

recent_positions-IsServed_example :
    IsServed fixed four authenticate none
      (some (codes "k"))
      (pos 30000000015)
      table
      (some account, record fresh { auth = some account; touched_keys = 7 ∷ [] })
      (recent_positions fixed four authenticate none
        (some (codes "k"))
        (pos 30000000015)
        table
        none
        (some (codes "4"))
        fresh)
unfolding get_request_auth str_eq
recent_positions-IsServed_example =
    recent_positions-IsServed fixed four authenticate none (some (codes "k")) (pos 30000000015)
      table none (some (codes "4")) fresh
