-- ===== src/Discovery/Pages.antt =====
-- src/ckb_registry/discovery.py: the pagination of `_search_receiver_cells`. The indexer is a
-- function of the number of the call and the cursor, so it may answer each call differently.
use aircraft_malt.Prelude.{
  ℕ, zero, suc, ◌≤◌, ◌≡◌, refl, sym, ap, ◌≢◌, ◌∙◌, Bool, false, not, Option, none, some, List, [],
  ◌∷◌, ◌++◌, Str, codes, str_eq, ltb, length, max, arith,
}
use mathlib.Core.List.{append_assoc}
use aircraft_malt.Value.{
  Value, null, str, list, dict, items, nil, Result, ok, err, runtime_error, ◌>>=◌, ◌>>◌, >>=-eq-ok,
  not_a_response, not_a_page, too_many_cells, no_cursor, repeated_cursor, too_many_pages,
}
use aircraft_malt.Discovery.Cells.{demand, get_from}

-- One answer of `get_cells`: the page and the cursor behind it.
pub record Page (F : Type 0) : Type 0 where
  pub objects : List (Value F)
  pub last_cursor : Value F

abbrev pub same_cursor : Str → Option Str → Bool
same_cursor c none = false
same_cursor c (some d) = str_eq c d

ok-injective : {A : Type 0} {a b : A} → ok a ≡ ok b → a ≡ b
ok-injective h = cc

cons-ne-nil : {A : Type 0} {a : A} {as' : List A} → a ∷ as' ≡ [] → ⊥
cons-ne-nil h = cc

module _ {F : Type 0} where
  abbrev read_objects : Value F → Value F → Result (Page F)
  read_objects (list vs) next_cursor = ok (record { objects = items vs; last_cursor = next_cursor })
  read_objects _ next_cursor = err (runtime_error not_a_page)

  -- The checks on the shape of a response.
  unfoldable pub read_page : Value F → Result (Page F)
  unfolding get_from
  read_page (dict fs) = do
    page ← get_from (dict fs) (codes "objects") (list nil)
    next_cursor ← get_from (dict fs) (codes "last_cursor") null
    read_objects page next_cursor
  read_page _ = err (runtime_error not_a_response)

  -- `isinstance(next_cursor, str) and next_cursor`
  unfoldable pub cursor_text : Value F → Result Str
  cursor_text (str (c ∷ s)) = ok (c ∷ s)
  cursor_text _ = err (runtime_error no_cursor)

  -- The rest of a round behind the page: an empty page is the last.
  abbrev pub after_page :
      (Str → Result (List (Value F)))
      → Option Str
      → List (Value F)
      → List (Value F)
      → Value F
      → Result (List (Value F))
  after_page rest cursor cells [] last_cursor = ok cells
  after_page rest cursor cells (_ ∷ _) last_cursor = do
    next_cursor ← cursor_text last_cursor
    demand (not (same_cursor next_cursor cursor)) repeated_cursor
    rest next_cursor

module _ {F : Type 0} (get_cells : ℕ → Option Str → Result (Value F)) (max_cells : ℕ) where
  -- `for _ in range(max_pages)`, on the number of rounds left.
  unfoldable pub fetch_pages : ℕ → ℕ → Option Str → List (Value F) → Result (List (Value F))
  unfolding read_page cursor_text
  fetch_pages zero call cursor cells = err (runtime_error too_many_pages)
  fetch_pages (suc rounds) call cursor cells = do
    response ← get_cells call cursor
    page ← read_page response
    let cells' = cells ++ page.objects
    demand (not (ltb max_cells (length cells'))) too_many_cells
    after_page (λ next_cursor. fetch_pages rounds (suc call) (some next_cursor) cells') cursor
        cells' page.objects page.last_cursor

  unfoldable pub search_receiver_cells : ℕ → Result (List (Value F))
  unfolding fetch_pages
  search_receiver_cells max_pages = fetch_pages (max 1 max_pages) 0 none []

  -- A run of the loop from a cursor: what the indexer answered, call by call. Every page but the
  -- last is non-empty and has a cursor other than the one that fetched it.
  pub data Fetched : ℕ → Option Str → List (List (Value F)) → Type 0 where
    last :
        {call : ℕ} {cursor : Option Str} {response : Value F} {page : Page F}
        → get_cells call cursor ≡ ok response
        → read_page response ≡ ok page
        → page.objects ≡ []
        → Fetched call cursor ([] ∷ [])
    more :
        {call : ℕ} {cursor : Option Str} {response : Value F} {page : Page F} {next_cursor : Str}
        {pages : List (List (Value F))}
        → get_cells call cursor ≡ ok response
        → read_page response ≡ ok page
        → page.objects ≢ []
        → cursor_text page.last_cursor ≡ ok next_cursor
        → same_cursor next_cursor cursor ≡ false
        → Fetched (suc call) (some next_cursor) pages
        → Fetched call cursor (page.objects ∷ pages)

  abbrev pub concat : List (List (Value F)) → List (Value F)
  concat [] = []
  concat (p ∷ ps) = p ++ concat ps

  abbrev IsRun : ℕ → ℕ → Option Str → List (Value F) → List (Value F) → Type 0
  IsRun rounds call cursor cells result =
      (pages : List (List (Value F))) × Fetched call cursor pages
      × (result ≡ cells ++ concat pages)
      × (length pages ≤ rounds)
      × (length result ≤ max_cells)

  module _ (rounds call : ℕ) (cursor : Option Str) (cells : List (Value F)) (response : Value F)
      (page : Page F) (answered : get_cells call cursor ≡ ok response)
      (readable : read_page response ≡ ok page) (small : length (cells ++ page.objects) ≤ max_cells)
      (ih : (next_cursor : Str) (result : List (Value F))
        → fetch_pages rounds (suc call) (some next_cursor) (cells ++ page.objects) ≡ ok result
        → IsRun rounds (suc call) (some next_cursor) (cells ++ page.objects) result) where
    after_page-IsRun :
        (objects : List (Value F)) (result : List (Value F))
        → page.objects ≡ objects
        → after_page
            (λ next_cursor.
              fetch_pages rounds (suc call) (some next_cursor) (cells ++ page.objects))
            cursor
            (cells ++ page.objects)
            objects
            page.last_cursor
          ≡ ok result
        → IsRun (suc rounds) call cursor cells result
    after_page-IsRun [] result e h = (
      [] ∷ [],
      last answered readable e,
      ok-injective (sym h) ∙ ap (λ (o : List (Value F)). cells ++ o) e,
      omega arith,
      rw (← ok-injective h) small,
    )
    after_page-IsRun (o ∷ os) result e h =
        let (next_cursor, named, h₁) = >>=-eq-ok (cursor_text page.last_cursor) _ h in
        let (u, fresh, h₂) =
          >>=-eq-ok (demand (not (same_cursor next_cursor cursor)) repeated_cursor) _ h₁ in
        let (pages, run, whole, count, bound) = ih next_cursor result h₂ in
        (
          page.objects ∷ pages,
          more answered readable (λ empty. cons-ne-nil (sym e ∙ empty)) named (ground arith) run,
          whole ∙ append_assoc cells page.objects (concat pages),
          omega arith,
          bound,
        )

  fetch_pages-IsRun :
      (rounds call : ℕ) (cursor : Option Str) (cells result : List (Value F))
      → fetch_pages rounds call cursor cells ≡ ok result
      → IsRun rounds call cursor cells result
  unfolding fetch_pages
  fetch_pages-IsRun zero call cursor cells result h = absurd (ground arith)
  fetch_pages-IsRun (suc rounds) call cursor cells result h =
      let (response, answered, h₁) = >>=-eq-ok (get_cells call cursor) _ h in
      let (page, readable, h₂) = >>=-eq-ok (read_page response) _ h₁ in
      let (u, small, h₃) =
        >>=-eq-ok (demand (not (ltb max_cells (length (cells ++ page.objects)))) too_many_cells) _
          h₂ in
      after_page-IsRun rounds call cursor cells response page answered readable (ground arith)
        (λ next_cursor r.
          fetch_pages-IsRun rounds (suc call) (some next_cursor) (cells ++ page.objects) r)
        page.objects result refl h₃

  -- A search that succeeds has made at most `max_pages` calls (one at least is allowed), returns the
  -- concatenation of the pages of a run that ended with an empty page, none of its cursors the one
  -- just used, and returns at most `max_cells` cells.
  pub search_receiver_cells-IsRun :
      (max_pages : ℕ) (result : List (Value F))
      → search_receiver_cells max_pages ≡ ok result
      → (pages : List (List (Value F))) × Fetched 0 none pages
        × (result ≡ concat pages)
        × (length pages ≤ max 1 max_pages)
        × (length result ≤ max_cells)
  unfolding search_receiver_cells
  search_receiver_cells-IsRun max_pages result h =
      fetch_pages-IsRun (max 1 max_pages) 0 none [] result h
