-- ===== src/Store/Delivery.antt =====
-- That the broadcaster sends every position, and when it is done.
use aircraft_malt.Prelude.{
  ℕ, zero, suc, ◌+◌, ◌-◌, ◌≤◌, ◌<◌, max, ltb, ◌≡◌, refl, sym, ap, ◌∙◌, inl, inr, true, false,
  Option, none, some, List, [], ◌∷◌, ◌++◌, length, take, drop, keep_if, keep_if-passes,
  sort_with-id, IsSorted, All, All-map, Pairwise, Pairwise-keep_if, Pairwise-weaken, ◌==◌,
  Bool-cases, arith, tests,
}
use mathlib.Core.List.{append_assoc, append-nil}
use aircraft_malt.Float.{Floats}
use aircraft_malt.Store.Positions.{
  StoredPosition, Positions, by_id, get_positions_after_id, get_position_by_id, first_of,
}
use aircraft_malt.Store.Invariant.{IsBefore, IsTable}
use aircraft_malt.Store.Broadcast.{
  Broadcaster, Board, broadcast, broadcast_all, broadcast_found, take_event, rounds,
}

module _ {F : Type 0} where
  abbrev IsAfter : ℕ → StoredPosition F → Type 0
  IsAfter n p = n < p.id

  abbrev Ascends : StoredPosition F → StoredPosition F → Type 0
  Ascends p q = p.id < q.id

  -- The rows with larger ids, in the order of the table.
  abbrev pub pending : ℕ → List (StoredPosition F) → List (StoredPosition F)
  pending n = keep_if (λ p. ltb n p.id)

  pending-All : (n : ℕ) (ps : List (StoredPosition F)) → All (IsAfter n) ps → pending n ps ≡ ps
  pending-All n [] h = refl
  pending-All n (p ∷ ps) h =
      let first : ltb n p.id ≡ true = grind (tests, h.0) in rw (first, pending-All n ps h.1)

  pending-pending :
      (m n : ℕ) (ps : List (StoredPosition F)) → m ≤ n → pending n (pending m ps) ≡ pending n ps
  pending-pending m n [] h = refl
  pending-pending m n (p ∷ ps) h = elim (Bool-cases (ltb m p.id)) [
    | inl e ↦ rw (e, pending-pending m n ps h)
    | inr e ↦
        (let small : ltb n p.id ≡ false = grind (tests, h, e) in
          rw (e, small) (pending-pending m n ps h))
  ]

  broadcast_all-last :
      (ps : List (StoredPosition F)) (b : Broadcaster F)
      → b.last_position_id ≤ (broadcast_all ps b).last_position_id
  unfolding broadcast_all broadcast
  broadcast_all-last [] b = omega arith
  broadcast_all-last (p ∷ ps) b = omega (arith, broadcast_all-last ps (broadcast p b))

  broadcast_all-sent :
      (ps : List (StoredPosition F)) (b : Broadcaster F) → (broadcast_all ps b).sent ≡ b.sent ++ ps
  unfolding broadcast_all broadcast
  broadcast_all-sent [] b = sym (append-nil b.sent)
  broadcast_all-sent (p ∷ ps) b =
      broadcast_all-sent ps (broadcast p b) ∙ append_assoc b.sent (p ∷ []) ps

  -- After a page what is left of ascending rows are those behind the page.
  page-rest :
      (k : ℕ) (ps : List (StoredPosition F)) (b : Broadcaster F)
      → Pairwise Ascends ps
      → All (IsAfter b.last_position_id) ps
      → pending (broadcast_all (take k ps) b).last_position_id ps ≡ drop k ps
  unfolding broadcast_all
  page-rest zero ps b h k = pending-All b.last_position_id ps k
  page-rest (suc n) [] b h k = refl
  page-rest (suc n) (p ∷ ps) b h k =
      let sent = broadcast p b in
      let after : max b.last_position_id p.id ≡ p.id = omega (arith, k.0) in
      let reached : sent.last_position_id ≡ p.id = unfold broadcast in after in
      let small : ltb (broadcast_all (take n ps) sent).last_position_id p.id ≡ false =
        grind (tests, broadcast_all-last (take n ps) sent, reached) in
      rw small (
        page-rest n ps sent h.1 (
          All-map (Ascends p) (IsAfter sent.last_position_id) (λ q j. omega (arith, j, reached)) ps
            h.0))

  take-drop : (k : ℕ) (ps : List (StoredPosition F)) → take k ps ++ drop k ps ≡ ps
  take-drop zero ps = refl
  take-drop (suc k) [] = refl
  take-drop (suc k) (p ∷ ps) = ap (λ qs. p ∷ qs) (take-drop k ps)

  length-drop : (k : ℕ) (ps : List (StoredPosition F)) → length (drop k ps) ≡ length ps - k
  length-drop zero ps = omega arith
  length-drop (suc k) [] = omega arith
  length-drop (suc k) (p ∷ ps) = omega (arith, length-drop k ps)

  length-pending : (n : ℕ) (ps : List (StoredPosition F)) → length (pending n ps) ≤ length ps
  length-pending n [] = omega arith
  length-pending n (p ∷ ps) = elim (Bool-cases (ltb n p.id)) [
    | inl e ↦ rw e (omega (arith, length-pending n ps))
    | inr e ↦ rw e (omega (arith, length-pending n ps))
  ]

  empty_of_length : (ps : List (StoredPosition F)) → length ps ≤ 0 → ps ≡ []
  empty_of_length [] h = refl
  empty_of_length (p ∷ ps) h = absurd (omega (arith, h))

  ascending-IsSorted : (ps : List (StoredPosition F)) → Pairwise Ascends ps → IsSorted by_id ps
  ascending-IsSorted [] h = tt
  ascending-IsSorted (p ∷ ps) h = (
    All-map (Ascends p) (λ q. by_id q p ≡ false) (λ q k. grind (tests, k)) ps h.0,
    ascending-IsSorted ps h.1,
  )

  pending-IsAfter : (n : ℕ) (ps : List (StoredPosition F)) → All (IsAfter n) (pending n ps)
  pending-IsAfter n ps =
      All-map (λ p. ltb n p.id ≡ true) (IsAfter n) (λ p k. grind (tests, k)) (pending n ps)
        (keep_if-passes (λ p. ltb n p.id) ps)

  get_positions_after_id_lem :
      (n k : ℕ) (s : Positions F)
      → Pairwise Ascends s.rows
      → get_positions_after_id n k s ≡ take k (pending n s.rows)
  unfolding get_positions_after_id
  get_positions_after_id_lem n k s h = ap (take k) (
      sort_with-id by_id (pending n s.rows) (
        ascending-IsSorted (pending n s.rows)
          (Pairwise-keep_if Ascends (λ p. ltb n p.id) s.rows h)))

  quiet_round :
      (s : Board F)
      → Pairwise Ascends s.table.rows
      → take_event [] s ≡ record s {
        broadcaster =
            broadcast_all
              (take 200 (pending s.broadcaster.last_position_id s.table.rows))
              s.broadcaster;
      }
  unfolding take_event
  quiet_round s h =
      ap
        (λ (page : List (StoredPosition F)). record s {
          broadcaster = broadcast_all page s.broadcaster;
        })
        (get_positions_after_id_lem s.broadcaster.last_position_id 200 s.table h)

  -- Without events the rounds page through the rows with larger ids.
  paging :
      (n : ℕ) (s : Board F)
      → s.table.events ≡ []
      → Pairwise Ascends s.table.rows
      → length (pending s.broadcaster.last_position_id s.table.rows) ≤ n
      → (rounds n s).broadcaster.sent
        ≡ s.broadcaster.sent ++ pending s.broadcaster.last_position_id s.table.rows
  unfolding rounds take_event
  paging zero s e h k =
      let none_left = empty_of_length (pending s.broadcaster.last_position_id s.table.rows) k in
      rw none_left (sym (append-nil s.broadcaster.sent))
  paging (suc n) s e h k =
      let rows = s.table.rows in
      let b = s.broadcaster in
      let left = pending b.last_position_id rows in
      let page = take 200 left in
      let b' = broadcast_all page b in
      let more =
        sym
          (pending-pending b.last_position_id b'.last_position_id rows (broadcast_all-last page b))
        ∙ page-rest 200 left b (Pairwise-keep_if Ascends (λ p. ltb b.last_position_id p.id) rows h)
            (pending-IsAfter b.last_position_id rows) in
      let fewer : length (pending b'.last_position_id rows) ≤ n =
        rw more (omega (arith, length-drop 200 left, k)) in
      ap (λ es. (rounds n (take_event es s)).broadcaster.sent) e
      ∙ ap (λ (t : Board F). (rounds n t).broadcaster.sent) (quiet_round s h)
      ∙ (paging n (record s { broadcaster = b' }) e h fewer
          ∙ ap (λ ps. b'.sent ++ ps) more
          ∙ ap (λ ps. ps ++ drop 200 left) (broadcast_all-sent page b)
          ∙ append_assoc b.sent page (drop 200 left)
          ∙ ap (λ ps. b.sent ++ ps) (take-drop 200 left))

  abbrev found_list : Option (StoredPosition F) → List (StoredPosition F)
  found_list none = []
  found_list (some p) = p ∷ []

  abbrev reached : ℕ → Option (StoredPosition F) → ℕ
  reached n none = n
  reached n (some p) = max n p.id

  abbrev pub row_of : ℕ → List (StoredPosition F) → Option (StoredPosition F)
  row_of id = first_of (λ p. p.id == id)

  -- The stored positions that events name, and the largest of their ids and `n`.
  abbrev pub announced : List ℕ → List (StoredPosition F) → List (StoredPosition F)
  announced [] rows = []
  announced (id ∷ events) rows = found_list (row_of id rows) ++ announced events rows

  abbrev pub last_announced : List ℕ → List (StoredPosition F) → ℕ → ℕ
  last_announced [] rows n = n
  last_announced (id ∷ events) rows n = last_announced events rows (reached n (row_of id rows))

  found_sent :
      (found : Option (StoredPosition F)) (b : Broadcaster F)
      → (broadcast_found found b).sent ≡ b.sent ++ found_list found
  unfolding broadcast
  found_sent none b = sym (append-nil b.sent)
  found_sent (some p) b = refl

  found_last :
      (found : Option (StoredPosition F)) (b : Broadcaster F)
      → (broadcast_found found b).last_position_id ≡ reached b.last_position_id found
  unfolding broadcast
  found_last none b = refl
  found_last (some p) b = refl

  rounds-from :
      (events : List ℕ) (n : ℕ) (s : Board F)
      → s.table.events ≡ events
      → Pairwise Ascends s.table.rows
      → length events + length s.table.rows ≤ n
      → (rounds n s).broadcaster.sent
        ≡ s.broadcaster.sent
          ++ (announced events s.table.rows
              ++ pending
                  (last_announced events s.table.rows s.broadcaster.last_position_id)
                  s.table.rows)
  unfolding rounds take_event get_position_by_id
  rounds-from [] n s e h k =
      paging n s e h (omega (arith, k, length-pending s.broadcaster.last_position_id s.table.rows))
  rounds-from (id ∷ events) zero s e h k = absurd (omega (arith, k))
  rounds-from (id ∷ events) (suc n) s e h k =
      let rows = s.table.rows in
      let b = s.broadcaster in
      let found = row_of id rows in
      let b' = broadcast_found found b in
      let next : Board F = record {
        table = record s.table { events = events };
        broadcaster = b';
      } in
      let last = reached b.last_position_id found in
      let rest = announced events rows ++ pending (last_announced events rows last) rows in
      ap (λ es. (rounds n (take_event es s)).broadcaster.sent) e
      ∙ rounds-from events n next refl h (omega (arith, k))
      ∙ ap (λ m. b'.sent ++ (announced events rows ++ pending (last_announced events rows m) rows))
          (found_last found b)
      ∙ ap (λ ps. ps ++ rest) (found_sent found b)
      ∙ append_assoc b.sent (found_list found) rest
      ∙ ap (λ ps. b.sent ++ ps)
          (sym (
            append_assoc (found_list found) (announced events rows)
              (pending (last_announced events rows last) rows)))

module _ (fl : Floats) where
  open fl use {F}

  -- In as many rounds as there are events and stored positions, without further writes, the
  -- broadcaster sends each position that an event names, in the order of the events, and then each
  -- stored position whose id is above theirs and the broadcaster's, once and in the order of ids.
  -- Further rounds send nothing.
  pub rounds-sends :
      (n : ℕ) (table : Positions F) (b : Broadcaster F)
      → IsTable fl table
      → length table.events + length table.rows ≤ n
      → (rounds n (record { table = table; broadcaster = b })).broadcaster.sent
        ≡ b.sent
          ++ (announced table.events table.rows
              ++ pending (last_announced table.events table.rows b.last_position_id) table.rows)
  rounds-sends n table b t k =
      rounds-from table.events n (record { table = table; broadcaster = b }) refl
        (Pairwise-weaken (IsBefore fl) Ascends (λ p q h. h.0) table.rows t.ordered) k
