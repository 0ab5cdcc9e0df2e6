-- ===== src/History/Peers/Laws.antt =====
-- When the listing of peers ends.
use mathlib.Core.Path.{subst}
use agentwire_cue.Prelude.{
  ℕ, zero, suc, ◌+◌, ◌<◌, ◌≡◌, ◌≢◌, refl, ap, ◌∙◌, Bool, true, false, arith, leb, length, if_elim,
  if◌then◌else◌,
}
use agentwire_cue.Prelude.Assoc.{Assoc}
use agentwire_cue.Value.{Runtime, Value, truthy}
use agentwire_cue.Outcome.{Result, ok, err}
use agentwire_cue.History.Cache.{Gateway, HistoryClient, rpc}
use agentwire_cue.History.Peers.{
  Row, Listing, listed, out_of_fuel, page_params, read_page, go_on, list_tasks,
}

bools_differ : {b : Bool} → b ≡ false → b ≡ true → ⊥
bools_differ h k = cc

module _ {rt : Runtime} (gateway : Gateway rt) where
  -- The call number n ends the listing, whatever page it is asked for: it raises, or its page has no next token.
  abbrev pub IsLast : Value rt → ℕ → Type 0
  IsLast token n =
      (page_token : Value rt) (rows : Assoc (Row rt)) (c : HistoryClient rt)
      → c.calls ≡ n
      → c.token ≡ token
      → (v : Value rt)
      → (read_page gateway.parse_hex
          (rpc gateway "ListTasks" (page_params page_token) Value.none c).0 rows).0
        ≡ ok v
      → truthy v ≡ false

  go_on-ends :
      (page : Result rt (Value rt) × Assoc (Row rt))
      (again : Value rt → Listing × Assoc (Row rt) × HistoryClient rt) (c : HistoryClient rt)
      → ((v : Value rt) → page.0 ≡ ok v → truthy v ≡ true → (again v).0 ≢ out_of_fuel)
      → (go_on page again c).0 ≢ out_of_fuel
  unfolding go_on
  go_on-ends (err e, rows) again c h = λ x. cc
  go_on-ends (ok v, rows) again c h = go (truthy v) refl
    where
      go :
          (b : Bool)
          → truthy v ≡ b
          → (if b
              then (if leb 50 (length rows) then (listed, rows, c) else again v)
              else (listed, rows, c)).0
            ≢ out_of_fuel
      go false t = λ x. cc
      go true t =
          if_elim (λ (r : Listing × Assoc (Row rt) × HistoryClient rt). r.0 ≢ out_of_fuel)
            (leb 50 (length rows)) (λ _. λ x. cc) (λ _. h v refl t)

  -- If some call of the gateway, `left` calls from now, raises or names no next page, the loop
  -- over the pages ends with any fuel above `left`.
  pub list_tasks-ends :
      (left fuel : ℕ) (page_token : Value rt) (rows : Assoc (Row rt)) (c : HistoryClient rt)
      → IsLast c.token (c.calls + left)
      → left < fuel
      → (list_tasks gateway fuel page_token rows c).0 ≢ out_of_fuel
  unfolding list_tasks rpc
  list_tasks-ends left zero page_token rows c h lt = absurd (omega (arith, lt))
  list_tasks-ends zero (suc fuel) page_token rows c h lt =
      let (answer, c') = rpc gateway "ListTasks" (page_params page_token) Value.none c in
      let page = read_page gateway.parse_hex answer rows in
      go_on-ends page (λ token. list_tasks gateway fuel token page.1 c') c'
        (λ v e t. absurd (bools_differ (h page_token rows c (omega arith) refl v e) t))
  list_tasks-ends (suc left) (suc fuel) page_token rows c h lt =
      let (answer, c') = rpc gateway "ListTasks" (page_params page_token) Value.none c in
      let page = read_page gateway.parse_hex answer rows in
      go_on-ends page (λ token. list_tasks gateway fuel token page.1 c') c'
        (λ v e t.
          list_tasks-ends left fuel v page.1 c' (subst (IsLast c.token) (omega arith) h)
            (omega (arith, lt)))

  -- Every page names a next one, and no page names a new peer.
  abbrev pub IsEndless : Assoc (Row rt) → Type 0
  IsEndless rows =
      (page_token : Value rt) (c : HistoryClient rt)
      → (v : Value rt) × (truthy v ≡ true)
        × (read_page gateway.parse_hex
              (rpc gateway "ListTasks" (page_params page_token) Value.none c).0 rows
            ≡ (ok v, rows))

  go_on-again :
      (page : Result rt (Value rt) × Assoc (Row rt)) (v : Value rt) (rows : Assoc (Row rt))
      (again : Value rt → Listing × Assoc (Row rt) × HistoryClient rt) (c : HistoryClient rt)
      → page ≡ (ok v, rows)
      → truthy v ≡ true
      → leb 50 (length rows) ≡ false
      → go_on page again c ≡ again v
  unfolding go_on
  go_on-again page v rows again c h t n =
      ap (λ (p : Result rt (Value rt) × Assoc (Row rt)). go_on p again c) h
      ∙ ap
          (λ (b : Bool).
            if b
            then (if leb 50 (length rows) then (listed, rows, c) else again v)
            else (listed, rows, c))
          t
      ∙ ap (λ (b : Bool). if b then (listed, rows, c) else again v) n

  -- If every page names a next one and adds no peer, and fewer than 50 peers are known, no fuel is
  -- enough: the loop does not end.
  pub list_tasks-endless :
      (rows : Assoc (Row rt))
      → IsEndless rows
      → leb 50 (length rows) ≡ false
      → (fuel : ℕ) (page_token : Value rt) (c : HistoryClient rt)
      → (list_tasks gateway fuel page_token rows c).0 ≡ out_of_fuel
  unfolding list_tasks
  list_tasks-endless rows h n zero page_token c = refl
  list_tasks-endless rows h n (suc fuel) page_token c =
      let (answer, c') = rpc gateway "ListTasks" (page_params page_token) Value.none c in
      let page = read_page gateway.parse_hex answer rows in
      let (v, t, e) = h page_token c in
      ap (λ (r : Listing × Assoc (Row rt) × HistoryClient rt). r.0)
        (go_on-again page v rows (λ token. list_tasks gateway fuel token page.1 c') c' e t n)
      ∙ ap (λ (q : Assoc (Row rt)). (list_tasks gateway fuel v q c').0)
          (ap (λ (p : Result rt (Value rt) × Assoc (Row rt)). p.1) e)
      ∙ list_tasks-endless rows h n fuel v c'
