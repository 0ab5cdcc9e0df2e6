-- ===== src/History/Peers.antt =====
-- `HistoryClient.list_peers` of core/history_client.py. Its loop over the pages of tasks has no bound
-- of its own, so it is given fuel.
pub mod Laws
use agentwire_cue.Prelude.{
  ℕ, zero, suc, String, Char, Bool, true, false, Option, none, some, List, [], ◌∷◌, leb, length,
  if◌then◌else◌,
}
use agentwire_cue.Prelude.Assoc as Assoc
use agentwire_cue.Prelude.Assoc.{Assoc}
use agentwire_cue.Prelude.Int.{ℤ, pos, int_ltb}
use agentwire_cue.Value.{
  Runtime, Value, Values, Fields, int, str, list, dict, nil, cons, end, field, truthy, is_none,
}
use agentwire_cue.Value.Dict
use agentwire_cue.Outcome.{Result, ok, err, type_error, python_error, ◌>>=◌}
use agentwire_cue.Statechart.Action.{get_field}
use agentwire_cue.Statechart.Persist.{is_prefix}
use agentwire_cue.Permission.Checks.{is_in}
use agentwire_cue.History.Cache.{Key, Gateway, HistoryClient, peers, get_cached, set_cached, rpc}

-- An entry of `peers_map`, but for its name, which is its key.
pub record Row (rt : Runtime) : Type 0 where
  pub uuid : Value rt
  pub last_round : ℤ

-- How the loop ends: at a last page or at the cap, with an exception, or without fuel.
pub data Listing : Type 0 where
  listed interrupted out_of_fuel : Listing

-- The text before the first "::", if there is one.
unfoldable pub before_colons : String → Option String
unfolding is_prefix
before_colons String.[] = none
before_colons (String.◌∷◌ c s) =
    let rest : Option String = elim (before_colons s) [
      | none ↦ none
      | some front ↦ some (String.◌∷◌ c front)
    ] in
    if is_prefix "::" (String.◌∷◌ c s) then some "" else rest

unfoldable pub take_text : ℕ → String → String
take_text zero s = String.[]
take_text (suc n) String.[] = String.[]
take_text (suc n) (String.◌∷◌ c s) = String.◌∷◌ c (take_text n s)

module _ {rt : Runtime} where
  unfoldable pub take_values : ℕ → Values rt → Values rt
  take_values zero vs = nil
  take_values (suc n) nil = nil
  take_values (suc n) (cons v vs) = cons v (take_values n vs)

  -- v[:8]
  unfoldable pub slice_8 : Value rt → Result rt (Value rt)
  unfolding take_text take_values
  slice_8 (str s) = ok (str (take_text 8 s))
  slice_8 (list vs) = ok (list (take_values 8 vs))
  slice_8 v = err type_error

  -- The peer in a task's context id, if it is named there; what is no text has no `split`.
  unfoldable pub peer_name : Value rt → Result rt (Option String)
  unfolding truthy before_colons is_in
  peer_name (str s) = ok (before_colons s)
  peer_name v =
      if truthy v
      then (is_in "::" v >>= λ found. if found then err python_error else ok none)
      else ok none

  -- peers_map[name], with a new row if there is none
  unfoldable pub row_of : String → Value rt → Assoc (Row rt) → Result rt (Row rt)
  unfolding slice_8
  row_of name task_id rows = elim (Assoc.get name rows) [
    | some row ↦ ok row
    | none ↦ slice_8 task_id >>= λ uuid. ok (record { uuid = uuid; last_round = pos 0 })
  ]

  -- The round in a task's id: 0 unless it begins with 0x, none for a ValueError.
  unfoldable pub round_of : (String → Option ℤ) → Value rt → Result rt (Option ℤ)
  unfolding is_prefix
  round_of parse_hex (str s) = ok (if is_prefix "0x" s then parse_hex s else some (pos 0))
  round_of parse_hex v = err python_error

  unfoldable pub raise_round : Option ℤ → Row rt → Row rt
  raise_round none row = row
  raise_round (some n) row = record row {
    last_round = if int_ltb row.last_round n then n else row.last_round;
  }

  -- The rows after a task whose peer is known; a row stays although its round raises.
  unfoldable pub add_row :
      (String → Option ℤ)
      → String
      → Value rt
      → Assoc (Row rt)
      → Result rt (Unit {0}) × Assoc (Row rt)
  unfolding row_of round_of raise_round
  add_row parse_hex name task_id rows = elim (row_of name task_id rows) [
    | err e ↦ (err e, rows)
    | ok row ↦ elim (round_of parse_hex task_id) [
      | err e ↦ (err e, Assoc.set name row rows)
      | ok n ↦ (ok tt, Assoc.set name (raise_round n row) rows)
    ]
  ]

  unfoldable pub add_named :
      (String → Option ℤ)
      → Result rt (Option String)
      → Value rt
      → Assoc (Row rt)
      → Result rt (Unit {0}) × Assoc (Row rt)
  unfolding add_row
  add_named parse_hex (err e) task_id rows = (err e, rows)
  add_named parse_hex (ok none) task_id rows = (ok tt, rows)
  add_named parse_hex (ok (some name)) task_id rows = add_row parse_hex name task_id rows

  -- One task; what is no dict has no `get`.
  unfoldable pub add_task :
      (String → Option ℤ) → Value rt → Assoc (Row rt) → Result rt (Unit {0}) × Assoc (Row rt)
  unfolding peer_name add_named
  add_task parse_hex (dict task) rows =
      add_named parse_hex (peer_name (Dict.get_or "contextId" (str "") task))
        (Dict.get_or "id" (str "") task) rows
  add_task parse_hex v rows = (err python_error, rows)

  unfoldable pub add_tasks :
      (String → Option ℤ) → Values rt → Assoc (Row rt) → Result rt (Unit {0}) × Assoc (Row rt)
  unfolding add_task
  add_tasks parse_hex nil rows = (ok tt, rows)
  add_tasks parse_hex (cons task tasks) rows =
      let (added, rows') = add_task parse_hex task rows in
      let rest = add_tasks parse_hex tasks rows' in
      elim added [ err e ↦ (err e, rows') | ok _ ↦ rest ]

  -- result.get("tasks", []), as a loop takes it: only a list has items that are tasks
  unfoldable pub tasks_of : Value rt → Result rt (Values rt)
  unfolding get_field
  tasks_of result = get_field result "tasks" (list nil) >>= λ v. elim v [
    | list vs ↦ ok vs
    | str s ↦ elim s [ String.[] ↦ ok nil | String.◌∷◌ c t ↦ err python_error ]
    | dict d ↦ elim d [ end ↦ ok nil | field k w e ↦ err python_error ]
    | _ ↦ err type_error
  ]

  -- result.get("next_page_token", "") or result.get("nextPageToken", "")
  unfoldable pub next_token : Value rt → Result rt (Value rt)
  unfolding get_field truthy
  next_token result = do
    token ← get_field result "next_page_token" (str "")
    other ← get_field result "nextPageToken" (str "")
    ok (if truthy token then token else other)

  -- The parameters of the call for a page.
  unfoldable pub page_params : Value rt → Fields rt
  unfolding truthy
  page_params page_token =
      if truthy page_token
      then field "page_size" (int (pos 100)) (field "page_token" page_token end)
      else field "page_size" (int (pos 100)) end

  -- What the round of the loop makes of a page: an exception, or the token of the next page.
  unfoldable pub read_page :
      (String → Option ℤ)
      → Result rt (Value rt)
      → Assoc (Row rt)
      → Result rt (Value rt) × Assoc (Row rt)
  unfolding tasks_of add_tasks next_token
  read_page parse_hex (err e) rows = (err e, rows)
  read_page parse_hex (ok result) rows = elim (tasks_of result) [
    | err e ↦ (err e, rows)
    | ok tasks ↦
        let (added, rows') = add_tasks parse_hex tasks rows in
        (added >>= λ _. next_token result, rows')
  ]

  -- The end of a round: a last page, the cap of 50 peers, or another round.
  unfoldable pub go_on :
      Result rt (Value rt) × Assoc (Row rt)
      → (Value rt → Listing × Assoc (Row rt) × HistoryClient rt)
      → HistoryClient rt
      → Listing × Assoc (Row rt) × HistoryClient rt
  unfolding truthy
  go_on (err e, rows) again c = (interrupted, rows, c)
  go_on (ok token, rows) again c =
      if truthy token
      then (if leb 50 (length rows) then (listed, rows, c) else again token)
      else (listed, rows, c)

  module _ (gateway : Gateway rt) where
    unfoldable pub list_tasks :
        ℕ
        → Value rt
        → Assoc (Row rt)
        → HistoryClient rt
        → Listing × Assoc (Row rt) × HistoryClient rt
    unfolding rpc page_params read_page go_on
    list_tasks zero page_token rows c = (out_of_fuel, rows, c)
    list_tasks (suc fuel) page_token rows c =
        let (answer, c') = rpc gateway "ListTasks" (page_params page_token) Value.none c in
        let page = read_page gateway.parse_hex answer rows in
        go_on page (λ token. list_tasks fuel token page.1 c') c'

    -- The rows of the aliases, which stand in after an exception.
    unfoldable pub add_aliases : Assoc (Fields rt) → Assoc (Row rt) → Assoc (Row rt)
    unfolding take_text
    add_aliases [] rows = rows
    add_aliases ((name, meta) ∷ aliases) rows = add_aliases aliases (
        Assoc.set name
          (record { uuid = Dict.get_or "uuid" (str (take_text 8 name)) meta; last_round = pos 0 })
          rows)

    -- list(peers_map.values())
    unfoldable pub values_of : Assoc (Row rt) → Values rt
    values_of [] = nil
    values_of ((name, row) ∷ rows) =
        cons
          (dict (
            field "name" (str name)
              (field "uuid" row.uuid (field "last_round" (int row.last_round) end))))
          (values_of rows)

    -- The peers, which are cached; `none` if the loop was given too little fuel.
    unfoldable pub keep_peers :
        Listing × Assoc (Row rt) × HistoryClient rt → Option (Value rt) × HistoryClient rt
    unfolding set_cached values_of add_aliases
    keep_peers (listed, rows, c) =
        let found : Value rt = list (values_of rows) in
        (some found, set_cached gateway peers found c)
    keep_peers (interrupted, rows, c) =
        let found : Value rt = list (values_of (add_aliases c.aliases rows)) in
        (some found, set_cached gateway peers found c)
    keep_peers (out_of_fuel, rows, c) = (none, c)

    unfoldable pub list_peers : ℕ → HistoryClient rt → Option (Value rt) × HistoryClient rt
    unfolding get_cached list_tasks keep_peers
    list_peers fuel c =
        let (cached, c') = get_cached gateway peers c in
        let fetched = keep_peers (list_tasks fuel (str "") [] c') in
        if is_none cached then fetched else (some cached, c')
