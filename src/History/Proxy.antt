-- ===== src/History/Proxy.antt =====
-- The proxies of core/history_proxy.py, on the client of core/history_client.py.
use Prim.Native.String.{◌++◌}
use agentwire_cue.Prelude.{
  String, Bool, true, false, Option, none, some, List, [], ◌∷◌, ◌==◌, if◌then◌else◌,
}
use agentwire_cue.Prelude.Assoc as Assoc
use agentwire_cue.Prelude.Assoc.{Assoc}
use agentwire_cue.Prelude.Int.{ℤ, pos, ◌+ℤ◌}
use agentwire_cue.Value.{
  Runtime, Value, Values, Fields, int, str, list, dict, nil, cons, end, field, truthy,
}
use agentwire_cue.Value.Dict
use agentwire_cue.Outcome.{Result, ok, err, diagnostic, type_error, python_error, ◌>>=◌}
use agentwire_cue.Statechart.Handlers.{int_of}
use agentwire_cue.Permission.Checks.{is_in}
use agentwire_cue.History.Cache.{Gateway, HistoryClient}
use agentwire_cue.History.Client.{list_messages}

module _ {rt : Runtime} where
  -- p.get("type") == "text", and p.get("text") or ""
  unfoldable pub is_text_part : Fields rt → Bool
  is_text_part part = elim (Dict.get_or "type" Value.none part) [ str s ↦ s == "text" | _ ↦ false ]

  unfoldable pub text_or_empty : Fields rt → Value rt
  unfolding truthy
  text_or_empty part = let t = Dict.get_or "text" Value.none part in if truthy t then t else str ""

  -- The loop over the parts of a message: it stops at the first that has the needle.
  unfoldable pub parts_contain : String → Values rt → Result rt Bool
  unfolding is_text_part text_or_empty is_in
  parts_contain needle nil = ok false
  parts_contain needle (cons (dict part) parts) =
      let rest = parts_contain needle parts in
      if is_text_part part
      then (is_in needle (text_or_empty part) >>= λ found. if found then ok true else rest)
      else rest
  parts_contain needle (cons v parts) = err python_error

  -- What `for p in m.get("parts", [])` goes through: only a list has parts.
  unfoldable pub parts_of : Value rt → Result rt (Values rt)
  parts_of (list vs) = ok vs
  parts_of (str String.[]) = ok nil
  parts_of (dict end) = ok nil
  parts_of v = err python_error

  unfoldable pub has_role : String → Fields rt → Bool
  has_role role m = elim (Dict.get_or "role" Value.none m) [ str s ↦ s == role | _ ↦ false ]

  -- The loop over the messages with a role.
  unfoldable pub messages_contain : String → String → Values rt → Result rt Bool
  unfolding parts_contain parts_of has_role
  messages_contain role needle nil = ok false
  messages_contain role needle (cons (dict m) ms) =
      let rest = messages_contain role needle ms in
      if has_role role m
      then (parts_of (Dict.get_or "parts" (list nil) m) >>= λ parts.
          parts_contain needle parts >>= λ found. if found then ok true else rest)
      else rest
  messages_contain role needle (cons v ms) = err python_error

  -- The texts of the parts of a message, in front of those of the later messages.
  unfoldable pub part_texts : Values rt → Result rt (List (Value rt)) → Result rt (List (Value rt))
  unfolding is_text_part text_or_empty truthy
  part_texts nil later = later
  part_texts (cons (dict part) parts) later =
      let rest = part_texts parts later in
      let t = text_or_empty part in
      if is_text_part part
      then (if truthy t then (rest >>= λ texts. ok (t ∷ texts)) else rest)
      else rest
  part_texts (cons v parts) later = err python_error

  unfoldable pub inbound_texts : Values rt → Result rt (List (Value rt))
  unfolding part_texts parts_of has_role
  inbound_texts nil = ok []
  inbound_texts (cons (dict m) ms) =
      let rest = inbound_texts ms in
      if has_role "inbound" m
      then (parts_of (Dict.get_or "parts" (list nil) m) >>= λ parts. part_texts parts rest)
      else rest
  inbound_texts (cons v ms) = err python_error

  -- "\n".join(texts)
  unfoldable pub join_lines : List (Value rt) → Result rt String
  join_lines [] = ok ""
  join_lines (str s ∷ []) = ok s
  join_lines (str s ∷ v ∷ vs) = join_lines (v ∷ vs) >>= λ rest. ok (s ++ "\n" ++ rest)
  join_lines (v ∷ vs) = err type_error

-- A `_PeerHistoryProxy`, and a `_PeerProxy`: the meta dict of the peer, and the name that was asked for.
pub record PeerProxy (rt : Runtime) : Type 0 where
  pub meta : Fields rt
  pub requested_peer : Value rt

module _ {rt : Runtime} (gateway : Gateway rt) (proxy : PeerProxy rt) where
  -- meta.get(k) or other
  unfoldable pub meta_or : String → Value rt → Value rt
  unfolding truthy
  meta_or k other = let v = Dict.get_or k Value.none proxy.meta in if truthy v then v else other

  -- The messages of a peer; its uuid, or else its name, is a text.
  unfoldable pub fetch_last :
      Value rt
      → Value rt
      → Option (HistoryClient rt)
      → Result rt (Value rt) × Option (HistoryClient rt)
  unfolding list_messages
  fetch_last peer n none = (ok (list nil), none)
  fetch_last (str peer) n (some c) =
      let (msgs, c') = list_messages gateway peer n (int (pos 0)) c in (msgs, some c')
  fetch_last v n (some c) = (err python_error, some c)

  -- `last`, and `last_n_rounds`
  unfoldable pub last :
      Value rt → Option (HistoryClient rt) → Result rt (Value rt) × Option (HistoryClient rt)
  unfolding meta_or fetch_last
  last n client = elim proxy.meta [
    | end ↦ (err (diagnostic "peer_not_found" (field "peer" proxy.requested_peer end)), client)
    | field k v d ↦ fetch_last (meta_or "uuid" (Dict.get_or "name" Value.none proxy.meta)) n client
  ]

  unfoldable pub count : Result rt ℤ
  unfolding int_of
  count = int_of (Dict.get_or "total_rounds" (int (pos 0)) proxy.meta)

  unfoldable pub last_round : Result rt ℤ
  unfolding int_of
  last_round = int_of (Dict.get_or "last_round" (int (pos 0)) proxy.meta)

  -- HistoryDiagnosticError("history_empty", ...)
  unfoldable pub history_empty : {A : Type 0} → Result rt A
  unfolding meta_or
  history_empty = err (
      diagnostic "history_empty" (
        field "peer" (meta_or "name" proxy.requested_peer)
          (field "uuid" (Dict.get_or "uuid" Value.none proxy.meta) end)))

  -- What is asked of the last five rounds, which must not be empty.
  unfoldable pub ask : {A : Type 0} → (Values rt → Result rt A) → Result rt (Value rt) → Result rt A
  unfolding truthy history_empty
  ask question (err e) = err e
  ask question (ok (list nil)) = history_empty
  ask question (ok (list (cons m ms))) = question (cons m ms)
  ask question (ok v) = if truthy v then err python_error else history_empty

  unfoldable pub last_inbound_contains :
      String → Option (HistoryClient rt) → Result rt Bool × Option (HistoryClient rt)
  unfolding last ask messages_contain
  last_inbound_contains needle client =
      let (msgs, client') = last (int (pos 5)) client in
      (ask (messages_contain "inbound" needle) msgs, client')

  unfoldable pub last_outbound_contains :
      String → Option (HistoryClient rt) → Result rt Bool × Option (HistoryClient rt)
  unfolding last ask messages_contain
  last_outbound_contains needle client =
      let (msgs, client') = last (int (pos 5)) client in
      (ask (messages_contain "outbound" needle) msgs, client')

  unfoldable pub last_inbound_text :
      Option (HistoryClient rt) → Result rt String × Option (HistoryClient rt)
  unfolding last ask inbound_texts join_lines
  last_inbound_text client =
      let (msgs, client') = last (int (pos 5)) client in
      (ask (λ ms. inbound_texts ms >>= join_lines) msgs, client')

module _ {rt : Runtime} where
  -- `_by_name` from the snapshot: p.get("name") or p.get("uuid"), if it is a text
  unfoldable pub index_peers : List (Fields rt) → Assoc (Fields rt) → Assoc (Fields rt)
  unfolding truthy
  index_peers [] by_name = by_name
  index_peers (p ∷ snapshot) by_name =
      let name = Dict.get_or "name" Value.none p in
      elim (if truthy name then name else Dict.get_or "uuid" Value.none p) [
        | str k ↦ index_peers snapshot (Assoc.set k p by_name)
        | _ ↦ index_peers snapshot by_name
      ]

  -- The first peer of the snapshot with the uuid of an alias.
  unfoldable pub find_uuid : String → List (Fields rt) → Option (Fields rt)
  unfolding Dict.get
  find_uuid uuid [] = none
  find_uuid uuid (p ∷ snapshot) =
      let rest = find_uuid uuid snapshot in
      elim (Dict.get_or "uuid" Value.none p) [
        | str s ↦ if s == uuid then some p else rest
        | _ ↦ rest
      ]

  abbrev pub synthesized : String → Value rt → Fields rt
  synthesized name uuid = field "name" (str name) (
      field "uuid" uuid (
        field "last_round" (int (pos 0))
          (field "total_rounds" (int (pos 0)) (field "last_ts" Value.none end))))

  -- The meta dict that an alias gets.
  unfoldable pub alias_target : List (Fields rt) → String → Value rt → Fields rt
  unfolding find_uuid
  alias_target snapshot name (str uuid) =
      elim (if uuid == "" then none else find_uuid uuid snapshot) [
        | some p ↦ p
        | none ↦ synthesized name (str uuid)
      ]
  alias_target snapshot name v = synthesized name v

  -- The loop over the aliases of `refresh`.
  unfoldable pub merge_aliases :
      List (Fields rt) → Assoc (Fields rt) → Assoc (Fields rt) → Assoc (Fields rt)
  unfolding alias_target Dict.set
  merge_aliases snapshot [] by_name = by_name
  merge_aliases snapshot ((name, meta) ∷ aliases) by_name = merge_aliases snapshot aliases (
      Assoc.set name
        (Dict.set "name" (str name)
          (alias_target snapshot name (Dict.get_or "uuid" Value.none meta)))
        by_name)

  -- `refresh`, from the snapshot on
  unfoldable pub refresh : List (Fields rt) → Assoc (Fields rt) → Assoc (Fields rt)
  unfolding index_peers merge_aliases
  refresh snapshot aliases = merge_aliases snapshot aliases (index_peers snapshot [])

  -- peers.<name>
  unfoldable pub peer : String → Assoc (Fields rt) → PeerProxy rt
  peer name by_name = record {
    meta = elim (Assoc.get name by_name) [ none ↦ end | some meta ↦ meta ];
    requested_peer = str name;
  }

  unfoldable pub total_rounds : List (Fields rt) → Result rt ℤ
  unfolding int_of
  total_rounds [] = ok (pos 0)
  total_rounds (p ∷ snapshot) = do
    n ← int_of (Dict.get_or "total_rounds" (int (pos 0)) p)
    rest ← total_rounds snapshot
    ok (n +ℤ rest)
