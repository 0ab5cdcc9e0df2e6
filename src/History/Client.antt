-- ===== src/History/Client.antt =====
-- The lookups of `HistoryClient`, core/history_client.py.
pub mod Laws
use agentwire_cue.Prelude.{
  String, Bool, true, false, Option, none, some, List, [], ◌∷◌, ◌==◌, if◌then◌else◌,
}
use agentwire_cue.Prelude.Assoc as Assoc
use agentwire_cue.Prelude.Assoc.{Assoc}
use agentwire_cue.Value.{Runtime, Value, Fields, str, list, dict, nil, end, field, is_none}
use agentwire_cue.Value.Dict
use agentwire_cue.Outcome.{Result, ok, err, diagnostic, key_error, ◌>>=◌}
use agentwire_cue.Statechart.Action.{index, get_field}
use agentwire_cue.A2a.Aliases.{alias_token}
use agentwire_cue.History.Cache.{
  Key, Gateway, HistoryClient, messages, round, atom_of, get_cached, set_cached, rpc,
}

module _ {rt : Runtime} where
  -- any alias's `uuid` is the text
  unfoldable pub is_uuid : String → Assoc (Fields rt) → Bool
  unfolding Dict.get
  is_uuid peer [] = false
  is_uuid peer ((name, meta) ∷ aliases) =
      let rest = is_uuid peer aliases in
      elim (Dict.get_or "uuid" Value.none meta) [
        | str s ↦ if s == peer then true else rest
        | _ ↦ rest
      ]

  unfoldable pub resolve_alias : String → Assoc (Fields rt) → Result rt (Value rt)
  unfolding is_uuid index
  resolve_alias peer [] = ok (str peer)
  resolve_alias peer ((name, meta) ∷ aliases) =
      let unknown : Result rt (Value rt) =
        if is_uuid peer ((name, meta) ∷ aliases)
        then ok (str peer)
        else err (diagnostic "peer_not_found" (field "peer" (str peer) end)) in
      elim (Assoc.get peer ((name, meta) ∷ aliases)) [
        | some known ↦ index (dict known) "uuid"
        | none ↦ unknown
      ]

  module _ (gateway : Gateway rt) where
    -- `_resolve_peer_token`
    unfoldable pub resolve_peer_token : String → HistoryClient rt → Result rt (Value rt)
    unfolding alias_token
    resolve_peer_token peer c = elim (Assoc.get peer c.aliases) [
      | none ↦ ok c.token
      | some meta ↦ alias_token gateway.secrets c.token meta
    ]

    -- result.get("messages", []), which is cached unless the call raised
    unfoldable pub keep_messages :
        Key rt → Result rt (Value rt) × HistoryClient rt → Result rt (Value rt) × HistoryClient rt
    unfolding get_field set_cached
    keep_messages k (result, c) = elim (result >>= λ r. get_field r "messages" (list nil)) [
      | err e ↦ (err e, c)
      | ok msgs ↦ (ok msgs, set_cached gateway k msgs c)
    ]

    -- The cached value of a key, or what `fetch` gets for it.
    unfoldable pub cached_or :
        Key rt
        → (HistoryClient rt → Result rt (Value rt) × HistoryClient rt)
        → HistoryClient rt
        → Result rt (Value rt) × HistoryClient rt
    unfolding get_cached
    cached_or k fetch c =
        let (cached, c') = get_cached gateway k c in
        let fetched = fetch c' in if is_none cached then fetched else (ok cached, c')

    unfoldable pub fetch_messages :
        Key rt
        → String
        → Value rt
        → Value rt
        → Value rt
        → HistoryClient rt
        → Result rt (Value rt) × HistoryClient rt
    unfolding resolve_peer_token rpc keep_messages
    fetch_messages k peer target limit since_round c = elim (resolve_peer_token peer c) [
      | err e ↦ (err e, c)
      | ok token ↦ keep_messages k (
          rpc gateway "messages/list"
            (field "peer_uuid" target (field "limit" limit (field "since_round" since_round end)))
            token c)
    ]

    -- The key of a lookup of messages.
    unfoldable pub messages_key : Value rt → Value rt → Value rt → Result rt (Key rt)
    unfolding atom_of
    messages_key target limit since_round = do
      a ← atom_of target
      b ← atom_of limit
      c ← atom_of since_round
      ok (messages a b c)

    unfoldable pub lookup :
        Result rt (Key rt)
        → (Key rt → HistoryClient rt → Result rt (Value rt) × HistoryClient rt)
        → HistoryClient rt
        → Result rt (Value rt) × HistoryClient rt
    unfolding cached_or
    lookup (err e) fetch c = (err e, c)
    lookup (ok k) fetch c = cached_or k (fetch k) c

    unfoldable pub list_messages :
        String → Value rt → Value rt → HistoryClient rt → Result rt (Value rt) × HistoryClient rt
    unfolding resolve_alias messages_key fetch_messages lookup
    list_messages peer limit since_round c = elim (resolve_alias peer c.aliases) [
      | err e ↦ (err e, c)
      | ok target ↦
          lookup (messages_key target limit since_round)
            (λ k. fetch_messages k peer target limit since_round) c
    ]

    unfoldable pub round_key : Value rt → Value rt → Result rt (Key rt)
    unfolding atom_of
    round_key target round_n = do a ← atom_of target; b ← atom_of round_n; ok (round a b)

    unfoldable pub fetch_round :
        Value rt → Value rt → Key rt → HistoryClient rt → Result rt (Value rt) × HistoryClient rt
    unfolding rpc keep_messages
    fetch_round target round_n k c = keep_messages k (
        rpc gateway "messages/get" (field "peer_uuid" target (field "round" round_n end)) Value.none
          c)

    unfoldable pub get_round :
        String → Value rt → HistoryClient rt → Result rt (Value rt) × HistoryClient rt
    unfolding resolve_alias round_key fetch_round lookup
    get_round peer round_n c = elim (resolve_alias peer c.aliases) [
      | err e ↦ (err e, c)
      | ok target ↦ lookup (round_key target round_n) (fetch_round target round_n) c
    ]
