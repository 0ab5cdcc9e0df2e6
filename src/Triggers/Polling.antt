-- ===== src/Triggers/Polling.antt =====
-- `HistoryChangeTrigger` of core/trigger_impl.py, on the rows that `HistoryClient.list_peers` returns.
pub mod Laws
use agentwire_cue.Prelude.{
  ℕ, String, Bool, true, false, Option, none, some, List, [], ◌∷◌, ◌||◌, ◌==◌, if◌then◌else◌,
}
use agentwire_cue.Prelude.Assoc as Assoc
use agentwire_cue.Prelude.Assoc.{Assoc}
use agentwire_cue.Prelude.Int.{ℤ, pos, ◌-ℤ◌, int_ltb}
use agentwire_cue.Value.{Runtime, Value, Fields, int, str, end, field}
use agentwire_cue.Value.Dict
use agentwire_cue.Statechart.Model.{Event, Chart, Host}
use agentwire_cue.Statechart.Tracked.{Plugin, run_tracked_transition}
use agentwire_cue.History.Peers.{Row, take_text}

-- `peer` is the peer to watch, "*" for all; `granularity` is only shown in the event.
pub record HistoryChangeTrigger : Type 0 where
  pub granularity : String
  pub peer : String

-- A firing: the peer, and its round before and now.
pub record Change : Type 0 where
  pub peer : String
  pub prev_round : ℤ
  pub new_round : ℤ

module _ {rt : Runtime} where
  -- p.get("name") or p.get("uuid"), if it is a text
  unfoldable pub key_of : String → Row rt → String
  key_of name row =
      let uuid : String = elim row.uuid [ str s ↦ s | _ ↦ "" ] in if name == "" then uuid else name

  -- (alias_meta or {}).get("uuid") or "", if it is a text
  unfoldable pub alias_uuid : Fields rt → String
  unfolding Dict.get
  alias_uuid meta = elim (Dict.get_or "uuid" Value.none meta) [ str s ↦ s | _ ↦ "" ]

  -- The loop over the aliases.
  unfoldable pub alias_matches : String → String → Assoc (Fields rt) → Bool
  unfolding alias_uuid take_text
  alias_matches peer key [] = false
  alias_matches peer key ((name, meta) ∷ aliases) =
      let rest = alias_matches peer key aliases in
      let uuid = alias_uuid meta in
      if name == peer
      then if uuid == ""
        then rest
        else if key == uuid || key == take_text 8 uuid
        then true
        else rest
      else rest

  unfoldable pub peer_matches : HistoryChangeTrigger → Assoc (Fields rt) → String → Bool
  unfolding alias_matches
  peer_matches t aliases key = t.peer == "*" || key == t.peer || alias_matches t.peer key aliases

  module _ (t : HistoryChangeTrigger) (aliases : Assoc (Fields rt)) where
    -- The first snapshot.
    unfoldable pub snapshot : Assoc (Row rt) → Assoc ℤ → Assoc ℤ
    unfolding key_of peer_matches
    snapshot [] s = s
    snapshot ((name, row) ∷ rows) s =
        let key = key_of name row in
        snapshot rows (if peer_matches t aliases key then Assoc.set key row.last_round s else s)

    abbrev pub last_seen : String → Assoc ℤ → ℤ
    last_seen key s = elim (Assoc.get key s) [ none ↦ pos 0 | some n ↦ n ]

    -- One peer of a poll: what it fires, and the snapshot after it.
    unfoldable pub poll_row : String → Row rt → Assoc ℤ → Option Change × Assoc ℤ
    unfolding key_of peer_matches
    poll_row name row s =
        let key = key_of name row in
        let change : Change = record {
          peer = key;
          prev_round = last_seen key s;
          new_round = row.last_round;
        } in
        if peer_matches t aliases key
        then if int_ltb (last_seen key s) row.last_round
          then (some change, Assoc.set key row.last_round s)
          else (none, s)
        else (none, s)

    -- The loop over the peers of a poll: its firings in order, and the snapshot.
    unfoldable pub poll : Assoc (Row rt) → Assoc ℤ → List Change × Assoc ℤ
    unfolding poll_row
    poll [] s = ([], s)
    poll ((name, row) ∷ rows) s =
        let (change, s') = poll_row name row s in
        let (changes, s'') = poll rows s' in
        (elim change [ none ↦ changes | some c ↦ c ∷ changes ], s'')

    -- The event of a firing.
    unfoldable pub change_event : Change → Event rt
    change_event c = record {
      type = "history_change";
      payload = field "peer" (str c.peer) (
          field "prev_round" (int c.prev_round) (
            field "new_round" (int c.new_round) (
              field "new_count" (int (c.new_round -ℤ c.prev_round))
                (field "granularity" (str t.granularity) end))));
      message_id = none;
      source_peer = none;
    }

    -- The firings of a poll; what a transition raises is logged.
    unfoldable pub fire_all : Host rt → Chart rt → List Change → Plugin rt → Plugin rt
    unfolding change_event run_tracked_transition
    fire_all host chart [] p = p
    fire_all host chart (c ∷ cs) p =
        fire_all host chart cs (run_tracked_transition host chart (change_event c) p).1
