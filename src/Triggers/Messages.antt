-- ===== src/Triggers/Messages.antt =====
-- `A2ATrigger` of core/trigger_impl.py, and the events that messages become.
use agentwire_cue.Prelude.{String, Bool, true, false, Option, none, some, ◌==◌, if◌then◌else◌}
use agentwire_cue.Value.{Runtime, Value, Fields, str, dict, end, field, truthy}
use agentwire_cue.Value.Dict
use agentwire_cue.Outcome.{Result, ok, err, ◌>>=◌}
use agentwire_cue.Statechart.Action.{get_field}
use agentwire_cue.Statechart.Model.{Chart, Host}
use agentwire_cue.Statechart.Tracked.{Plugin, run_tracked_transition}

module _ {rt : Runtime} where
  -- message.get('messageId') or message.get('message_id'), if it is a text
  unfoldable pub message_id_of : Fields rt → Option String
  unfolding truthy
  message_id_of message =
      let first = Dict.get_or "messageId" Value.none message in
      elim (if truthy first then first else Dict.get_or "message_id" Value.none message) [
        | str s ↦ some s
        | _ ↦ none
      ]

  -- `A2ATrigger.matches`
  unfoldable pub a2a_matches : String → Value rt → Result rt Bool
  unfolding get_field
  a2a_matches match payload =
      if match == "*"
      then ok true
      else (get_field payload "type" (str "") >>= λ type. elim type [
        | str s ↦ ok (s == match)
        | _ ↦ ok false
      ])

  module _ (host : Host rt) (chart : Chart rt) where
    -- The event of a message; a type that is no text is no key of any `on`, so nothing follows.
    unfoldable pub fire_message : Value rt → Plugin rt → Plugin rt
    unfolding message_id_of run_tracked_transition
    fire_message (dict message) p = elim (Dict.get_or "type" (str "A2A_MESSAGE") message) [
      | str type ↦
          (run_tracked_transition host chart
            (record {
              type = type;
              payload = field "message" (dict message) end;
              message_id = message_id_of message;
              source_peer = none;
            })
            p).1
      | _ ↦ p
    ]
    fire_message v p = p

    -- `A2ATrigger._on_message`: what the transition raises is logged.
    unfoldable pub a2a_on_message : String → Value rt → Plugin rt → Result rt (Unit {0}) × Plugin rt
    unfolding a2a_matches fire_message
    a2a_on_message match message p = elim (a2a_matches match message) [
      | err e ↦ (err e, p)
      | ok b ↦ (ok tt, if b then fire_message message p else p)
    ]
