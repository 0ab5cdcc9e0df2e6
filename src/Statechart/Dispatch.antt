-- ===== src/Statechart/Dispatch.antt =====
-- `StatechartEngine._dispatch_action` of core/statechart.py.
use agentwire_cue.Prelude.{String, Option, none, some, ◌∷◌, ◌==◌, if◌then◌else◌}
use agentwire_cue.Value.{Runtime, Value, Values, str, dict, nil, cons, truthy, is_none, list}
use agentwire_cue.Value.Dict
use agentwire_cue.Outcome.{Result, type_error, python_error}
use agentwire_cue.Statechart.Model.{
  EvalEnv, Chart, Host, Handler, SendCall, Run, action_error, exception, replied, sent, handled,
  executed, with_metadata, without_metadata, ok, err,
}
use agentwire_cue.Statechart.Action.{
  Action, pure, raise, lift, effect, attempt, index, get_field, env_dict, render, ◌>>=◌, ◌>>◌,
}
use agentwire_cue.Statechart.Handlers.{
  action_log, action_set_context, action_increment_context, render_metadata,
}

module _ {rt : Runtime} where
  -- `if not env.event.message_id`
  unfoldable pub required_message_id : Option String → Action rt String
  unfolding pure raise
  required_message_id none = raise action_error
  required_message_id (some id) = if id == "" then raise action_error else pure id

  unfoldable pub dispatch_reply : Host rt → Chart rt → EvalEnv rt → Value rt → Action rt (Unit {0})
  unfolding required_message_id lift index render attempt effect
  dispatch_reply host chart env action = do
    id ← required_message_id env.event.message_id
    params ← lift (index action "with")
    template ← lift (index params "template")
    text ← render host chart env template
    attempt (host.reply id text)
    effect (replied id text)
    effect (executed "reply_a2a")

  -- `msg["text"]` if the message is a dict with that key, else the message itself
  unfoldable pub message_text : Value rt → Value rt
  message_text (dict d) = Dict.get_or "text" (dict d) d
  message_text v = v

  -- `_render_metadata` of the metadata, if there is any
  unfoldable pub rendered_metadata :
      Host rt → Chart rt → EvalEnv rt → Value rt → Action rt (Value rt)
  unfolding pure env_dict lift render_metadata
  rendered_metadata host chart env raw =
      if is_none raw
      then pure Value.none
      else (do d ← env_dict host chart env; lift (render_metadata host d raw))

  -- The call of `_a2a_send` with metadata, and after a TypeError the call without.
  unfoldable pub send_once : Host rt → Value rt → String → SendCall rt → Action rt (Unit {0})
  unfolding attempt effect
  send_once host peer text call = attempt (host.send peer text call) >> effect (sent peer text call)

  unfoldable pub send_tolerant : Host rt → Value rt → String → Value rt → Action rt (Unit {0})
  unfolding send_once
  send_tolerant host peer text metadata =
      let again = send_once host peer text without_metadata in
      let first = send_once host peer text (with_metadata metadata) in
      elim (host.send peer text (with_metadata metadata)) [ some type_error ↦ again | _ ↦ first ]

  unfoldable pub dispatch_send : Host rt → Chart rt → EvalEnv rt → Value rt → Action rt (Unit {0})
  unfolding lift index message_text render get_field rendered_metadata send_tolerant effect
  dispatch_send host chart env action = do
    params ← lift (index action "with")
    peer ← lift (index params "peer")
    message ← lift (index params "message")
    text ← render host chart env (message_text message)
    raw ← lift (get_field params "metadata" Value.none)
    metadata ← rendered_metadata host chart env raw
    send_tolerant host peer text metadata
    effect (executed "send_a2a")

  -- The handler of another module, with its own effects on the outside.
  unfoldable pub run_handler : Handler rt → String → EvalEnv rt → Value rt → Action rt (Unit {0})
  run_handler handler type env action r =
      let (raised, context, reads) = handler action env r.context r.reads in
      let after : Run rt = record {
        context = context;
        reads = reads;
        effects = handled type ∷ r.effects;
      } in
      elim raised [ none ↦ (ok tt, after) | some e ↦ (err e, after) ]

  -- ACTION_REGISTRY.get(action_type), and the call of what it returns
  unfoldable pub dispatch_registered :
      Host rt → Chart rt → EvalEnv rt → String → Value rt → Action rt (Unit {0})
  unfolding run_handler action_log action_set_context action_increment_context raise
  dispatch_registered host chart env type action = elim (host.handlers type) [
    | some handler ↦ run_handler handler type env action
    | none ↦
        if type == "log"
        then action_log host chart env action
        else if type == "set_context"
        then action_set_context host chart env action
        else if type == "increment_context"
        then action_increment_context host chart env action
        else raise action_error
  ]

  -- The dispatch on a type that is true as a Python value. A type that is no text is in no registry.
  unfoldable pub dispatch_type :
      Host rt → Chart rt → EvalEnv rt → Value rt → Value rt → Action rt (Unit {0})
  unfolding dispatch_reply dispatch_send dispatch_registered effect raise
  dispatch_type host chart env (str type) action =
      if type == "reply_a2a"
      then dispatch_reply host chart env action
      else if type == "send_a2a"
      then dispatch_send host chart env action
      else (dispatch_registered host chart env type action >> effect (executed type))
  dispatch_type host chart env (list vs) action = raise (exception type_error)
  dispatch_type host chart env (dict d) action = raise (exception type_error)
  dispatch_type host chart env v action = raise action_error

  unfoldable pub dispatch_action : Host rt → Chart rt → EvalEnv rt → Value rt → Action rt (Unit {0})
  unfolding lift get_field dispatch_type raise truthy
  dispatch_action host chart env action = do
    type ← lift (get_field action "type" Value.none)
    if truthy type then dispatch_type host chart env type action else raise action_error

  -- `for action in actions: await self._dispatch_action(action, env)`
  unfoldable pub dispatch_all : Host rt → Chart rt → EvalEnv rt → Values rt → Action rt (Unit {0})
  unfolding dispatch_action pure
  dispatch_all host chart env nil = pure tt
  dispatch_all host chart env (cons action actions) =
      dispatch_action host chart env action >> dispatch_all host chart env actions

  -- `v or []`, as the loop over actions takes it: what is true and no list has items without `.get`.
  unfoldable pub actions_of : Value rt → Result rt (Values rt)
  unfolding truthy
  actions_of (list vs) = Result.ok vs
  actions_of v = if truthy v then Result.err python_error else Result.ok nil
