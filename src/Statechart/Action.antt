-- ===== src/Statechart/Action.antt =====
-- Computations of actions: they share the context and may raise. What was done before an exception
-- stays done.
use agentwire_cue.Prelude.{ℕ, ◌+◌, String, Option, none, some, ◌∷◌}
use agentwire_cue.Prelude.Int.{pos, pos_part, ◌-ℤ◌}
use agentwire_cue.Value.{Runtime, Value, Fields, int, str, dict, end, field}
use agentwire_cue.Value.Dict
use agentwire_cue.Outcome.{Result, Exn, key_error, type_error, python_error}
use agentwire_cue.Expression.Template.{render_template}
use agentwire_cue.Statechart.Model.{
  Event, Raise, Outcome, Effect, Run, EvalEnv, Chart, Host, exception, ok, err,
}

abbrev pub Action : Runtime → Type 0 → Type 0
Action rt A = Run rt → Outcome rt A × Run rt

module _ {rt : Runtime} where
  unfoldable pub pure : {A : Type 0} → A → Action rt A
  pure a r = (ok a, r)

  unfoldable pub raise : {A : Type 0} → Raise rt → Action rt A
  raise e r = (err e, r)

  abbrev pub continue :
      {A B : Type 0} → Outcome rt A → (A → Action rt B) → Run rt → Outcome rt B × Run rt
  continue (ok a) f r = f a r
  continue (err e) f r = (err e, r)

  infixl 5 ◌>>=◌ ◌>>◌
  abbrev pub ◌>>=◌ : {A B : Type 0} → Action rt A → (A → Action rt B) → Action rt B
  ◌>>=◌ m f r = let (a, r') = m r in continue a f r'

  abbrev pub ◌>>◌ : {A B : Type 0} → Action rt A → Action rt B → Action rt B
  m >> n = m >>= λ _. n

  -- A computation with no effect, that may raise.
  unfoldable pub lift : {A : Type 0} → Result rt A → Action rt A
  lift (Result.ok a) r = (ok a, r)
  lift (Result.err e) r = (err (exception e), r)

  unfoldable pub effect : Effect rt → Action rt (Unit {0})
  effect e r = (ok tt, record r { effects = e ∷ r.effects })

  -- A call to the outside that raises or not.
  unfoldable pub attempt : Option (Exn rt) → Action rt (Unit {0})
  attempt none r = (ok tt, r)
  attempt (some e) r = (err (exception e), r)

  unfoldable pub now_ms : Host rt → Action rt ℕ
  now_ms host r = (ok (host.time r.reads), record r { reads = r.reads + 1 })

  unfoldable pub get_context : Action rt (Fields rt)
  get_context r = (ok r.context, r)

  -- env.context[k] = v
  unfoldable pub set_key : String → Value rt → Action rt (Unit {0})
  set_key k v r = (ok tt, record r { context = Dict.set k v r.context })

  -- v[k]
  unfoldable pub index : Value rt → String → Result rt (Value rt)
  index (dict d) k = elim (Dict.get k d) [ none ↦ Result.err (key_error k) | some v ↦ Result.ok v ]
  index _ k = Result.err type_error

  -- v.get(k, default)
  unfoldable pub get_field : Value rt → String → Value rt → Result rt (Value rt)
  get_field (dict d) k default = Result.ok (Dict.get_or k default d)
  get_field _ k default = Result.err python_error

  -- merged[k] = v, if v is not None
  unfoldable pub set_text : String → Option String → Fields rt → Fields rt
  set_text k none d = d
  set_text k (some s) d = Dict.set k (str s) d

  -- `Event.as_dict`
  unfoldable pub event_dict : Event rt → Fields rt
  unfolding set_text
  event_dict e =
      set_text "source_peer" e.source_peer
        (set_text "message_id" e.message_id (Dict.set "type" (str e.type) e.payload))

  -- `EvalEnv.as_dict`, which reads the clock twice; `pos_part` is max(0, n).
  unfoldable pub env_fields : Host rt → Chart rt → EvalEnv rt → Run rt → Fields rt
  unfolding event_dict
  env_fields host chart env r = field "event" (dict (event_dict env.event)) (
      field "context" (dict r.context) (
        field "state"
          (dict (
            field "id" env.current_state (
              field "duration_ms"
                (int (pos (pos_part (pos (host.time r.reads) -ℤ env.entered_at_ms))))
                (field "entered_at_ms" (int env.entered_at_ms) end))))
          (field "meta" (dict chart.meta) (
            field "now" (int (pos (host.time (r.reads + 1))))
              (field "peers" host.peers (field "history" host.history end))))))

  -- The clock after `as_dict`.
  unfoldable pub after_env : Run rt → Run rt
  after_env r = record r { reads = r.reads + 2 }

  unfoldable pub env_dict : Host rt → Chart rt → EvalEnv rt → Action rt (Fields rt)
  unfolding env_fields after_env
  env_dict host chart env r = (ok (env_fields host chart env r), after_env r)

  -- render_template(v, env.as_dict()); `re.sub` raises TypeError at a value that is no text
  unfoldable pub render : Host rt → Chart rt → EvalEnv rt → Value rt → Action rt String
  unfolding env_dict lift raise
  render host chart env (str s) = do
    d ← env_dict host chart env
    lift (render_template host.lex host.py d s)
  render host chart env v = do env_dict host chart env; raise (exception type_error)
